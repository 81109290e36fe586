-- ===== src/Mqtt/Acknowledgement.antt =====
-- Which command an acknowledgement ends: `handle_ack_message` of web/mqtt_bridge/services.py.
use sensor_server.Prelude.{
  ℕ, ◌≤◌, ◌≡◌, refl, sym, subst, ◌==◌, ◌⊎◌, inl, inr, Bool, true, false, ◌&&◌, Option, none, some,
  List, [], ◌∷◌, All, arith, leb, eqb, select, if◌then◌else◌, if_cases, leb→le,
}
use sensor_server.Value.{Json, is_text}
use sensor_server.Store.{Device}
use sensor_server.World.{
  World, Run, CommandLog, success, failed, is_pending, mark, pending_with, has_action, update_where,
}
use sensor_server.Mqtt.Payload.{handled, rejected, no_matching_command}
use sensor_server.Mqtt.Ack.{latest, text_or_empty, mark_matched, resolve_ack}
use sensor_server.Mqtt.Effects.Keys.{Among, Among-select, latest-Among}

-- `c` is none of the older ones.
abbrev IsLatest : CommandLog → List CommandLog → Type 0
IsLatest c cs = All (λ e. e.sent_at ≤ c.sent_at) cs

IsLatest-later :
    (c d : CommandLog) (cs : List CommandLog)
    → c.sent_at ≤ d.sent_at
    → IsLatest c cs
    → IsLatest d cs
IsLatest-later c d [] h k = tt
IsLatest-later c d (e ∷ cs) h k = (omega (arith, k.0), IsLatest-later c d cs h k.1)

-- The choice of `latest` for a head and what the tail gave.
HasLatest : List CommandLog → Option CommandLog → Type 0
HasLatest cs none = cs ≡ []
HasLatest cs (some c) = IsLatest c cs

latest-HasLatest : (cs : List CommandLog) → HasLatest cs (latest cs)
unfolding latest HasLatest
latest-HasLatest [] = refl
latest-HasLatest (c ∷ cs) = choose (latest cs) (latest-HasLatest cs)
  where
    choose :
        (o : Option CommandLog)
        → HasLatest cs o
        → HasLatest
            (c ∷ cs)
            (elim o [ none ↦ some c | some e ↦ if leb c.sent_at e.sent_at then some e else some c ])
    choose none h = (omega arith, subst (λ l. IsLatest c l) (sym h) tt)
    choose (some e) h =
        if_cases (HasLatest (c ∷ cs)) (leb c.sent_at e.sent_at) (λ le. (leb→le _ _ le, h))
          (λ gt. (omega arith, IsLatest-later e c cs (ground arith) h))

All-unselect {κ} :
    (P : CommandLog → Type κ) (test : CommandLog → Bool) (cs : List CommandLog)
    → All P (select test cs)
    → All (λ c. test c ≡ true → P c) cs
unfolding select
All-unselect P test [] h = tt
All-unselect P test (c ∷ cs) h = split (test c) refl (λ k. All-unselect P test cs k) h
  where
    split :
        (b : Bool)
        → test c ≡ b
        → (All P (select test cs) → All (λ e. test e ≡ true → P e) cs)
        → All P (if b then c ∷ select test cs else select test cs)
        → All (λ c. test c ≡ true → P c) (c ∷ cs)
    split true e rest k = (λ _. k.0, rest k.1)
    split false e rest k = (λ t. ground arith, rest k)

-- A pending command of the device whose action is the acknowledged one.
abbrev pub answers : Device → Json → CommandLog → Bool
answers d action c = (c.device == d.device_id) && is_pending c.status && has_action action c

-- The command that was ended, and how.
pub record IsAcked (now : ℕ) (action status message : Json) (r : Run) (v : World) : Type 0 where
  pub chosen : CommandLog
  pub among : Among chosen r.world.commands
  pub matches : answers r.device action chosen ≡ true
  pub most_recent :
      All (λ c. answers r.device action c ≡ true → c.sent_at ≤ chosen.sent_at) r.world.commands
  pub ended :
      v.commands
      ≡ update_where
          (λ c. eqb c.pk chosen.pk)
          (mark (if is_text status "ok" then success else failed) (text_or_empty message) now)
          r.world.commands

-- An acknowledgement either finds no pending command with its action, which leaves the state alone,
-- or ends exactly one: a pending command of the device with that action, none of those created
-- later, which succeeds on `ok` and fails otherwise.
pub resolve_ack-IsAcked :
    (now : ℕ) (action status message : Json) (r : Run)
    → ((resolve_ack now action status message r ≡ (rejected no_matching_command, r.world))
        × (select (answers r.device action) r.world.commands ≡ []))
      ⊎ ((resolve_ack now action status message r).0 ≡ handled)
        × IsAcked now action status message r (resolve_ack now action status message r).1
unfolding resolve_ack pending_with
resolve_ack-IsAcked now action status message r =
    by_choice (latest matching) refl (latest-HasLatest matching)
  where
    matching : List CommandLog
    matching = select (answers r.device action) r.world.commands

    by_choice :
        (o : Option CommandLog)
        → latest matching ≡ o
        → HasLatest matching o
        → ((mark_matched now status message r.world o ≡ (rejected no_matching_command, r.world))
            × (matching ≡ []))
          ⊎ ((mark_matched now status message r.world o).0 ≡ handled)
            × IsAcked now action status message r (mark_matched now status message r.world o).1
    by_choice none e h = inl (refl, unfold HasLatest in h)
    by_choice (some c) e h =
        let found =
          Among-select (answers r.device action) c r.world.commands (latest-Among matching c e) in
        inr (
          refl,
          record {
            chosen = c;
            among = found.0;
            matches = found.1;
            most_recent =
                All-unselect (λ x. x.sent_at ≤ c.sent_at) (answers r.device action) r.world.commands
                  (unfold HasLatest in h);
            ended = refl;
          },
        )
