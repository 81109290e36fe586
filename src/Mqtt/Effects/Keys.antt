-- ===== src/Mqtt/Effects/Keys.antt =====
-- The primary keys of the command log grow along the table and stay below the next one.
use sensor_server.Prelude.{
  ℕ, suc, ◌≤◌, ◌<◌, String, ◌≡◌, refl, ◌⊎◌, inl, inr, Bool, true, false, List, [], ◌∷◌, ◌++◌, All,
  arith, Bool-cases, Option, none, some, select, leb, eqb, if_cases, eqb→eq, subst, if◌then◌else◌,
}
use sensor_server.World.{
  World, CommandLog, update_where, mqtt_publish, mark, log_status, create_command, group_send,
}
use sensor_server.Mqtt.Ack.{latest}
use sensor_server.Mqtt.Effects.{
  Effect, Effects, saves, discovers, sends, marks, creates, logs_status, logs_diag, notifies,
  stores,
}
use sensor_server.Mqtt.Effects.Closure.{Effects-induction}

-- Keys from `low` on, growing, all below `high`.
abbrev pub Ascending : ℕ → List CommandLog → ℕ → Type 0
Ascending low [] high = low ≤ high
Ascending low (c ∷ cs) high = (low ≤ c.pk) × Ascending (suc c.pk) cs high

pub record IsKeyed (w : World) : Type 0 where
  pub ascending : Ascending 0 w.commands w.next_pk

Ascending-append :
    (low high : ℕ) (cs : List CommandLog) (c : CommandLog)
    → c.pk ≡ high
    → Ascending low cs high
    → Ascending low (cs ++ c ∷ []) (suc high)
Ascending-append low high [] c e h = (omega arith, omega arith)
Ascending-append low high (x ∷ xs) c e h = (h.0, Ascending-append (suc x.pk) high xs c e h.1)

pub Ascending-update_where :
    (low high : ℕ) (test : CommandLog → Bool) (change : CommandLog → CommandLog)
    → ((c : CommandLog) → (change c).pk ≡ c.pk)
    → (cs : List CommandLog) → Ascending low cs high
    → Ascending low (update_where test change cs) high
unfolding update_where
Ascending-update_where low high test change keeps [] h = h
Ascending-update_where low high test change keeps (c ∷ cs) h =
    let rest = Ascending-update_where (suc c.pk) high test change keeps cs h.1 in
    if_cases
      (λ (e : CommandLog). (low ≤ e.pk) × Ascending (suc e.pk) (update_where test change cs) high)
      (test c) (λ _. rw (keeps c) (h.0, rest)) (λ _. (h.0, rest))

Ascending-from :
    (low from high : ℕ) (cs : List CommandLog)
    → low ≤ from
    → Ascending from cs high
    → Ascending low cs high
Ascending-from low from high [] le h = omega (arith, le, h)
Ascending-from low from high (c ∷ cs) le h = (omega (arith, le, h.0), h.1)

-- Deleted rows leave the keys of the others in order.
pub Ascending-select :
    (low high : ℕ) (p : CommandLog → Bool) (cs : List CommandLog)
    → Ascending low cs high
    → Ascending low (select p cs) high
unfolding select
Ascending-select low high p [] h = h
Ascending-select low high p (c ∷ cs) h =
    let rest = Ascending-select (suc c.pk) high p cs h.1 in
    if_cases (λ (l : List CommandLog). Ascending low l high) (p c) (λ _. (h.0, rest))
      (λ _. Ascending-from low (suc c.pk) high (select p cs) (omega (arith, h.0)) rest)

Effect-IsKeyed : {now : ℕ} {id : String} {w v : World} → Effect now id w v → IsKeyed w → IsKeyed v
unfolding mqtt_publish log_status create_command group_send mark
Effect-IsKeyed {w} (sends m one_shot) k = elim (Bool-cases (w.broker w.attempts)) [
  | inl taken ↦ rw (taken, mqtt_publish) (record { ascending = k.ascending })
  | inr lost ↦ rw (lost, mqtt_publish) (record { ascending = k.ascending })
]
Effect-IsKeyed {now} {w} (marks status message test terminal selects) k = record {
  ascending =
      Ascending-update_where 0 w.next_pk test (mark status message now) (λ c. refl) w.commands
        k.ascending;
}
Effect-IsKeyed {w} (creates d command sent_by own) k = record {
  ascending = Ascending-append 0 w.next_pk w.commands _ refl k.ascending;
}
Effect-IsKeyed (saves f row found keeps approved valid) k = record { ascending = k.ascending }
Effect-IsKeyed (discovers t unknown fits) k = record { ascending = k.ascending }
Effect-IsKeyed (logs_status d own) k = record { ascending = k.ascending }
Effect-IsKeyed (logs_diag s own) k = record { ascending = k.ascending }
Effect-IsKeyed (notifies e) k = record { ascending = k.ascending }
Effect-IsKeyed (stores readings approved own) k = record { ascending = k.ascending }

pub Effects-IsKeyed :
    {now : ℕ} {id : String} {w v : World} → Effects now id w v → IsKeyed w → IsKeyed v
Effects-IsKeyed =
    Effects-induction (λ w v. IsKeyed w → IsKeyed v) (λ w k. k)
      (λ w u v p e k. Effect-IsKeyed e (p k))

-- `c` is a row of the list.
abbrev pub Among : CommandLog → List CommandLog → Type 0
Among c [] = ⊥
Among c (x ∷ xs) = (x ≡ c) ⊎ Among c xs

Among-kept :
    (p : CommandLog → Bool) (c x : CommandLog) (xs kept : List CommandLog)
    → p x ≡ true
    → (Among c kept → Among c xs × (p c ≡ true))
    → Among c (x ∷ kept)
    → Among c (x ∷ xs) × (p c ≡ true)
Among-kept p c x xs kept keep rest (inl e) = (inl e, rw (← e) keep)
Among-kept p c x xs kept keep rest (inr n) = let r = rest n in (inr r.0, r.1)

-- A selected row is a row that passes the test.
pub Among-select :
    (p : CommandLog → Bool) (c : CommandLog) (xs : List CommandLog)
    → Among c (select p xs)
    → Among c xs × (p c ≡ true)
unfolding select
Among-select p c [] m = absurd m
Among-select p c (x ∷ xs) m = elim (Bool-cases (p x)) [
  | inl keep ↦ Among-kept p c x xs (select p xs) keep (Among-select p c xs) (rw (keep, select) at m)
  | inr drop ↦ let r = Among-select p c xs (rw (drop, select) at m) in (inr r.0, r.1)
]

newer :
    (b : Bool) (x e c : CommandLog) → (if b then some e else some x) ≡ some c → (e ≡ c) ⊎ (x ≡ c)
newer true x e c h = inl (cc)
newer false x e c h = inr (cc)

latest-cons :
    (x c : CommandLog) (xs : List CommandLog) (o : Option CommandLog)
    → latest xs ≡ o
    → ((e : CommandLog) → o ≡ some e → Among e xs)
    → latest (x ∷ xs) ≡ some c
    → Among c (x ∷ xs)
unfolding latest
latest-cons x c xs none e ih h = let q : some x ≡ some c = rw (e, latest) at h in inl (cc)
latest-cons x c xs (some y) e ih h =
    elim (newer (leb x.sent_at y.sent_at) x y c (rw (e, latest) at h)) [
      | inl same ↦ inr (subst (λ z. Among z xs) same (ih y refl))
      | inr same ↦ inl same
    ]

-- The latest row is one of the rows.
pub latest-Among : (cs : List CommandLog) (c : CommandLog) → latest cs ≡ some c → Among c cs
unfolding latest
latest-Among [] c h = cc
latest-Among (x ∷ xs) c h =
    latest-cons x c xs (latest xs) refl (λ e q. latest-Among xs e q) (unfold latest in h)

above_skipped :
    (low high k : ℕ) (cs : List CommandLog) (P : CommandLog → Type 0)
    → k < low
    → Ascending low cs high
    → All (λ e. eqb e.pk k ≡ true → P e) cs
above_skipped low high k [] P lt h = tt
above_skipped low high k (x ∷ xs) P lt h =
    (λ e. absurd (ground arith), above_skipped (suc x.pk) high k xs P (omega arith) h.1)

Among-above :
    (low high : ℕ) (cs : List CommandLog) (c : CommandLog)
    → Ascending low cs high
    → Among c cs
    → low ≤ c.pk
Among-above low high [] c h m = absurd m
Among-above low high (x ∷ xs) c h (inl e) = rw (← e) h.0
Among-above low high (x ∷ xs) c h (inr m) = omega (arith, Among-above (suc x.pk) high xs c h.1 m)

-- A key is that of one row only.
pub key_unique :
    (low high : ℕ) (cs : List CommandLog) (c : CommandLog) (P : CommandLog → Type 0)
    → Ascending low cs high
    → Among c cs
    → P c
    → All (λ e. eqb e.pk c.pk ≡ true → P e) cs
key_unique low high [] c P h m good = tt
key_unique low high (x ∷ xs) c P h (inl e) good =
    (λ _. rw e good, above_skipped (suc x.pk) high c.pk xs P (rw e (omega arith)) h.1)
key_unique low high (x ∷ xs) c P h (inr m) good = (
  λ e. absurd (omega (arith, Among-above (suc x.pk) high xs c h.1 m, eqb→eq x.pk c.pk e)),
  key_unique (suc x.pk) high xs c P h.1 m good,
)
