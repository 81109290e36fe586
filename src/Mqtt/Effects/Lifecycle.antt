-- ===== src/Mqtt/Effects/Lifecycle.antt =====
-- The lifecycle of logged commands: a row keeps its identity, only a pending one moves, and only to
-- a terminal status.
use sensor_server.Prelude.{
  ℕ, String, ◌≡◌, refl, ◌∙◌, ◌⊎◌, inl, inr, Bool, true, List, [], ◌∷◌, ◌++◌, arith, Bool-cases,
}
use sensor_server.World.{
  World, CommandLog, Status, pending, is_terminal, update_where, mqtt_publish, mark, log_status,
  create_command, group_send,
}
use sensor_server.Mqtt.Effects.{
  Effect, Effects, saves, discovers, sends, marks, creates, logs_status, logs_diag, notifies,
  stores, SelectsPending,
}
use sensor_server.Mqtt.Effects.Closure.{Effects-induction}

-- What may become of one row: nothing, or a pending command ends.
pub record Moves (c e : CommandLog) : Type 0 where
  pub same_pk : e.pk ≡ c.pk
  pub same_device : e.device ≡ c.device
  pub same_command : e.command ≡ c.command
  pub same_sent_at : e.sent_at ≡ c.sent_at
  pub same_sender : e.sent_by ≡ c.sent_by
  pub moved : (e ≡ c) ⊎ ((c.status ≡ pending) × (is_terminal e.status ≡ true))

-- Row by row; new rows stand behind the old ones.
abbrev pub Evolves : List CommandLog → List CommandLog → Type 0
Evolves [] es = Unit
Evolves (c ∷ cs) [] = ⊥
Evolves (c ∷ cs) (e ∷ es) = Moves c e × Evolves cs es

Moves-refl : (c : CommandLog) → Moves c c
Moves-refl c = record {
  same_pk = refl;
  same_device = refl;
  same_command = refl;
  same_sent_at = refl;
  same_sender = refl;
  moved = inl refl;
}

Moves-trans : {c e f : CommandLog} → Moves c e → Moves e f → Moves c f
Moves-trans p q = record {
  same_pk = q.same_pk ∙ p.same_pk;
  same_device = q.same_device ∙ p.same_device;
  same_command = q.same_command ∙ p.same_command;
  same_sent_at = q.same_sent_at ∙ p.same_sent_at;
  same_sender = q.same_sender ∙ p.same_sender;
  moved = ground (arith, p.moved, q.moved);
}

pub Evolves-refl : (cs : List CommandLog) → Evolves cs cs
Evolves-refl [] = tt
Evolves-refl (c ∷ cs) = (Moves-refl c, Evolves-refl cs)

pub Evolves-trans : (cs es fs : List CommandLog) → Evolves cs es → Evolves es fs → Evolves cs fs
Evolves-trans [] es fs p q = tt
Evolves-trans (c ∷ cs) [] fs p q = absurd p
Evolves-trans (c ∷ cs) (e ∷ es) [] p q = absurd q
Evolves-trans (c ∷ cs) (e ∷ es) (f ∷ fs) p q = (Moves-trans p.0 q.0, Evolves-trans cs es fs p.1 q.1)

Evolves-append : (cs es : List CommandLog) → Evolves cs (cs ++ es)
Evolves-append [] es = tt
Evolves-append (c ∷ cs) es = (Moves-refl c, Evolves-append cs es)

mark-Moves :
    (status : Status) (message : String) (now : ℕ) (c : CommandLog)
    → is_terminal status ≡ true
    → c.status ≡ pending
    → Moves c (mark status message now c)
unfolding mark
mark-Moves status message now c terminal waiting = record {
  same_pk = refl;
  same_device = refl;
  same_command = refl;
  same_sent_at = refl;
  same_sender = refl;
  moved = inr (waiting, terminal);
}

mark-Evolves :
    (id : String) (test : CommandLog → Bool) (status : Status) (message : String) (now : ℕ)
    → is_terminal status ≡ true
    → (cs : List CommandLog) → SelectsPending id test cs
    → Evolves cs (update_where test (mark status message now) cs)
unfolding update_where
mark-Evolves id test status message now terminal [] h = tt
mark-Evolves id test status message now terminal (c ∷ cs) h = elim (Bool-cases (test c)) [
  | inl hit ↦ rw hit (
    mark-Moves status message now c terminal (h.0 hit).1,
    mark-Evolves id test status message now terminal cs h.1,
  )
  | inr miss ↦ rw miss (Moves-refl c, mark-Evolves id test status message now terminal cs h.1)
]

Effect-Evolves :
    {now : ℕ} {id : String} {w v : World} → Effect now id w v → Evolves w.commands v.commands
unfolding mqtt_publish log_status create_command group_send
Effect-Evolves {w} (saves f row found keeps approved valid) = Evolves-refl w.commands
Effect-Evolves {w} (discovers t unknown fits) = Evolves-refl w.commands
Effect-Evolves {w} (sends m one_shot) = elim (Bool-cases (w.broker w.attempts)) [
  | inl taken ↦ rw (taken, mqtt_publish) (Evolves-refl w.commands)
  | inr lost ↦ rw (lost, mqtt_publish) (Evolves-refl w.commands)
]
Effect-Evolves {now} {id} {w} (marks status message test terminal selects) =
    mark-Evolves id test status message now terminal w.commands selects
Effect-Evolves {w} (creates d command sent_by own) = Evolves-append w.commands _
Effect-Evolves {w} (logs_status d own) = Evolves-refl w.commands
Effect-Evolves {w} (logs_diag s own) = Evolves-refl w.commands
Effect-Evolves {w} (notifies e) = Evolves-refl w.commands
Effect-Evolves {w} (stores readings approved own) = Evolves-refl w.commands

pub Effects-Evolves :
    {now : ℕ} {id : String} {w v : World} → Effects now id w v → Evolves w.commands v.commands
Effects-Evolves =
    Effects-induction (λ w v. Evolves w.commands v.commands) (λ w. Evolves-refl w.commands)
      (λ w u v p e. Evolves-trans w.commands u.commands v.commands p (Effect-Evolves e))
