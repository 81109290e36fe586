-- ===== src/Mqtt/Effects/Closure.antt =====
-- Sequences of writes compose, and a relation that every write respects holds of a sequence.
use sensor_server.Prelude.{ℕ, String, Bool, true, false, if◌then◌else◌}
use sensor_server.World.{World}
use sensor_server.Mqtt.Effects.{Effect, Effects, done, also}

module _ {now : ℕ} {id : String} where
  pub one : {w v : World} → Effect now id w v → Effects now id w v
  one e = also done e

  pub and_then : {w u v : World} → Effects now id w u → Effects now id u v → Effects now id w v
  and_then p done = p
  and_then p (also q e) = also (and_then p q) e

  pub Effects-if :
      (b : Bool) {w u v : World}
      → Effects now id w u
      → Effects now id w v
      → Effects now id w (if b then u else v)
  Effects-if true p q = p
  Effects-if false p q = q

-- The rule of induction: a reflexive and transitive relation.
pub Effects-induction {ℓ} :
    {now : ℕ} {id : String} (R : World → World → Type ℓ)
    → ((w : World) → R w w)
    → ((w u v : World) → R w u → Effect now id u v → R w v)
    → {w v : World} → Effects now id w v
    → R w v
Effects-induction R base step {w = w} done = base w
Effects-induction R base step (also p e) = step _ _ _ (Effects-induction R base step p) e
