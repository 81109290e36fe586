-- ===== src/Mqtt/Diag/Snapshot.antt =====
-- What a stored diagnostics snapshot satisfies.
use sensor_server.Prelude.{ℕ, ◌≤◌, String, ℤ, pos, negsuc, ◌≡◌, refl, Option, none, some, arith}
use sensor_server.Value.{Json, Dict, get_or, truncate}
use sensor_server.Store.{DiagLevel}
use sensor_server.World.{DiagLog}
use sensor_server.Mqtt.Diag.{◌>>=◌, bounded, diag_uint, rssi_of, uint_max, diag_message, snapshot}

abbrev pub Within : ℕ → Option ℕ → Type 0
Within bound none = Unit
Within bound (some n) = n ≤ bound

-- `P` holds of the value, if there is one.
abbrev pub Holds : {A : Type 0} → (A → Type 0) → Option A → Type 0
Holds P none = Unit
Holds P (some a) = P a

-- The same, shut, so that a goal shows the binds that it is about.
Ensures : {A : Type 0} → (A → Type 0) → Option A → Type 0
Ensures P o = Holds P o

Ensures-bind :
    {A B : Type 0} (P : A → Type 0) (Q : B → Type 0) (m : Option A) (f : A → Option B)
    → Holds P m
    → ((a : A) → P a → Ensures Q (f a))
    → Ensures Q (m >>= f)
unfolding Ensures ◌>>=◌
Ensures-bind P Q none f h k = tt
Ensures-bind P Q (some a) f h k = k a h

Ensures-some : {A : Type 0} (Q : A → Type 0) (a : A) → Q a → Ensures Q (some a)
unfolding Ensures
Ensures-some Q a h = h

bounded-Within : (n : ℤ) (maximum : ℕ) → Within maximum (bounded n maximum)
unfolding bounded
bounded-Within (pos n) maximum = ground arith
bounded-Within (negsuc n) maximum = tt

diag_uint-Within : (v : Json) (maximum : ℕ) → Holds (Within maximum) (diag_uint v maximum)
unfolding diag_uint ◌>>=◌
diag_uint-Within (Json.int n) maximum = bounded-Within n maximum
diag_uint-Within (Json.float x) maximum = float_Within (truncate x)
  where
    float_Within : (o : Option ℤ) → Holds (Within maximum) (o >>= λ n. some (bounded n maximum))
    float_Within none = tt
    float_Within (some n) = bounded-Within n maximum
diag_uint-Within _ maximum = tt

-- A snapshot of the device at the time of the message, its counters in the ranges of their columns.
pub record IsSnapshot (now : ℕ) (device : String) (level : DiagLevel) (message : String)
    (s : DiagLog) : Type 0 where
  pub at_time : s.time ≡ now
  pub of_device : s.device ≡ device
  pub same_level : s.level ≡ level
  pub same_message : s.message ≡ message
  pub reset_cause_fits : Within 255 s.reset_cause
  pub boot_fits : Within uint_max s.boot
  pub miss_fits : Within uint_max s.miss
  pub wake_ms_fits : Within uint_max s.wake_ms
  pub seq_fits : Within uint_max s.seq
  pub pubfail_fits : Within uint_max s.pubfail
  pub heap_fits : Within uint_max s.heap
  pub battery_fits : Within 100 s.battery_percent
  pub txsent_fits : Within uint_max s.txsent
  pub txok_fits : Within uint_max s.txok

rssi_of-Holds : (o : Option (Option ℤ)) → Holds (λ _. Unit {0}) o
rssi_of-Holds none = tt
rssi_of-Holds (some x) = tt

snapshot-Ensures :
    (now : ℕ) (device : String) (level : DiagLevel) (fields : Dict Json)
    → Ensures
        (IsSnapshot now device level (diag_message (get_or "message" (Json.str "") fields)))
        (snapshot now device level fields)
unfolding snapshot
snapshot-Ensures now device level fields =
    Ensures-bind (λ _. Unit {0}) _ _ _ (rssi_of-Holds (rssi_of (get_or "rssi" Json.null fields)))
      λ _ _.
        Ensures-bind (Within 255) _ _ _ (diag_uint-Within (get_or "rst" Json.null fields) 255)
          λ _ h_reset_cause.
            Ensures-bind (Within uint_max) _ _ _
              (diag_uint-Within (get_or "boot" Json.null fields) uint_max)
              λ _ h_boot.
                Ensures-bind (Within uint_max) _ _ _
                  (diag_uint-Within (get_or "miss" Json.null fields) uint_max)
                  λ _ h_miss.
                    Ensures-bind (Within uint_max) _ _ _
                      (diag_uint-Within (get_or "wake_ms" Json.null fields) uint_max)
                      λ _ h_wake_ms.
                        Ensures-bind (Within uint_max) _ _ _
                          (diag_uint-Within (get_or "seq" Json.null fields) uint_max)
                          λ _ h_seq.
                            Ensures-bind (Within uint_max) _ _ _
                              (diag_uint-Within (get_or "pubfail" Json.null fields) uint_max)
                              λ _ h_pubfail.
                                Ensures-bind (Within uint_max) _ _ _
                                  (diag_uint-Within (get_or "heap" Json.null fields) uint_max)
                                  λ _ h_heap.
                                    Ensures-bind (Within 100) _ _ _
                                      (diag_uint-Within (get_or "bat" Json.null fields) 100)
                                      λ _ h_battery.
                                        Ensures-bind (Within uint_max) _ _ _
                                          (diag_uint-Within (get_or "txsent" Json.null fields)
                                            uint_max)
                                          λ _ h_txsent.
                                            Ensures-bind (Within uint_max) _ _ _
                                              (diag_uint-Within (get_or "txok" Json.null fields)
                                                uint_max)
                                              λ _ h_txok. Ensures-some _ _ (record {
                                                at_time = refl;
                                                of_device = refl;
                                                same_level = refl;
                                                same_message = refl;
                                                reset_cause_fits = h_reset_cause;
                                                boot_fits = h_boot;
                                                miss_fits = h_miss;
                                                wake_ms_fits = h_wake_ms;
                                                seq_fits = h_seq;
                                                pubfail_fits = h_pubfail;
                                                heap_fits = h_heap;
                                                battery_fits = h_battery;
                                                txsent_fits = h_txsent;
                                                txok_fits = h_txok;
                                              })

-- A snapshot that can be read has the time of the message, the device, the level and the message as
-- given; its reset cause is at most 255, its battery percentage at most 100, and its other counters
-- are in the range of their columns.
pub snapshot-IsSnapshot :
    (now : ℕ) (device : String) (level : DiagLevel) (fields : Dict Json)
    → Holds
        (IsSnapshot now device level (diag_message (get_or "message" (Json.str "") fields)))
        (snapshot now device level fields)
unfolding Ensures snapshot
snapshot-IsSnapshot now device level fields = snapshot-Ensures now device level fields
