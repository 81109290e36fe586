-- ===== src/World/Tables.antt =====
-- Laws of the tables of World.antt: rows found by their keys, and changed by a test.
use sensor_server.Prelude.{
  String, ◌≡◌, ◌≢◌, refl, Bool, true, false, none, some, List, [], ◌∷◌, ◌++◌, arith, eq_iff, select,
  map, ap, if◌then◌else◌,
}
use sensor_server.Store.{Device}
use sensor_server.World.{find_device, update_device, update_where}

pub find_device-device_id :
    (id : String) (ds : List Device) (d : Device) → find_device id ds ≡ some d → d.device_id ≡ id
unfolding find_device
find_device-device_id id [] d h = cc
find_device-device_id id (e ∷ ds) d h =
    ground (arith, eq_iff e.device_id id, find_device-device_id id ds d)

module _ (id : String) (f : Device → Device)
    (keeps : (d : Device) → (f d).device_id ≡ d.device_id) where
  pub find_device-update_self :
      (ds : List Device) (d : Device)
      → find_device id ds ≡ some d
      → find_device id (update_device id f ds) ≡ some (f d)
  unfolding find_device update_device
  find_device-update_self [] d h = cc
  find_device-update_self (e ∷ ds) d h = ground (arith, keeps e, find_device-update_self ds d)

  pub find_device-update_ne :
      (j : String) (ds : List Device)
      → j ≢ id
      → find_device j (update_device id f ds) ≡ find_device j ds
  unfolding find_device update_device
  find_device-update_ne j [] ne = refl
  find_device-update_ne j (e ∷ ds) ne =
      ground
        (arith, keeps e, eq_iff e.device_id id, eq_iff e.device_id j, find_device-update_ne j ds ne)

pub find_device-append_self :
    (id : String) (ds : List Device) (d : Device)
    → find_device id ds ≡ none
    → d.device_id ≡ id
    → find_device id (ds ++ d ∷ []) ≡ some d
unfolding find_device
find_device-append_self id [] d h e = ground (arith, eq_iff d.device_id id)
find_device-append_self id (x ∷ ds) d h e = ground (arith, find_device-append_self id ds d)

pub find_device-append_ne :
    (j : String) (ds : List Device) (d : Device)
    → j ≢ d.device_id
    → find_device j (ds ++ d ∷ []) ≡ find_device j ds
unfolding find_device
find_device-append_ne j [] d ne = ground (arith, eq_iff d.device_id j)
find_device-append_ne j (x ∷ ds) d ne = ground (arith, find_device-append_ne j ds d ne)

module _ {ℓ} {A : Type ℓ} (p : A → Bool) where
  pub select-append : (xs ys : List A) → select p (xs ++ ys) ≡ select p xs ++ select p ys
  unfolding select
  select-append [] ys = refl
  select-append (x ∷ xs) ys = ground (arith, select-append xs ys)

  -- What the selection skips may change, if it stays skipped.
  pub select-update_where :
      (test : A → Bool) (change : A → A)
      → ((x : A) → test x ≡ true → (p x ≡ false) × (p (change x) ≡ false))
      → (xs : List A) → select p (update_where test change xs) ≡ select p xs
  unfolding select update_where
  select-update_where test change apart [] = refl
  select-update_where test change apart (x ∷ xs) =
      ground (arith, apart x, select-update_where test change apart xs)

-- A change of the rows that a test selects, row by row.
pub update_where-map :
    {A : Type 0} (test : A → Bool) (change : A → A) (xs : List A)
    → update_where test change xs ≡ map (λ x. if test x then change x else x) xs
unfolding update_where
update_where-map test change [] = refl
update_where-map test change (x ∷ xs) =
    ap (λ l. (if test x then change x else x) ∷ l) (update_where-map test change xs)

-- A selection skips what another one of it removes.
pub select-select_skipped {ℓ} :
    {A : Type ℓ} (p q : A → Bool)
    → ((x : A) → p x ≡ true → q x ≡ true)
    → (xs : List A) → select p (select q xs) ≡ select p xs
unfolding select
select-select_skipped p q h [] = refl
select-select_skipped p q h (x ∷ xs) = ground (arith, h x, select-select_skipped p q h xs)
