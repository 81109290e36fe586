-- ===== src/Devices/Cycle.antt =====
-- Going forth and back among the devices of Devices/Neighbours.antt.
use sensor_server.Prelude.{
  ℕ, zero, suc, ◌+◌, ◌-◌, ◌%◌, ◌<◌, String, ◌≡◌, refl, sym, ◌∙◌, ap, subst, ◌⊎◌, inl, inr, Bool,
  false, Option, none, some, List, [], ◌∷◌, All, arith, length, eqb, ◌==◌, eq_iff, eq_refl,
  Option-cases, Bool-cases, if◌then◌else◌,
}
use native.Mathlib.Nat.{mod_self, mod-lt, mod-eq_of_lt}
use sensor_server.Store.{Device}
use sensor_server.Devices.Neighbours.{index_of, nth, before, around, approved_ids, prev_next_device}

-- No text comes twice.
abbrev pub Unique : List String → Type 0
Unique [] = Unit
Unique (x ∷ xs) = All (λ y. (x == y) ≡ false) xs × Unique xs

index_of-bound :
    (id : String) (xs : List String) (i : ℕ)
    → index_of id xs ≡ some i
    → (i < length xs) × (nth i xs ≡ id)
unfolding index_of
index_of-bound id [] i h = cc
index_of-bound id (x ∷ xs) zero h = ground (arith, eq_iff x id, Option-cases (index_of id xs))
index_of-bound id (x ∷ xs) (suc i) h =
    ground (arith, index_of-bound id xs i, Option-cases (index_of id xs))

All-nth :
    (x : String) (xs : List String) (i : ℕ)
    → All (λ y. (x == y) ≡ false) xs
    → i < length xs
    → (x == nth i xs) ≡ false
All-nth x [] i u h = ground arith
All-nth x (y ∷ ys) zero u h = u.0
All-nth x (y ∷ ys) (suc i) u h = All-nth x ys i u.1 (omega (arith, h))

index_of-nth :
    (xs : List String) (i : ℕ) → Unique xs → i < length xs → index_of (nth i xs) xs ≡ some i
unfolding index_of
index_of-nth [] i u h = ground arith
index_of-nth (x ∷ xs) zero u h = ground (arith, eq_refl x)
index_of-nth (x ∷ xs) (suc i) u h =
    ground (arith, All-nth x xs i u.0 (omega (arith, h)), index_of-nth xs i u.1 (omega (arith, h)))

next_index :
    (i n : ℕ) → i < n → (((i + 1) % n ≡ suc i) × (suc i < n)) ⊎ (((i + 1) % n ≡ 0) × (suc i ≡ n))
next_index i n h = elim (Bool-cases (eqb (suc i) n)) [
  | inl e ↦
      let last : suc i ≡ n = ground (arith, e) in
      inr (
        ap (λ k. (i + 1) % k) (sym last) ∙ ap (λ k. k % suc i) (omega arith) ∙ mod_self (suc i),
        last,
      )
  | inr e ↦
      let more : suc i < n = ground (arith, e, h) in
      inl (ap (λ k. k % n) (omega arith) ∙ mod-eq_of_lt more, more)
]

-- Where the circle goes on from the neighbours of the place `i`.
next-before :
    (ids : List String) (i : ℕ) → i < length ids → before ((i + 1) % length ids) ids ≡ nth i ids
next-before ids i h = elim (next_index i (length ids) h) [
  | inl (e, b) ↦ ap (λ k. before k ids) e
  | inr (e, b) ↦ ap (λ k. before k ids) e ∙ ap (λ k. nth k ids) (omega (arith, b))
]

before-next :
    (ids : List String) (i : ℕ)
    → Unique ids
    → i < length ids
    → (k : ℕ) × (k < length ids)
      × (nth k ids ≡ before i ids)
      × (nth ((k + 1) % length ids) ids ≡ nth i ids)
before-next ids zero u h =
    let last : length ids - 1 + 1 ≡ length ids = omega (arith, h) in
    (
      length ids - 1,
      omega (arith, h),
      refl,
      ap (λ k. nth k ids) (ap (λ k. k % length ids) last ∙ mod_self (length ids)),
    )
before-next ids (suc i) u h = (
  i,
  omega (arith, h),
  refl,
  ap (λ k. nth k ids) (ap (λ k. k % length ids) (omega arith) ∙ mod-eq_of_lt h),
)

-- The neighbours of `id` are the ids one place before and one place behind it, around the ends, and
-- they lead back to it.
abbrev pub LeadsBack : List String → String → Option (String × String) → Type 0
LeadsBack ids id none = index_of id ids ≡ none
LeadsBack ids id (some (previous, next)) =
    ((i : ℕ) × (i < length ids)
      × (nth i ids ≡ id)
      × (next ≡ (if eqb (suc i) (length ids) then nth 0 ids else nth (suc i) ids))
      × (previous ≡ (if eqb i 0 then nth (length ids - 1) ids else nth (i - 1) ids)))
    × ((q : String) × (around ids (index_of next ids) ≡ some (id, q)))
    × ((q : String) × (around ids (index_of previous ids) ≡ some (q, id)))

next-nth :
    (ids : List String) (i : ℕ)
    → i < length ids
    → nth ((i + 1) % length ids) ids
      ≡ (if eqb (suc i) (length ids) then nth 0 ids else nth (suc i) ids)
next-nth ids i h = elim (next_index i (length ids) h) [
  | inl (e, b) ↦ ap (λ k. nth k ids) e ∙ ground (arith, b)
  | inr (e, b) ↦ ap (λ k. nth k ids) e ∙ ground (arith, b)
]

before-nth :
    (ids : List String) (i : ℕ)
    → before i ids ≡ (if eqb i 0 then nth (length ids - 1) ids else nth (i - 1) ids)
before-nth ids zero = refl
before-nth ids (suc i) = ground arith

around-LeadsBack :
    (ids : List String) (i : ℕ)
    → Unique ids
    → i < length ids
    → LeadsBack ids (nth i ids) (around ids (some i))
around-LeadsBack ids i u h =
    let n = length ids in
    let k = (i + 1) % n in
    let (j, j_bound, j_at, j_next) = before-next ids i u h in
    (
      (i, h, refl, next-nth ids i h, before-nth ids i),
      (
        nth ((k + 1) % n) ids,
        ap (λ o. around ids o) (index_of-nth ids k u (mod-lt (i + 1) (omega (arith, h))))
            ∙ ap (λ x. some (x, nth ((k + 1) % n) ids)) (next-before ids i h),
      ),
      (
        before j ids,
        ap (λ x. around ids (index_of x ids)) (sym j_at)
            ∙ ap (λ o. around ids o) (index_of-nth ids j u j_bound)
            ∙ ap (λ x. some (before j ids, x)) j_next,
      ),
    )

index-LeadsBack :
    (ids : List String) (id : String) (o : Option ℕ)
    → Unique ids
    → index_of id ids ≡ o
    → LeadsBack ids id (around ids o)
index-LeadsBack ids id none u h = h
index-LeadsBack ids id (some i) u h =
    let found = index_of-bound id ids i h in
    subst (λ x. LeadsBack ids x (around ids (some i))) found.1 (around-LeadsBack ids i u found.0)

-- If the ids of the approved devices are distinct, then the links of a device's page go to the ids one
-- place behind and one place before its own in their order, with the first behind the last, and lead in
-- a circle: the device before the next one, and the device behind the previous one, is the device
-- itself; only a device that is not among them has no links.
pub prev_next_device-LeadsBack :
    (text_le : String → String → Bool) (devices : List Device) (id : String)
    → Unique (approved_ids text_le devices)
    → LeadsBack (approved_ids text_le devices) id (prev_next_device text_le devices id)
unfolding prev_next_device
prev_next_device-LeadsBack text_le devices id u =
    index-LeadsBack (approved_ids text_le devices) id _ u refl
