-- ===== src/World/Order.antt =====
-- ORDER BY: rows sorted by a test of two rows. Rows that the test does not separate keep the order
-- of the table, where the database leaves it open.
use mathlib.Core.List.{Perm}
use mathlib.Core.List.Perm
use sensor_server.Prelude.{◌≡◌, All, Bool, true, false, List, [], ◌∷◌, if_cases, if◌then◌else◌}

module _ {ℓ} {A : Type ℓ} where
  unfoldable pub insert_by : (A → A → Bool) → A → List A → List A
  insert_by le x [] = x ∷ []
  insert_by le x (y ∷ ys) = let rest = insert_by le x ys in if le x y then x ∷ y ∷ ys else y ∷ rest

  -- ORDER BY
  unfoldable pub order_by : (A → A → Bool) → List A → List A
  unfolding insert_by
  order_by le [] = []
  order_by le (x ∷ xs) = insert_by le x (order_by le xs)

module _ {ℓ} {A : Type ℓ} (le : A → A → Bool) where
  -- Each row and the next one are in order.
  abbrev pub IsSorted : List A → Type 0
  IsSorted [] = Unit
  IsSorted (x ∷ []) = Unit
  IsSorted (x ∷ y ∷ ys) = (le x y ≡ true) × IsSorted (y ∷ ys)

  pub insert_by-Perm : (x : A) (xs : List A) → Perm (insert_by le x xs) (x ∷ xs)
  unfolding insert_by
  insert_by-Perm x [] = Perm.rfl
  insert_by-Perm x (y ∷ ys) =
      if_cases (λ (l : List A). Perm l (x ∷ y ∷ ys)) (le x y) (λ _. Perm.rfl)
        (λ _. Perm.trans (Perm.cons y (insert_by-Perm x ys)) (Perm.swap x y ys))

  pub order_by-Perm : (xs : List A) → Perm (order_by le xs) xs
  unfolding order_by
  order_by-Perm [] = Perm.rfl
  order_by-Perm (x ∷ xs) =
      Perm.trans (insert_by-Perm x (order_by le xs)) (Perm.cons x (order_by-Perm xs))

  pub tail-IsSorted : (y : A) (ys : List A) → IsSorted (y ∷ ys) → IsSorted ys
  tail-IsSorted y [] s = tt
  tail-IsSorted y (z ∷ zs) s = s.1

  module _ (total : (x y : A) → le x y ≡ false → le y x ≡ true) where
    -- `y` in front of an insertion behind it.
    insert_behind :
        (x y : A) (ys : List A)
        → le y x ≡ true
        → IsSorted (y ∷ ys)
        → IsSorted (insert_by le x ys)
        → IsSorted (y ∷ insert_by le x ys)
    unfolding insert_by
    insert_behind x y [] h s t = (h, tt)
    insert_behind x y (z ∷ zs) h s t = front (le x z) t
      where
        front :
            (b : Bool)
            → IsSorted (if b then x ∷ z ∷ zs else z ∷ insert_by le x zs)
            → IsSorted (y ∷ (if b then x ∷ z ∷ zs else z ∷ insert_by le x zs))
        front true k = (h, k)
        front false k = (s.0, k)

    insert_by-IsSorted : (x : A) (xs : List A) → IsSorted xs → IsSorted (insert_by le x xs)
    unfolding insert_by
    insert_by-IsSorted x [] s = tt
    insert_by-IsSorted x (y ∷ ys) s =
        if_cases (λ (l : List A). IsSorted l) (le x y) (λ e. (e, s))
          (λ e.
            insert_behind x y ys (total x y e) s (insert_by-IsSorted x ys (tail-IsSorted y ys s)))

    pub order_by-IsSorted : (xs : List A) → IsSorted (order_by le xs)
    unfolding order_by
    order_by-IsSorted [] = tt
    order_by-IsSorted (x ∷ xs) = insert_by-IsSorted x (order_by le xs) (order_by-IsSorted xs)

module _ {ℓ κ} {A : Type ℓ} (P : A → Type κ) (le : A → A → Bool) where
  All-insert_by : (x : A) (xs : List A) → P x → All P xs → All P (insert_by le x xs)
  unfolding insert_by
  All-insert_by x [] p h = (p, tt)
  All-insert_by x (y ∷ ys) p h =
      if_cases (λ (l : List A). All P l) (le x y) (λ _. (p, h))
        (λ _. (h.0, All-insert_by x ys p h.1))

  pub All-order_by : (xs : List A) → All P xs → All P (order_by le xs)
  unfolding order_by
  All-order_by [] h = h
  All-order_by (x ∷ xs) h = All-insert_by x (order_by le xs) h.0 (All-order_by xs h.1)
