-- ===== src/Api/Paging.antt =====
-- What `cut_page` and `key_le` of Api/Page.antt do with any rows.
use sensor_server.Prelude.{
  ℕ, zero, suc, ◌≤◌, String, ◌≡◌, refl, ap, Bool, true, false, List, [], ◌∷◌, arith, ltb, eq_iff,
  length, take,
}
use sensor_server.Api.Page.{cut_page, key_le}

module _ {ℓ} {A : Type ℓ} where
  take-take : (n : ℕ) (xs : List A) → take n (take (suc n) xs) ≡ take n xs
  take-take zero [] = refl
  take-take zero (x ∷ xs) = refl
  take-take (suc n) [] = refl
  take-take (suc n) (x ∷ xs) = ap (λ ys. x ∷ ys) (take-take n xs)

  ltb-length-take : (n : ℕ) (xs : List A) → ltb n (length (take (suc n) xs)) ≡ ltb n (length xs)
  ltb-length-take zero [] = refl
  ltb-length-take zero (x ∷ xs) = ground arith
  ltb-length-take (suc n) [] = refl
  ltb-length-take (suc n) (x ∷ xs) = ground (arith, ltb-length-take n xs)

  -- Fetching one row more shows whether there are more, and the page is the front of all rows.
  pub cut_page_lem :
      (limit : ℕ) (xs : List A) → cut_page limit xs ≡ (take limit xs, ltb limit (length xs))
  unfolding cut_page
  cut_page_lem limit xs = ground (arith, take-take limit xs, ltb-length-take limit xs)

  pub length-take_le : (n : ℕ) (xs : List A) → length (take n xs) ≤ n
  length-take_le zero xs = omega arith
  length-take_le (suc n) [] = omega arith
  length-take_le (suc n) (x ∷ xs) = omega (arith, length-take_le n xs)

-- The order of the keys compares any two, if the collation does.
pub key_le-total :
    (text_le : String → String → Bool)
    → ((s t : String) → text_le s t ≡ false → text_le t s ≡ true)
    → (a b : ℕ × String × String) → key_le text_le a b ≡ false
    → key_le text_le b a ≡ true
unfolding key_le
key_le-total text_le total (t, d, m) (u, e, n) h =
    ground (arith, total d e, total m n, eq_iff d e, eq_iff e d)
