-- ===== src/Text/Splitting.antt =====
-- `str.split` on the topic separator: it cuts a text into pieces that give the text back, and cuts
-- behind a piece that has no separator.
use sensor_server.Prelude.{
  ℕ, String, Char, code, ◌≡◌, ◌≢◌, refl, sym, ◌∙◌, ap, Char-path, false, List, [], ◌∷◌, arith, eqb,
  eqb→eq, if_cases, All,
}
use sensor_server.Text.{concat, split, push_char}

-- "/".join(pieces)
abbrev pub join : List String → String
join [] = ""
join (p ∷ []) = p
join (p ∷ q ∷ ps) = concat p (concat "/" (join (q ∷ ps)))

abbrev IsCons : List String → Type 0
IsCons [] = ⊥
IsCons (p ∷ ps) = Unit

push_char-IsCons : (c : Char) (ps : List String) → IsCons (push_char c ps)
push_char-IsCons c [] = tt
push_char-IsCons c (p ∷ ps) = tt

split-IsCons : (s : String) → IsCons (split b'/' s)
unfolding split
split-IsCons String.[] = tt
split-IsCons (String.◌∷◌ c s) =
    if_cases IsCons (eqb (code c) b'/') (λ _. tt) (λ _. push_char-IsCons c (split b'/' s))

join-push_char : (c : Char) (ps : List String) → join (push_char c ps) ≡ String.◌∷◌ c (join ps)
unfolding concat
join-push_char c [] = refl
join-push_char c (p ∷ []) = refl
join-push_char c (p ∷ q ∷ ps) = refl

join-empty : (ps : List String) → IsCons ps → join ("" ∷ ps) ≡ concat "/" (join ps)
unfolding concat
join-empty [] h = absurd h
join-empty (p ∷ ps) h = refl

pub join-split : (s : String) → join (split b'/' s) ≡ s
unfolding split concat
join-split String.[] = refl
join-split (String.◌∷◌ c s) =
    if_cases (λ ps. join ps ≡ String.◌∷◌ c s) (eqb (code c) b'/')
      (λ e.
        join-empty (split b'/' s) (split-IsCons s)
        ∙ ap (λ t. concat "/" t) (join-split s)
        ∙ ap (λ d. String.◌∷◌ d s) (sym (Char-path c "/" (eqb→eq (code c) b'/' e))))
      (λ _. join-push_char c (split b'/' s) ∙ ap (λ t. String.◌∷◌ c t) (join-split s))

-- The text has no separator.
abbrev pub OnePiece : String → Type 0
OnePiece String.[] = Unit
OnePiece (String.◌∷◌ c s) = (code c ≢ b'/') × OnePiece s

push_char-AllOnePiece :
    (c : Char) (ps : List String)
    → eqb (code c) b'/' ≡ false
    → All OnePiece ps
    → All OnePiece (push_char c ps)
push_char-AllOnePiece c [] h k = ((λ e. ground (arith, h), tt), tt)
push_char-AllOnePiece c (p ∷ ps) h k = ((λ e. ground (arith, h), k.0), k.1)

-- No piece has a separator.
pub split-AllOnePiece : (s : String) → All OnePiece (split b'/' s)
unfolding split
split-AllOnePiece String.[] = (tt, tt)
split-AllOnePiece (String.◌∷◌ c s) =
    if_cases (λ ps. All OnePiece ps) (eqb (code c) b'/') (λ _. (tt, split-AllOnePiece s))
      (λ h. push_char-AllOnePiece c (split b'/' s) h (split-AllOnePiece s))

eqb-false : (a b : ℕ) → a ≢ b → eqb a b ≡ false
eqb-false a b h = ground arith

pub split-OnePiece : (p : String) → OnePiece p → split b'/' p ≡ p ∷ []
unfolding split
split-OnePiece String.[] h = refl
split-OnePiece (String.◌∷◌ c p) h = rw (eqb-false (code c) b'/' h.0, split-OnePiece p h.1) refl

pub split-concat :
    (p s : String) → OnePiece p → split b'/' (concat p (concat "/" s)) ≡ p ∷ split b'/' s
unfolding split concat
split-concat String.[] s h = refl
split-concat (String.◌∷◌ c p) s h = rw (eqb-false (code c) b'/' h.0, split-concat p s h.1) refl
