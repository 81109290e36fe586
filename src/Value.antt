-- ===== src/Value.antt =====
-- Python values that come from JSON: numbers, and the tree that `json.loads` returns.
-- A finite float is the exact decimal n / 10 ^ k. The rounding of binary doubles is not modelled.
use sensor_server.Prelude.{
  ℕ, ◌+◌, ◌-◌, ◌*◌, ◌/◌, ◌%◌, ◌^◌, String, ℤ, pos, abs, with_sign_of, scale, leb_ℤ, ltb_ℤ, eqb_ℤ,
  Bool, true, false, not, ◌&&◌, Option, none, some, List, [], ◌∷◌, leb, ltb, eqb, ◌==◌,
  if◌then◌else◌,
}
use sensor_server.Text.{is_empty}

pub data Float : Type 0 where
  finite : ℤ → ℕ → Float
  pos_inf neg_inf nan : Float

-- x <= c, for an integer c; Python compares exactly
unfoldable pub float_le : Float → ℕ → Bool
float_le (finite n k) c = leb_ℤ n (pos (c * 10 ^ k))
float_le pos_inf c = false
float_le neg_inf c = true
float_le nan c = false

-- c < x
unfoldable pub float_gt : Float → ℕ → Bool
float_gt (finite n k) c = ltb_ℤ (pos (c * 10 ^ k)) n
float_gt pos_inf c = true
float_gt neg_inf c = false
float_gt nan c = false

-- x == y
unfoldable pub float_eq : Float → Float → Bool
unfolding scale
float_eq (finite n k) (finite m j) = eqb_ℤ (scale n (10 ^ j)) (scale m (10 ^ k))
float_eq pos_inf pos_inf = true
float_eq neg_inf neg_inf = true
float_eq _ _ = false

-- int(x): towards zero. `none` is the OverflowError of an infinity or the ValueError of a nan.
unfoldable pub truncate : Float → Option ℤ
unfolding with_sign_of
truncate (finite n k) = some (with_sign_of n (abs n / 10 ^ k))
truncate _ = none

-- m / d to the nearest integer, ties to even
unfoldable pub div_round : ℕ → ℕ → ℕ
div_round m d =
    if ltb (2 * (m % d)) d
    then m / d
    else if ltb d (2 * (m % d))
    then m / d + 1
    else if eqb ((m / d) % 2) 0
    then m / d
    else m / d + 1

-- round(x, p)
unfoldable pub round : Float → ℕ → Float
unfolding div_round with_sign_of
round (finite n k) p =
    if leb k p then finite n k else finite (with_sign_of n (div_round (abs n) (10 ^ (k - p)))) p
round x p = x

-- The least magnitude that float() refuses for an integer.
unfoldable pub float_limit : ℕ
float_limit = 2 ^ 1024 - 2 ^ 970

-- float(n) of an integer; `none` is its OverflowError
unfoldable pub float_of_int : ℤ → Option Float
float_of_int n = if ltb (abs n) float_limit then some (finite n 0) else none

mutual
  pub data Json : Type 0 where
    null : Json
    bool : Bool → Json
    int : ℤ → Json
    float : Float → Json
    str : String → Json
    list : Items → Json
    dict : Fields → Json

  pub data Items : Type 0 where
    nil : Items
    cons : Json → Items → Items

  pub data Fields : Type 0 where
    end : Fields
    field : String → Json → Fields → Fields

-- A dictionary in its order of insertion.
abbrev pub Dict : Type 0 → Type 0
Dict A = List (String × A)

unfoldable pub entries : Fields → Dict Json
entries end = []
entries (field k v fs) = (k, v) ∷ entries fs

unfoldable pub elements : Items → List Json
elements nil = []
elements (cons v vs) = v ∷ elements vs

module _ {ℓ} {A : Type ℓ} where
  -- d.get(k)
  unfoldable pub get : String → List (String × A) → Option A
  get k [] = none
  get k ((j, v) ∷ d) = if j == k then some v else get k d

  -- d[k] = v
  unfoldable pub put : String → A → List (String × A) → List (String × A)
  put k v [] = (k, v) ∷ []
  put k v ((j, w) ∷ d) = if j == k then (j, v) ∷ d else (j, w) ∷ put k v d

-- d.get(k, default)
unfoldable pub get_or : String → Json → Dict Json → Json
unfolding get
get_or k v d = elim (get k d) [ none ↦ v | some x ↦ x ]

-- bool(v)
unfoldable pub truthy : Json → Bool
unfolding float_eq
truthy null = false
truthy (bool b) = b
truthy (int n) = not (eqb_ℤ n (pos 0))
truthy (float x) = not (float_eq x (finite (pos 0) 0))
truthy (str s) = not (is_empty s)
truthy (list nil) = false
truthy (list (cons _ _)) = true
truthy (dict end) = false
truthy (dict (field _ _ _)) = true

-- v == "..."
unfoldable pub is_text : Json → String → Bool
is_text (str s) t = s == t
is_text _ t = false

-- isinstance(v, (int, float)) and not isinstance(v, bool)
unfoldable pub is_number : Json → Bool
is_number (int n) = true
is_number (float x) = true
is_number _ = false

-- `==` on JSON values, as a JSON column compares them (the order of keys apart).
unfoldable mutual
  unfolding float_eq

  pub json_eq : Json → Json → Bool
  json_eq null null = true
  json_eq (bool true) (bool true) = true
  json_eq (bool false) (bool false) = true
  json_eq (int n) (int m) = eqb_ℤ n m
  json_eq (float x) (float y) = float_eq x y
  json_eq (int n) (float y) = float_eq (finite n 0) y
  json_eq (float x) (int m) = float_eq x (finite m 0)
  json_eq (str s) (str t) = s == t
  json_eq (list xs) (list ys) = items_eq xs ys
  json_eq (dict fs) (dict gs) = fields_eq fs gs
  json_eq _ _ = false

  items_eq : Items → Items → Bool
  items_eq nil nil = true
  items_eq (cons x xs) (cons y ys) = json_eq x y && items_eq xs ys
  items_eq _ _ = false

  fields_eq : Fields → Fields → Bool
  fields_eq end end = true
  fields_eq (field k x fs) (field j y gs) = (k == j) && json_eq x y && fields_eq fs gs
  fields_eq _ _ = false

-- What `float(value)` does.
pub data Converted : Type 0 where
  converted : Float → Converted
  -- ValueError or TypeError
  not_numeric : Converted
  -- OverflowError
  too_big : Converted

abbrev pub converted_or : Option Float → Converted → Converted
converted_or (some x) c = converted x
converted_or none c = c

-- What the standard library's parsers do: `json.loads` on bytes, and `float` on a string.
pub data Loaded : Type 0 where
  loaded : Json → Loaded
  -- JSONDecodeError or UnicodeDecodeError
  malformed : Loaded
  -- RecursionError
  too_deep : Loaded

pub record Python : Type 0 where
  pub loads : List ℕ → Loaded
  pub parse_float : String → Option Float

-- float(value)
unfoldable pub to_float : Python → Json → Converted
unfolding float_of_int
to_float py (bool b) = converted (finite (pos (if b then 1 else 0)) 0)
to_float py (int n) = converted_or (float_of_int n) too_big
to_float py (float x) = converted x
to_float py (str s) = converted_or (py.parse_float s) not_numeric
to_float py _ = not_numeric
