-- ===== src/Text.antt =====
-- Python's `str` operations and the regular expressions that the program uses.
-- `re.match` with a pattern `^...$` also accepts one line feed behind the match, since `$` does.
pub mod Splitting
use sensor_server.Prelude.{
  ℕ, zero, suc, String, Char, code, Bool, true, false, ◌&&◌, ◌||◌, List, [], ◌∷◌, leb, ltb, eqb,
  if◌then◌else◌,
}

-- len(s)
abbrev pub len : String → ℕ
len String.[] = 0
len (String.◌∷◌ c s) = suc (len s)

-- s[:n]
unfoldable pub prefix : ℕ → String → String
prefix zero s = ""
prefix (suc n) String.[] = ""
prefix (suc n) (String.◌∷◌ c s) = String.◌∷◌ c (prefix n s)

-- s[n:]
unfoldable pub suffix : ℕ → String → String
suffix zero s = s
suffix (suc n) String.[] = ""
suffix (suc n) (String.◌∷◌ c s) = suffix n s

-- a + b
unfoldable pub concat : String → String → String
concat String.[] b = b
concat (String.◌∷◌ c a) b = String.◌∷◌ c (concat a b)

abbrev pub is_empty : String → Bool
is_empty String.[] = true
is_empty (String.◌∷◌ c s) = false

-- Is every character in the class?
unfoldable pub all_chars : (ℕ → Bool) → String → Bool
all_chars p String.[] = true
all_chars p (String.◌∷◌ c s) = p (code c) && all_chars p s

-- s.startswith(p)
unfoldable pub starts_with : String → String → Bool
starts_with s String.[] = true
starts_with String.[] (String.◌∷◌ d p) = false
starts_with (String.◌∷◌ c s) (String.◌∷◌ d p) = eqb (code c) (code d) && starts_with s p

-- One more character in front of the first piece.
abbrev pub push_char : Char → List String → List String
push_char c [] = (String.◌∷◌ c "") ∷ []
push_char c (p ∷ ps) = (String.◌∷◌ c p) ∷ ps

-- s.split(sep), for a separator of one character
unfoldable pub split : ℕ → String → List String
split sep String.[] = "" ∷ []
split sep (String.◌∷◌ c s) =
    let rest = split sep s in if eqb (code c) sep then "" ∷ rest else push_char c rest

-- `[class]*$`
unfoldable pub match_star : (ℕ → Bool) → String → Bool
match_star p String.[] = true
match_star p (String.◌∷◌ c s) =
    let rest = match_star p s in if p (code c) then rest else eqb (code c) 10 && is_empty s

-- `^[class]+$`
unfoldable pub match_plus : (ℕ → Bool) → String → Bool
unfolding match_star
match_plus p String.[] = false
match_plus p (String.◌∷◌ c s) = p (code c) && match_star p s

-- `^[class]{n}$`
unfoldable pub match_exact : (ℕ → Bool) → ℕ → String → Bool
match_exact p zero String.[] = true
match_exact p zero (String.◌∷◌ c s) = eqb (code c) 10 && is_empty s
match_exact p (suc n) String.[] = false
match_exact p (suc n) (String.◌∷◌ c s) = p (code c) && match_exact p n s

unfoldable pub is_upper : ℕ → Bool
is_upper c = leb b'A' c && leb c b'Z'

unfoldable pub is_lower : ℕ → Bool
is_lower c = leb b'a' c && leb c b'z'

unfoldable pub is_digit : ℕ → Bool
is_digit c = leb b'0' c && leb c b'9'

-- [a-zA-Z0-9_\-]
unfoldable pub identifier_char : ℕ → Bool
unfolding is_upper is_lower is_digit
identifier_char c = is_lower c || is_upper c || is_digit c || eqb c b'_' || eqb c b'-'

-- [a-zA-Z0-9.\-+]
unfoldable pub version_char : ℕ → Bool
unfolding is_upper is_lower is_digit
version_char c = is_lower c || is_upper c || is_digit c || eqb c b'.' || eqb c b'-' || eqb c b'+'

-- [A-Z0-9]
unfoldable pub hw_code_char : ℕ → Bool
unfolding is_upper is_digit
hw_code_char c = is_upper c || is_digit c

-- SAFE_IDENTIFIER_RE
unfoldable pub safe_identifier_re : String → Bool
unfolding match_plus identifier_char
safe_identifier_re s = match_plus identifier_char s

-- FW_VERSION_RE
unfoldable pub fw_version_re : String → Bool
unfolding match_plus version_char
fw_version_re s = match_plus version_char s

-- HW_CODE_RE
unfoldable pub hw_code_re : String → Bool
unfolding match_exact hw_code_char
hw_code_re s = match_exact hw_code_char 8 s

-- s <= t: Python compares the codes of the characters
unfoldable pub by_codes : String → String → Bool
by_codes String.[] t = true
by_codes (String.◌∷◌ c s) String.[] = false
by_codes (String.◌∷◌ c s) (String.◌∷◌ d t) =
    let rest = by_codes s t in ltb (code c) (code d) || (eqb (code c) (code d) && rest)
