-- ===== src/Accounts/Oidc.antt =====
-- `SensorOIDCBackend` of web/accounts/backends.py: users from the claims of an identity provider.
-- Claims are texts; the search for a user by its e-mail and the tokens are the library's.
use sensor_server.Prelude.{
  ℕ, suc, String, code, Bool, true, false, not, ◌&&◌, ◌||◌, Option, none, some, List, [], ◌∷◌, ◌++◌,
  eqb, ltb, any, max, ◌==◌, if◌then◌else◌,
}
use sensor_server.Text.{len, is_empty}
use sensor_server.Value.{Dict, get}
use sensor_server.World.{update_where}
use sensor_server.Accounts.Users.{User, Accounts, ensure_profile}

-- What Python and Django decide: white space, and how a new user's texts are normalized.
pub record Directory : Type 0 where
  pub is_space : ℕ → Bool
  pub normalize_email : String → String
  pub normalize_username : String → String

-- claims.get(key, default)
unfoldable pub claim : String → String → Dict String → String
unfolding get
claim key default claims = elim (get key claims) [ none ↦ default | some v ↦ v ]

-- "@" in s
unfoldable pub has_at : String → Bool
has_at String.[] = false
has_at (String.◌∷◌ c s) = eqb (code c) b'@' || has_at s

-- s.split("@")[0]
unfoldable pub before_at : String → String
before_at String.[] = ""
before_at (String.◌∷◌ c s) =
    let rest = before_at s in if eqb (code c) b'@' then "" else String.◌∷◌ c rest

-- The loop over the three claims; `last` is what follows it.
abbrev pub first_name_of : List String → String → String
first_name_of [] last = last
first_name_of (v ∷ vs) last =
    let rest = first_name_of vs last in if not (is_empty v) && not (has_at v) then v else rest

-- _extract_username
unfoldable pub extract_username : Dict String → String → String
unfolding claim has_at before_at
extract_username claims fallback =
    let email = claim "email" fallback claims in
    first_name_of
      (claim "preferred_username" "" claims
        ∷ claim "nickname" "" claims
        ∷ claim "name" "" claims
        ∷ [])
      (if has_at email then before_at email else if is_empty email then "user" else email)

-- s.lstrip()
unfoldable pub strip_left : (ℕ → Bool) → String → String
strip_left space String.[] = ""
strip_left space (String.◌∷◌ c s) =
    let rest = strip_left space s in if space (code c) then rest else String.◌∷◌ c s

-- The first word of a text that starts with one, and what stands behind its white space.
unfoldable pub cut_word : (ℕ → Bool) → String → String × String
unfolding strip_left
cut_word space String.[] = ("", "")
cut_word space (String.◌∷◌ c s) =
    let rest = cut_word space s in
    if space (code c) then ("", strip_left space s) else (String.◌∷◌ c rest.0, rest.1)

-- parts = s.split(None, 1): `none` where there is no part
unfoldable pub split_name : Directory → String → Option (String × String)
unfolding strip_left cut_word
split_name dir s =
    let text = strip_left dir.is_space s in
    if is_empty text then none else some (cut_word dir.is_space text)

abbrev pub with_full_name : User → Option (String × String) → Option User
with_full_name u none = none
with_full_name u (some (first, last)) = some (record u { first_name = first; last_name = last })

-- The display name from the `name` claim; `none` is the IndexError of `parts[0]`.
unfoldable pub name_from_claims : Directory → Dict String → User → Option User
unfolding claim split_name
name_from_claims dir claims u =
    let full_name = claim "name" "" claims in
    if is_empty u.first_name && is_empty u.last_name && not (is_empty full_name)
    then with_full_name u (split_name dir full_name)
    else some u

-- _update_user_from_claims, up to the save
unfoldable pub claimed_user : Directory → Dict String → User → Option User
unfolding has_at extract_username claim name_from_claims
claimed_user dir claims u = name_from_claims dir claims (record u {
  username =
      if has_at u.username || ltb 30 (len u.username)
      then extract_username claims u.username
      else u.username;
  first_name = claim "given_name" u.first_name claims;
  last_name = claim "family_name" u.last_name claims;
  email = claim "email" u.email claims;
})

-- Another user has the name: the save fails.
unfoldable pub is_taken : ℕ → String → List User → Bool
unfolding any
is_taken id name users = any (λ u. not (eqb u.pk id) && (u.username == name)) users

-- A text that its column of Django's User table does not take.
unfoldable pub is_too_long : User → Bool
is_too_long u =
    ltb 150 (len u.username)
    || ltb 150 (len u.first_name)
    || ltb 150 (len u.last_name)
    || ltb 254 (len u.email)

-- user.save(update_fields=["username", "first_name", "last_name", "email"])
abbrev pub copy_names : User → User → User
copy_names u row = record row {
  username = u.username;
  first_name = u.first_name;
  last_name = u.last_name;
  email = u.email;
}

abbrev pub save_claimed : ℕ → Accounts → Option User → Option Accounts
save_claimed id a none = none
save_claimed id a (some u) =
    if is_taken id u.username a.users || is_too_long u
    then none
    else some (
        ensure_profile id
          (record a { users = update_where (λ row. eqb row.pk id) (copy_names u) a.users }))

-- update_user; `none` is an exception, and nothing is written
unfoldable pub update_user : Directory → Dict String → User → Accounts → Option Accounts
unfolding claimed_user is_taken ensure_profile update_where
update_user dir claims u a = save_claimed u.pk a (claimed_user dir claims u)

-- The next primary key.
unfoldable pub next_user : List User → ℕ
next_user [] = 1
next_user (u ∷ us) = max (suc u.pk) (next_user us)

abbrev pub new_user : ℕ → String → String → User
new_user pk username email = record {
  pk = pk;
  username = username;
  email = email;
  first_name = "";
  last_name = "";
  is_staff = false;
  is_superuser = false;
}

-- The user of create_user is written before its claims are: an exception there leaves it.
abbrev pub updated_or_left : Accounts → Option Accounts → Bool × Accounts
updated_or_left a none = (false, a)
updated_or_left a (some b) = (true, b)

-- User.objects.create_user, which refuses an empty or a taken name, then the claims
abbrev pub add_claimed : Directory → Dict String → User → Accounts → Bool × Accounts
add_claimed dir claims u a =
    if is_empty u.username || is_taken u.pk u.username a.users || is_too_long u
    then (false, a)
    else updated_or_left (record a { users = a.users ++ u ∷ [] })
        (update_user dir claims u (record a { users = a.users ++ u ∷ [] }))

-- create_user; false is an exception
unfoldable pub create_user : Directory → Dict String → Accounts → Bool × Accounts
unfolding claim extract_username next_user is_taken update_user
create_user dir claims a =
    let email = claim "email" "" claims in
    add_claimed dir claims
      (new_user (next_user a.users) (dir.normalize_username (extract_username claims email))
        (dir.normalize_email email))
      a
