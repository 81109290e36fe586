-- ===== src/Accounts/Users.antt =====
-- The users and their profiles as tables, and the decisions of web/accounts/decorators.py,
-- web/accounts/middleware.py, web/accounts/context_processors.py and `has_role` of
-- web/devices/templatetags/device_tags.py.
use sensor_server.Prelude.{
  ℕ, String, Bool, true, false, not, Option, none, some, List, [], ◌∷◌, ◌++◌, eqb, any, find,
  if◌then◌else◌,
}
use sensor_server.Text.{starts_with}
use sensor_server.Accounts.Role.{UserProfile, has_role, is_approved_profile}

-- The columns of Django's User that the program reads or writes.
pub record User : Type 0 where
  pub pk : ℕ
  pub username : String
  pub email : String
  pub first_name : String
  pub last_name : String
  pub is_staff : Bool
  pub is_superuser : Bool

pub record Accounts : Type 0 where
  pub users : List User
  pub profiles : List UserProfile

unfoldable pub find_user : ℕ → Accounts → Option User
unfolding find
find_user id a = find (λ u. eqb u.pk id) a.users

unfoldable pub find_profile : ℕ → Accounts → Option UserProfile
unfolding find
find_profile id a = find (λ p. eqb p.user id) a.profiles

-- UserProfile.objects.get_or_create(user=...): a new profile has no role
abbrev pub with_profile : ℕ → Accounts → Option UserProfile → Accounts
with_profile id a none = record a {
  profiles = a.profiles ++ record { user = id; role = none } ∷ [];
}
with_profile id a (some p) = a

unfoldable pub ensure_profile : ℕ → Accounts → Accounts
unfolding find_profile
ensure_profile id a = with_profile id a (find_profile id a)

-- What a guarded view ends with.
pub data Response : Type 0 where
  served : Response
  redirect : String → Response
  forbidden not_found not_allowed : Response

-- `request.user`: none is the anonymous user
abbrev pub Requester : Type 0
Requester = Option User

abbrev pub is_superuser : Requester → Bool
is_superuser none = false
is_superuser (some u) = u.is_superuser

abbrev pub profile_has_role : String → Option UserProfile → Bool
profile_has_role role none = false
profile_has_role role (some p) = has_role p role

-- The outcome of role_required: `none` lets the view run.
unfoldable pub role_required : String → String → Accounts → Requester → Option Response
unfolding find_profile has_role
role_required login_url minimum a none = some (redirect login_url)
role_required login_url minimum a (some u) =
    if u.is_superuser
    then none
    else if not (profile_has_role minimum (find_profile u.pk a))
    then some forbidden
    else none

-- The template filter `has_role`
unfoldable pub has_role_filter : Accounts → Requester → String → Bool
unfolding find_profile has_role
has_role_filter a none role = false
has_role_filter a (some u) role =
    if u.is_superuser then true else profile_has_role role (find_profile u.pk a)

-- EXEMPT_PATHS
abbrev pub exempt_paths : List String
exempt_paths =
    "/healthz/" ∷ "/api/" ∷ "/oidc/" ∷ "/admin/" ∷ "/i18n/" ∷ "/accounts/login/"
    ∷ "/accounts/pending/" ∷ "/accounts/logout/" ∷ "/static/" ∷ []

abbrev pub is_approved_user : Option UserProfile → Bool
is_approved_user none = false
is_approved_user (some p) = is_approved_profile p

-- RoleMiddleware.__call__: `none` passes the request on; `pending_url` is the reversed URL
unfoldable pub role_middleware : String → Accounts → Requester → String → Option Response × Accounts
unfolding starts_with any ensure_profile find_profile is_approved_profile
role_middleware pending_url a none path = (none, a)
role_middleware pending_url a (some u) path =
    if u.is_superuser
    then (none, a)
    else if any (λ p. starts_with path p) exempt_paths
    then (none, a)
    else let b = ensure_profile u.pk a in
      (
        if not (is_approved_user (find_profile u.pk b)) then some (redirect pending_url) else none,
        b,
      )

-- The two values of the context processor `user_role` that depend on the user.
pub record UserRole : Type 0 where
  pub role : Option String
  pub is_approved : Bool

abbrev pub profile_role : Option UserProfile → UserRole
profile_role none = record { role = none; is_approved = false }
profile_role (some p) = record { role = p.role; is_approved = is_approved_profile p }

unfoldable pub user_role : Accounts → Requester → UserRole
unfolding find_profile is_approved_profile
user_role a none = record { role = none; is_approved = false }
user_role a (some u) =
    if u.is_superuser
    then record { role = some "admin"; is_approved = true }
    else profile_role (find_profile u.pk a)
