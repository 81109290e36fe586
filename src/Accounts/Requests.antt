-- ===== src/Accounts/Requests.antt =====
-- The views of web/accounts/views.py that read or change accounts. A request is handled for a user
-- that the session names; sessions and passwords are Django's.
use sensor_server.Prelude.{
  ℕ, String, Bool, true, false, not, Option, none, some, eqb, any, ◌==◌, if◌then◌else◌,
}
use sensor_server.World.{update_where}
use sensor_server.Accounts.Role.{UserProfile, role_choices}
use sensor_server.Accounts.Users.{
  User, Accounts, find_user, find_profile, ensure_profile, Response, served, redirect, forbidden,
  not_found, not_allowed, Requester, is_superuser, role_required, is_approved_user,
}

-- The settings: DJANGO_SUPERUSER_USERNAME and the login URL.
pub record Site : Type 0 where
  pub env_superuser : String
  pub login_url : String

-- _is_env_superuser
unfoldable pub is_env_superuser : Site → User → Bool
is_env_superuser site u = u.username == site.env_superuser

-- profile.role = ...; profile.save()
unfoldable pub set_role : ℕ → Option String → Accounts → Accounts
unfolding update_where
set_role id role a = record a {
  profiles = update_where (λ p. eqb p.user id) (λ p. record p { role = role }) a.profiles;
}

-- The part of user_set_role_view behind the lookups.
unfoldable pub change_role : Site → User → String → Accounts → Response × Accounts
unfolding is_env_superuser set_role any
change_role site target role a =
    if is_env_superuser site target
    then (forbidden, a)
    else if any (λ r. r == role) role_choices
    then (redirect "accounts:user_list", set_role target.pk (some role) a)
    else if role == "revoke"
    then (redirect "accounts:user_list", set_role target.pk none a)
    else (redirect "accounts:user_list", a)

-- get_object_or_404(UserProfile, user_id=...), with its user
abbrev pub with_target :
    (User → UserProfile → Accounts → Response × Accounts)
    → Accounts
    → Option UserProfile
    → Option User
    → Response × Accounts
with_target body a (some p) (some u) = body u p a
with_target body a _ _ = (not_found, a)

abbrev pub guarded : Option Response → Accounts → Response × Accounts → Response × Accounts
guarded (some r) a o = (r, a)
guarded none a o = o

-- user_set_role_view
unfoldable pub user_set_role_view :
    Site → Requester → String → ℕ → String → Accounts → Response × Accounts
unfolding role_required find_profile find_user change_role
user_set_role_view site by method id role a =
    guarded (role_required site.login_url "admin" a by) a (
      if not (method == "POST")
      then (forbidden, a)
      else with_target (λ u p b. change_role site u role b) a (find_profile id a) (find_user id a))

-- target.is_staff = target.is_superuser = flag; target.save(update_fields=...)
unfoldable pub set_superuser : ℕ → Bool → Accounts → Accounts
unfolding update_where
set_superuser id flag a = record a {
  users =
      update_where (λ u. eqb u.pk id) (λ u. record u { is_staff = flag; is_superuser = flag })
        a.users;
}

abbrev pub default_admin : ℕ → Option String → Accounts → Accounts
default_admin id none a = set_role id (some "admin") a
default_admin id (some role) a = a

-- The part of user_set_superadmin_view behind the lookups.
unfoldable pub change_superuser :
    Site → User → UserProfile → String → Accounts → Response × Accounts
unfolding is_env_superuser set_superuser set_role
change_superuser site target profile action a =
    if is_env_superuser site target
    then (forbidden, a)
    else if action == "grant"
    then (
      redirect "accounts:user_list",
      default_admin target.pk profile.role (set_superuser target.pk true a),
    )
    else if action == "revoke"
    then (redirect "accounts:user_list", set_superuser target.pk false a)
    else (redirect "accounts:user_list", a)

-- user_set_superadmin_view
unfoldable pub user_set_superadmin_view :
    Site → Requester → String → ℕ → String → Accounts → Response × Accounts
unfolding find_profile find_user change_superuser
user_set_superadmin_view site by method id action a =
    if not (method == "POST")
    then (not_allowed, a)
    else if not (is_superuser by)
    then (forbidden, a)
    else with_target (λ u p b. change_superuser site u p action b) a (find_profile id a)
        (find_user id a)

-- pending_view
unfoldable pub pending_view : Site → Requester → Accounts → Response × Accounts
unfolding ensure_profile find_profile
pending_view site none a = (redirect site.login_url, a)
pending_view site (some u) a =
    let b = ensure_profile u.pk a in
    (if is_approved_user (find_profile u.pk b) then redirect "/" else served, b)
