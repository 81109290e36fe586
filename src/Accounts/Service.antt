-- ===== src/Accounts/Service.antt =====
-- The requests that web/accounts serves, and logins through the identity provider, in sequence.
use sensor_server.Prelude.{ℕ, String, Bool, Option, none, some, List, [], ◌∷◌}
use sensor_server.Value.{Dict}
use sensor_server.Accounts.Users.{
  User, Accounts, find_user, Requester, is_superuser, role_middleware,
}
use sensor_server.Accounts.Requests.{
  Site, user_set_role_view, user_set_superadmin_view, pending_view,
}
use sensor_server.Accounts.Oidc.{Directory, update_user, create_user, updated_or_left}

-- The requests that change accounts, each with the user of its session; the last two are the calls
-- of the OIDC library at a login.
pub data Request : Type 0 where
  set_role_of : Option ℕ → String → ℕ → String → Request
  set_superadmin_of : Option ℕ → String → ℕ → String → Request
  see_pending : Option ℕ → Request
  pass_through : Option ℕ → String → Request
  oidc_update : ℕ → Dict String → Request
  oidc_create : Dict String → Request

abbrev pub actor : Request → Option ℕ
actor (set_role_of by method id role) = by
actor (set_superadmin_of by method id action) = by
actor (see_pending by) = by
actor (pass_through by path) = by
actor (oidc_update id claims) = none
actor (oidc_create claims) = none

abbrev pub requester : Option ℕ → Accounts → Requester
requester none a = none
requester (some id) a = find_user id a

abbrev pub updated : Directory → Dict String → Accounts → Option User → Accounts
updated dir claims a none = a
updated dir claims a (some u) = (updated_or_left a (update_user dir claims u a)).1

-- One request.
unfoldable pub serve_account : Site → Directory → String → Request → Accounts → Accounts
unfolding find_user user_set_role_view user_set_superadmin_view pending_view role_middleware
    update_user create_user
serve_account site dir url (set_role_of by method id role) a =
    (user_set_role_view site (requester by a) method id role a).1
serve_account site dir url (set_superadmin_of by method id action) a =
    (user_set_superadmin_view site (requester by a) method id action a).1
serve_account site dir url (see_pending by) a = (pending_view site (requester by a) a).1
serve_account site dir url (pass_through by path) a =
    (role_middleware url a (requester by a) path).1
serve_account site dir url (oidc_update id claims) a = updated dir claims a (find_user id a)
serve_account site dir url (oidc_create claims) a = (create_user dir claims a).1

unfoldable pub serve_accounts : Site → Directory → String → List Request → Accounts → Accounts
unfolding serve_account
serve_accounts site dir url [] a = a
serve_accounts site dir url (r ∷ rs) a =
    serve_accounts site dir url rs (serve_account site dir url r a)

-- Is the user with the key a superuser?
abbrev pub superuser : ℕ → Accounts → Bool
superuser id a = is_superuser (find_user id a)
