-- ===== src/Accounts/Privilege.antt =====
-- Who can become a superuser, over any sequence of the requests that web/accounts serves.
use sensor_server.Prelude.{
  ℕ, String, ◌≡◌, refl, ◌∙◌, ap, Bool, false, not, ◌||◌, Option, none, some, List, [], ◌∷◌, ◌++◌,
  All, arith, eqb, find, if_cases, ◌==◌,
}
use sensor_server.Text.{is_empty}
use sensor_server.Value.{Dict}
use sensor_server.World.{update_where}
use sensor_server.Accounts.Role.{UserProfile}
use sensor_server.Accounts.Users.{
  User, Accounts, find_user, find_profile, with_profile, ensure_profile, Response, Requester,
  is_superuser, role_required, role_middleware,
}
use sensor_server.Accounts.Requests.{
  Site, set_role, change_role, with_target, guarded, user_set_role_view, user_set_superadmin_view,
  pending_view,
}
use sensor_server.Accounts.Oidc.{
  Directory, claimed_user, copy_names, is_too_long, save_claimed, is_taken, update_user,
  create_user, updated_or_left, new_user, add_claimed, claim, next_user, extract_username,
}
use sensor_server.Accounts.Service.{
  Request, set_role_of, set_superadmin_of, see_pending, pass_through, oidc_update, oidc_create,
  actor, requester, updated, serve_account, serve_accounts, superuser,
}

-- The same superusers.
abbrev SameSuperusers : Accounts → Accounts → Type 0
SameSuperusers a b = (id : ℕ) → superuser id b ≡ superuser id a

find-kept :
    (id : ℕ) (p : User → Bool) (f : User → User) (us : List User)
    → ((u : User) → (f u).pk ≡ u.pk)
    → ((u : User) → (f u).is_superuser ≡ u.is_superuser)
    → is_superuser (find (λ u. eqb u.pk id) (update_where p f us))
      ≡ is_superuser (find (λ u. eqb u.pk id) us)
unfolding find update_where
find-kept id p f [] key flag = refl
find-kept id p f (u ∷ us) key flag = ground (arith, key u, flag u, find-kept id p f us key flag)

find-new :
    (id : ℕ) (u : User) (us : List User)
    → u.is_superuser ≡ false
    → is_superuser (find (λ v. eqb v.pk id) (us ++ u ∷ []))
      ≡ is_superuser (find (λ v. eqb v.pk id) us)
unfolding find
find-new id u [] h = ground arith
find-new id u (v ∷ us) h = ground (arith, find-new id u us h)

with_profile-users :
    (id : ℕ) (a : Accounts) (o : Option UserProfile) → (with_profile id a o).users ≡ a.users
with_profile-users id a none = refl
with_profile-users id a (some p) = refl

ensure_profile-users : (id : ℕ) (a : Accounts) → (ensure_profile id a).users ≡ a.users
unfolding ensure_profile
ensure_profile-users id a = with_profile-users id a (find_profile id a)

same_users : (a b : Accounts) → b.users ≡ a.users → SameSuperusers a b
unfolding find_user
same_users a b e id = ap (λ us. is_superuser (find (λ u. eqb u.pk id) us)) e

guarded-users :
    (o : Option Response) (a : Accounts) (x : Response × Accounts)
    → x.1.users ≡ a.users
    → (guarded o a x).1.users ≡ a.users
guarded-users none a x h = h
guarded-users (some r) a x h = refl

-- A change of a role touches no user.
change_role-users :
    (site : Site) (u : User) (role : String) (a : Accounts)
    → (change_role site u role a).1.users ≡ a.users
unfolding change_role set_role
change_role-users site u role a = ground arith

with_target-users :
    (body : User → UserProfile → Accounts → Response × Accounts) (a : Accounts)
    → ((u : User) (p : UserProfile) → (body u p a).1.users ≡ a.users)
    → (o : Option UserProfile) (t : Option User) → (with_target body a o t).1.users ≡ a.users
with_target-users body a h none none = refl
with_target-users body a h none (some u) = refl
with_target-users body a h (some p) none = refl
with_target-users body a h (some p) (some u) = h u p

set_role-users :
    (site : Site) (by : Requester) (method : String) (id : ℕ) (role : String) (a : Accounts)
    → (user_set_role_view site by method id role a).1.users ≡ a.users
unfolding user_set_role_view
set_role-users site by method id role a =
    guarded-users (role_required site.login_url "admin" a by) a _ (
      if_cases (λ (o : Response × Accounts). o.1.users ≡ a.users) (not (method == "POST"))
        (λ _. refl)
        (λ _.
          with_target-users (λ u p b. change_role site u role b) a
            (λ u p. change_role-users site u role a) (find_profile id a) (find_user id a)))

pending-users :
    (site : Site) (by : Requester) (a : Accounts) → (pending_view site by a).1.users ≡ a.users
unfolding pending_view
pending-users site none a = refl
pending-users site (some u) a = ensure_profile-users u.pk a

middleware-users :
    (url : String) (a : Accounts) (by : Requester) (path : String)
    → (role_middleware url a by path).1.users ≡ a.users
unfolding role_middleware
middleware-users url a none path = refl
middleware-users url a (some u) path = ground (arith, ensure_profile-users u.pk a)

save_claimed-superusers :
    (id : ℕ) (a : Accounts) (o : Option User)
    → SameSuperusers a (updated_or_left a (save_claimed id a o)).1
unfolding find_user
save_claimed-superusers id a none k = refl
save_claimed-superusers id a (some u) k =
    if_cases (λ (o : Option Accounts). superuser k (updated_or_left a o).1 ≡ superuser k a)
      (is_taken id u.username a.users || is_too_long u) (λ _. refl)
      (λ _.
        same_users (record a { users = update_where (λ row. eqb row.pk id) (copy_names u) a.users })
          (ensure_profile id
            (record a { users = update_where (λ row. eqb row.pk id) (copy_names u) a.users }))
          (ensure_profile-users id _) k
        ∙ find-kept k (λ row. eqb row.pk id) (copy_names u) a.users (λ row. refl) (λ row. refl))

update_user-superusers :
    (dir : Directory) (claims : Dict String) (u : User) (a : Accounts)
    → SameSuperusers a (updated_or_left a (update_user dir claims u a)).1
unfolding update_user
update_user-superusers dir claims u a = save_claimed-superusers u.pk a (claimed_user dir claims u)

-- Granting is for superusers only.
set_superadmin-users :
    (site : Site) (by : Requester) (method : String) (id : ℕ) (action : String) (a : Accounts)
    → is_superuser by ≡ false
    → (user_set_superadmin_view site by method id action a).1.users ≡ a.users
unfolding user_set_superadmin_view
set_superadmin-users site by method id action a h =
    if_cases (λ (o : Response × Accounts). o.1.users ≡ a.users) (not (method == "POST")) (λ _. refl)
      (λ _.
        if_cases (λ (o : Response × Accounts). o.1.users ≡ a.users) (not (is_superuser by))
          (λ _. refl) (λ e. ground (arith, h, e)))

-- A new user is no superuser.
added-superusers :
    (u : User) (a : Accounts)
    → u.is_superuser ≡ false
    → SameSuperusers a (record a { users = a.users ++ u ∷ [] })
unfolding find_user
added-superusers u a h k = find-new k u a.users h

add_claimed-superusers :
    (dir : Directory) (claims : Dict String) (u : User) (a : Accounts)
    → u.is_superuser ≡ false
    → SameSuperusers a (add_claimed dir claims u a).1
add_claimed-superusers dir claims u a h k =
    if_cases (λ (o : Bool × Accounts). superuser k o.1 ≡ superuser k a)
      (is_empty u.username || is_taken u.pk u.username a.users || is_too_long u) (λ _. refl)
      (λ _.
        update_user-superusers dir claims u (record a { users = a.users ++ u ∷ [] }) k
        ∙ added-superusers u a h k)

create_user-superusers :
    (dir : Directory) (claims : Dict String) (a : Accounts)
    → SameSuperusers a (create_user dir claims a).1
unfolding create_user
create_user-superusers dir claims a =
    let email = claim "email" "" claims in
    add_claimed-superusers dir claims
      (new_user (next_user a.users) (dir.normalize_username (extract_username claims email))
        (dir.normalize_email email))
      a refl

updated-superusers :
    (dir : Directory) (claims : Dict String) (a : Accounts) (o : Option User)
    → SameSuperusers a (updated dir claims a o)
updated-superusers dir claims a none k = refl
updated-superusers dir claims a (some u) k = update_user-superusers dir claims u a k

serve_account-superusers :
    (site : Site) (dir : Directory) (url : String) (r : Request) (a : Accounts)
    → is_superuser (requester (actor r) a) ≡ false
    → SameSuperusers a (serve_account site dir url r a)
unfolding serve_account
serve_account-superusers site dir url (set_role_of by method id role) a h =
    same_users a (user_set_role_view site (requester by a) method id role a).1
      (set_role-users site (requester by a) method id role a)
serve_account-superusers site dir url (set_superadmin_of by method id action) a h =
    same_users a (user_set_superadmin_view site (requester by a) method id action a).1
      (set_superadmin-users site (requester by a) method id action a h)
serve_account-superusers site dir url (see_pending by) a h =
    same_users a (pending_view site (requester by a) a).1 (pending-users site (requester by a) a)
serve_account-superusers site dir url (pass_through by path) a h =
    same_users a (role_middleware url a (requester by a) path).1
      (middleware-users url a (requester by a) path)
serve_account-superusers site dir url (oidc_update id claims) a h =
    updated-superusers dir claims a (find_user id a)
serve_account-superusers site dir url (oidc_create claims) a h = create_user-superusers dir claims a

-- No session among those of the requests is a superuser's.
abbrev pub Unprivileged : Accounts → Request → Type 0
Unprivileged a r = is_superuser (requester (actor r) a) ≡ false

still-Unprivileged :
    (a b : Accounts) (by : Option ℕ)
    → SameSuperusers a b
    → is_superuser (requester by b) ≡ is_superuser (requester by a)
still-Unprivileged a b none same = refl
still-Unprivileged a b (some id) same = same id

All-Unprivileged :
    (a b : Accounts) (rs : List Request)
    → SameSuperusers a b
    → All (Unprivileged a) rs
    → All (Unprivileged b) rs
All-Unprivileged a b [] same h = h
All-Unprivileged a b (r ∷ rs) same h =
    (still-Unprivileged a b (actor r) same ∙ h.0, All-Unprivileged a b rs same h.1)

-- Whatever requests are served to sessions none of which is a superuser's at the start, logins
-- through the identity provider among them, with any claims, exactly those users are superusers
-- afterwards that were before.
pub serve_accounts-superusers :
    (site : Site) (dir : Directory) (url : String) (rs : List Request) (a : Accounts)
    → All (Unprivileged a) rs
    → (id : ℕ) → superuser id (serve_accounts site dir url rs a) ≡ superuser id a
unfolding serve_accounts
serve_accounts-superusers site dir url [] a h id = refl
serve_accounts-superusers site dir url (r ∷ rs) a h id =
    let same = serve_account-superusers site dir url r a h.0 in
    serve_accounts-superusers site dir url rs _ (All-Unprivileged a _ rs same h.1) id ∙ same id
