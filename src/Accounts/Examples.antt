-- ===== src/Accounts/Examples.antt =====
-- The theorem about superusers at sample data: a user without rights tries to make himself one.
use sensor_server.Prelude.{◌≡◌, refl, true, false, some, List, [], ◌∷◌, find}
use sensor_server.Accounts.Users.{User, Accounts, find_user}
use sensor_server.Accounts.Requests.{Site}
use sensor_server.Accounts.Oidc.{Directory}
use sensor_server.Accounts.Service.{
  Request, set_superadmin_of, oidc_create, pass_through, serve_accounts, superuser,
}
use sensor_server.Accounts.Privilege.{serve_accounts-superusers}

abbrev root : User
root = record {
  pk = 1;
  username = "root";
  email = "";
  first_name = "";
  last_name = "";
  is_staff = true;
  is_superuser = true;
}

abbrev guest : User
guest = record {
  pk = 2;
  username = "guest";
  email = "";
  first_name = "";
  last_name = "";
  is_staff = false;
  is_superuser = false;
}

abbrev two_users : Accounts
two_users = record {
  users = root ∷ guest ∷ [];
  profiles =
      record { user = 1; role = some "admin" } ∷ record { user = 2; role = some "admin" } ∷ [];
}

abbrev sample_site : Site
sample_site = record { env_superuser = "root"; login_url = "/accounts/login/" }

abbrev sample_directory : Directory
sample_directory = record {
  is_space = λ c. false;
  normalize_email = λ s. s;
  normalize_username = λ s. s;
}

abbrev sample_requests : List Request
sample_requests =
    set_superadmin_of (some 2) "POST" 2 "grant"
    ∷ pass_through (some 2) "/"
    ∷ oidc_create (("preferred_username", "eve") ∷ [])
    ∷ []

guest_powerless : superuser 2 two_users ≡ false
unfolding find_user find
guest_powerless = refl

serve_accounts-superusers_example :
    superuser 2
      (serve_accounts sample_site sample_directory "/accounts/pending/" sample_requests two_users)
    ≡ superuser 2 two_users
serve_accounts-superusers_example =
    serve_accounts-superusers sample_site sample_directory "/accounts/pending/" sample_requests
      two_users (guest_powerless, (guest_powerless, (refl, tt))) 2
