-- ===== src/Examples/Sso.antt =====
-- The accounts of backend/internal/sso on small tables.
use docker_cloud_manager.Prelude.{
  inr, List, ◌≢◌, ℕ, ◌≡◌, refl, ◌↔◌, true, false, none, some, [], ◌∷◌, arith, if◌then◌else◌, ◌==◌,
}
use docker_cloud_manager.Prelude.Int.{pos, ltb_ℤ, ◌+ℤ◌}
use docker_cloud_manager.Prelude.Strings.{trim_left, trim_right}
use docker_cloud_manager.AppErrors.{sentinel, foreign, invalid_credentials}
use docker_cloud_manager.Result.{ok, err}
use docker_cloud_manager.Sso.{
  User, status_active, AuthConfig, Accounts, Given, is_active_admin, count_where, called, select,
  execute, count_active_admins, update_user_row, change_user, taken,
}
use docker_cloud_manager.Sso.Rows.{IsAdministered}
use docker_cloud_manager.Sso.Users.{ensure_not_last_active_admin}
use docker_cloud_manager.Sso.Requests.{
  deactivates, reactivates, serve_all, serve_all-IsAdministered,
}
use docker_cloud_manager.Sso.Access.{check_permission, login, permission_exists}
use docker_cloud_manager.Sso.Access.Laws.{Speaks, inactive, login-refused, check_permission_iff}
use docker_cloud_manager.Sso.Oidc.States.{
  consume_oidc_state, start_oidc_login, oidc_available, cleanup_expired_states, secure_string_equal,
}
use docker_cloud_manager.Sso.Oidc.Single.{
  made, StateRequest, begun, called_back, serve_states, consume-consume_state, consume-start,
}
use docker_cloud_manager.Sso.Oidc.Names.{trim_username}
use text.Mathlib.Text.{◌==◌ as str_eq}

abbrev given : Given ℕ
given = record {
  fault = λ n. none;
  refuses = λ u. none;
  hash_password = λ p. some p;
  password_matches = λ hash p. str_eq hash p;
  generate_tokens = λ u. some ("access", "refresh");
  validate_access_token = λ t. if str_eq t "root token" then some 1 else none;
  validate_refresh_token = λ t. none;
  has_oidc_provider = true;
  auth_code_url = λ state nonce. state;
  exchange_code = λ code nonce. err (foreign "no such code");
  sha256 = λ s. s;
  parse_address = λ s. some s;
  to_lower = λ s. s;
  is_letter_or_digit = λ c. true;
  not_positive = λ n. n == 0;
  default_quota_cpu = 1;
  now = pos 100;
}

abbrev auth_config : AuthConfig
auth_config = record {
  local_login_enabled = true;
  local_register_enabled = true;
  oidc_enabled = true;
  oidc_provider_name = "keycloak";
  oidc_admin_groups = [];
  oidc_default_role = "user";
  oidc_state_ttl = pos 600;
}

abbrev root : User ℕ
root = record {
  id = 1;
  username = "root";
  email = "root@example.org";
  password_hash = "secret";
  role = "admin";
  status = "active";
  quota_cpu = 1;
  quota_ram_mb = pos 2048;
  quota_disk_mb = pos 5120;
  auth_source = "local";
  external_provider = "";
  external_subject = "";
  external_username = "";
  last_login_at = none;
}

abbrev second_admin : User ℕ
second_admin = record root { id = 2; username = "ann"; email = "ann@example.org" }

abbrev one_admin : Accounts ℕ
one_admin = record { users = root ∷ []; states = []; calls = 0 }

one_admin-IsAdministered : IsAdministered one_admin.users
one_admin-IsAdministered = record { admins = omega arith; ids = λ i. ground arith }

-- The last administrator stays, and may be made active once more.
serve_all-IsAdministered_example :
    IsAdministered
      (serve_all auth_config
        ((given, deactivates 1) ∷ (given, reactivates 1) ∷ (given, deactivates 1) ∷ [])
        one_admin).users
serve_all-IsAdministered_example =
    serve_all-IsAdministered auth_config
      ((given, deactivates 1) ∷ (given, reactivates 1) ∷ (given, deactivates 1) ∷ []) one_admin
      one_admin-IsAdministered

check_permission_iff_example :
    ((check_permission given "root token" "users.admin.list" one_admin).0 ≡ ok (root, true)) ↔ (
      (permission_exists "users.admin.list" ≡ true)
      × Speaks given "root token" root one_admin
      × (str_eq root.role "admin" ≡ true))
check_permission_iff_example =
    check_permission_iff given "root token" "users.admin.list" root one_admin refl

-- The right password of an account that is not active.
abbrev idle_root : Accounts ℕ
idle_root = record one_admin { users = record root { status = "deactivated" } ∷ [] }

login-refused_example :
    login given auth_config "root" "secret" idle_root
    ≡ (err (sentinel invalid_credentials), called given idle_root)
login-refused_example =
    login-refused given auth_config "root" "secret" idle_root refl refl
      (inr (record root { status = "deactivated" }, refl, inactive not_active))
  where
    not_active : "deactivated" ≢ status_active
    not_active e = cc

is_available : oidc_available given auth_config "keycloak" ≡ true
unfolding oidc_available
is_available = refl

abbrev started : Accounts ℕ
started = (start_oidc_login given auth_config "state" "nonce" "cookie" "keycloak" "/" one_admin).1

in_time : ltb_ℤ (given.now +ℤ auth_config.oidc_state_ttl) given.now ≡ false
unfolding ◌+ℤ◌
in_time = refl

abbrev once : Accounts ℕ
once = (consume_oidc_state given "keycloak" "state" "cookie" started).1

first_time :
    consume_oidc_state given "keycloak" "state" "cookie" started
    ≡ (ok (made given auth_config "nonce" "cookie" "keycloak" "/"), once)
unfolding consume_oidc_state start_oidc_login cleanup_expired_states secure_string_equal
    oidc_available trim_left trim_right ◌+ℤ◌
first_time = refl

consume-start_example :
    (consume_oidc_state given "keycloak" "state" "cookie" started).0
    ≡ ok (made given auth_config "nonce" "cookie" "keycloak" "/")
consume-start_example =
    consume-start given given auth_config "state" "nonce" "cookie" "keycloak" "/" one_admin
      is_available refl in_time

-- Another login is begun, and the state is tried, before it is tried once more.
abbrev between : List (StateRequest ℕ)
between =
    begun given auth_config "other" "nonce" "cookie" "keycloak" "/"
    ∷ called_back given "keycloak" "state" "cookie"
    ∷ []

consume-consume_state_example :
    (consume_oidc_state given "keycloak" "state" "cookie" (serve_states between once)).0
    ≡ err (sentinel invalid_credentials)
consume-consume_state_example =
    consume-consume_state given given "keycloak" "keycloak" "state" "cookie" "cookie"
      (made given auth_config "nonce" "cookie" "keycloak" "/") between started once first_time
      (refl, (tt, tt))

-- A name of Latin and Cyrillic letters is cut inside a letter: what is left is no text.
cut_inside : trim_username "aбвгдежзийклмнопрс" 30 ≡ none
unfolding trim_username
cut_inside = refl

-- Two administrators are deactivated at a time: both checks come before both writes.
abbrev two_admins : Accounts ℕ
two_admins = record { users = root ∷ second_admin ∷ []; states = []; calls = 0 }

both_checks_pass :
    ((ensure_not_last_active_admin given root "admin" "deactivated" two_admins).0 ≡ ok tt)
    × ((ensure_not_last_active_admin given second_admin "admin" "deactivated" two_admins).0 ≡ ok tt)
unfolding ensure_not_last_active_admin count_active_admins select
both_checks_pass = (refl, refl)

no_admin_left :
    count_where is_active_admin
      (update_user_row given
        (record second_admin { status = "deactivated" })
        (update_user_row given (record root { status = "deactivated" }) two_admins).1).1.users
    ≡ 0
unfolding update_user_row execute change_user taken
no_admin_left = refl
