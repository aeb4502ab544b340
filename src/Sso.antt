-- ===== src/Sso.antt =====
-- backend/internal/sso: the accounts. model/user.go and repository/user.go, the data that
-- service/auth.go works on, and the calls that it makes of what it is given. A uuid is a number.
pub mod Rows
pub mod Access
pub mod Users
pub mod Oidc
pub mod Requests
use docker_cloud_manager.Prelude.{
  ℕ, ◌+◌, Bool, not, ◌&&◌, ◌||◌, Option, none, some, List, [], ◌∷◌, String, any, if◌then◌else◌,
  ◌==◌,
}
use docker_cloud_manager.Prelude.Int.{ℤ}
use docker_cloud_manager.AppErrors.{Err, sentinel, already_exists, not_found}
use docker_cloud_manager.Result.{Result, ok, err}
use docker_cloud_manager.Effect.{Effect}
use docker_cloud_manager.Tables.{update_where, find_where, filter_where, or_not_found}
use Prim.Native.Char.{Char}
use text.Mathlib.Text.{◌==◌ as str_eq}

abbrev pub role_user : String
role_user = "user"

abbrev pub role_admin : String
role_admin = "admin"

abbrev pub status_active : String
status_active = "active"

abbrev pub status_deactivated : String
status_deactivated = "deactivated"

abbrev pub auth_source_local : String
auth_source_local = "local"

abbrev pub auth_source_oidc : String
auth_source_oidc = "oidc"

-- An empty text stands for NULL. `F` is float64.
pub record User (F : Type 0) : Type 0 where
  pub id : ℕ
  pub username : String
  pub email : String
  pub password_hash : String
  pub role : String
  pub status : String
  pub quota_cpu : F
  pub quota_ram_mb : ℤ
  pub quota_disk_mb : ℤ
  pub auth_source : String
  pub external_provider : String
  pub external_subject : String
  pub external_username : String
  pub last_login_at : Option ℤ

pub record OidcState : Type 0 where
  pub provider : String
  pub nonce : String
  pub browser_binding : String
  pub redirect_after : String
  pub expires_at : ℤ

pub record OidcIdentity : Type 0 where
  pub subject : String
  pub username : String
  pub email : String
  pub groups : List String
  pub realm_roles : List String
  pub preferred_username : String

pub record AuthConfig : Type 0 where
  pub local_login_enabled : Bool
  pub local_register_enabled : Bool
  pub oidc_enabled : Bool
  pub oidc_provider_name : String
  pub oidc_admin_groups : List String
  pub oidc_default_role : String
  pub oidc_state_ttl : ℤ

-- The table users, the map of OIDC states, and how often the database was called.
pub record Accounts (F : Type 0) : Type 0 where
  pub users : List (User F)
  pub states : List (String × OidcState)
  pub calls : ℕ

-- What the service is given: `fault n` is the error of the n-th call of the database, `refuses` its
-- error for a row that does not fit the columns; bcrypt, the tokens, the OIDC provider, SHA-256,
-- mail.ParseAddress, and the tables of Unicode are those of other packages.
pub record Given (F : Type 0) : Type 0 where
  pub fault : ℕ → Option Err
  pub refuses : User F → Option Err
  pub hash_password : String → Option String
  pub password_matches : String → String → Bool
  pub generate_tokens : User F → Option (String × String)
  pub validate_access_token : String → Option ℕ
  pub validate_refresh_token : String → Option ℕ
  pub has_oidc_provider : Bool
  pub auth_code_url : String → String → String
  pub exchange_code : String → String → Result OidcIdentity
  pub sha256 : String → String
  pub parse_address : String → Option String
  pub to_lower : String → String
  pub is_letter_or_digit : Char → Bool
  pub not_positive : F → Bool
  pub default_quota_cpu : F
  pub now : ℤ

abbrev pub has_id : {F : Type 0} → ℕ → User F → Bool
has_id id u = u.id == id

abbrev pub has_username : {F : Type 0} → String → User F → Bool
has_username username u = str_eq u.username username

abbrev pub has_email : {F : Type 0} → String → User F → Bool
has_email email u = str_eq u.email email

abbrev pub has_identity : {F : Type 0} → String → String → User F → Bool
has_identity provider subject u =
    str_eq u.external_provider provider && str_eq u.external_subject subject

-- `authSource`
abbrev pub stored : {F : Type 0} → User F → User F
stored u = if str_eq u.auth_source "" then record u { auth_source = auth_source_local } else u

-- The unique columns, less the id. NULLs differ from each other.
unfoldable pub taken : {F : Type 0} → User F → User F → Bool
taken u other =
    has_username u.username other
    || has_email u.email other
    || (has_identity u.external_provider u.external_subject other
        && not (str_eq u.external_provider "")
        && not (str_eq u.external_subject ""))

abbrev pub taken_by_other : {F : Type 0} → User F → User F → Bool
taken_by_other u other = not (other.id == u.id) && taken u other

abbrev pub is_active_admin : {F : Type 0} → User F → Bool
is_active_admin u = str_eq u.role role_admin && str_eq u.status status_active

abbrev pub count_where {ℓ} : {A : Type ℓ} → (A → Bool) → List A → ℕ
count_where p [] = 0
count_where p (x ∷ xs) = let rest = count_where p xs in if p x then rest + 1 else rest

module _ {F : Type 0} (given : Given F) where
  abbrev pub called : Accounts F → Accounts F
  called w = record w { calls = w.calls + 1 }

  -- A query, and a transaction, each of one statement.
  unfoldable pub select : {T : Type 0} → (List (User F) → Result T) → Effect (Accounts F) T
  select read w = elim (given.fault w.calls) [
    | some e ↦ (err e, called w)
    | none ↦ (read w.users, called w)
  ]

  abbrev pub written : Accounts F → Result (List (User F)) → Result (Unit {0}) × Accounts F
  written w (err e) = (err e, w)
  written w (ok users) = (ok tt, record w { users = users })

  unfoldable pub execute : (List (User F) → Result (List (User F))) → Effect (Accounts F) (Unit {0})
  execute write w = elim (given.fault w.calls) [
    | some e ↦ (err e, called w)
    | none ↦ written (called w) (write w.users)
  ]

  abbrev pub fits : User F → List (User F) → Result (List (User F))
  fits u users = elim (given.refuses u) [ some e ↦ err e | none ↦ ok users ]

  unfoldable pub insert_user : User F → List (User F) → Result (List (User F))
  insert_user u users =
      if any (has_id u.id) users || any (taken u) users
      then err (sentinel already_exists)
      else fits u (stored u ∷ users)

  unfoldable pub change_user : User F → List (User F) → Result (List (User F))
  change_user u users =
      if not (any (has_id u.id) users)
      then err (sentinel not_found)
      else if any (taken_by_other u) users
      then err (sentinel already_exists)
      else fits u (update_where (has_id u.id) (λ _. stored u) users)

  unfoldable pub save_user : User F → Effect (Accounts F) (Unit {0})
  save_user u = execute (insert_user u)

  unfoldable pub update_user_row : User F → Effect (Accounts F) (Unit {0})
  update_user_row u = execute (change_user u)

  unfoldable pub get_user_by_id : ℕ → Effect (Accounts F) (User F)
  get_user_by_id id = select (λ users. or_not_found (find_where (has_id id) users))

  unfoldable pub get_user_by_username : String → Effect (Accounts F) (User F)
  get_user_by_username username =
      select (λ users. or_not_found (find_where (has_username username) users))

  unfoldable pub get_user_by_email : String → Effect (Accounts F) (User F)
  get_user_by_email email = select (λ users. or_not_found (find_where (has_email email) users))

  unfoldable pub get_user_by_external_identity : String → String → Effect (Accounts F) (User F)
  get_user_by_external_identity provider subject =
      select (λ users. or_not_found (find_where (has_identity provider subject) users))

  unfoldable pub count_active_admins : Effect (Accounts F) ℕ
  count_active_admins = select (λ users. ok (count_where is_active_admin users))
