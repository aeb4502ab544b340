-- ===== src/Sso/Access.antt =====
-- backend/internal/sso/service/auth.go: who a token stands for, and what its owner may do; and
-- backend/pkg/permissions/permissions.go.
pub mod Laws
use docker_cloud_manager.Prelude.{
  ℕ, Bool, false, not, ◌&&◌, ◌||◌, Option, none, some, List, [], ◌∷◌, String, any, if◌then◌else◌,
}
use docker_cloud_manager.AppErrors.{
  Err, sentinel, is, bad_request, internal, not_found, invalid_credentials, invalid_token,
}
use docker_cloud_manager.Effect.{Effect, return, raise, on}
use docker_cloud_manager.Sso.{
  User, AuthConfig, Accounts, Given, role_user, role_admin, status_active, auth_source_local,
  get_user_by_id, get_user_by_username,
}
use text.Mathlib.Text.{◌==◌ as str_eq}

-- `all` of package permissions
unfoldable pub all_permissions : List String
all_permissions =
    "system.config.read" ∷ "system.config.update" ∷ "system.monitoring.read" ∷ "reports.admin.read"
    ∷ "containers.admin.list" ∷ "containers.admin.action" ∷ "containers.admin.stats"
    ∷ "containers.admin.logs" ∷ "containers.admin.terminal" ∷ "volumes.admin.list"
    ∷ "volumes.admin.delete" ∷ "images.admin.list" ∷ "images.admin.delete" ∷ "builds.admin.list"
    ∷ "builds.admin.delete" ∷ "projects.admin.list" ∷ "projects.admin.delete"
    ∷ "projects.admin.start" ∷ "projects.admin.stop" ∷ "users.admin.list" ∷ "users.admin.read"
    ∷ "users.admin.create" ∷ "users.admin.update" ∷ "users.admin.delete" ∷ []

-- `rolePermissions[model.RoleAdmin]`
unfoldable pub admin_permissions : List String
admin_permissions =
    "system.config.read" ∷ "system.config.update" ∷ "system.monitoring.read" ∷ "reports.admin.read"
    ∷ "containers.admin.list" ∷ "containers.admin.action" ∷ "containers.admin.stats"
    ∷ "containers.admin.logs" ∷ "containers.admin.terminal" ∷ "volumes.admin.list"
    ∷ "volumes.admin.delete" ∷ "images.admin.list" ∷ "images.admin.delete" ∷ "builds.admin.list"
    ∷ "builds.admin.delete" ∷ "projects.admin.list" ∷ "projects.admin.delete"
    ∷ "projects.admin.start" ∷ "projects.admin.stop" ∷ "users.admin.list" ∷ "users.admin.read"
    ∷ "users.admin.create" ∷ "users.admin.update" ∷ "users.admin.delete" ∷ []

abbrev pub has : String → List String → Bool
has key keys = any (str_eq key) keys

-- permissions.Exists
unfoldable pub permission_exists : String → Bool
permission_exists permission = has permission all_permissions

-- `rolePermissions[role]`, of a role that it has
unfoldable pub role_permissions : String → Option (List String)
role_permissions role =
    if str_eq role role_admin
    then some admin_permissions
    else if str_eq role role_user
    then some []
    else none

-- `permissions, ok := rolePermissions[user.Role]; …; _, allowed := permissions[permission]`
abbrev pub allowed_among : String → Option (List String) → Bool
allowed_among permission none = false
allowed_among permission (some permissions) = has permission permissions

unfoldable pub allowed : {F : Type 0} → String → User F → Bool
allowed permission user = allowed_among permission (role_permissions user.role)

module _ {F : Type 0} (given : Given F) where
  -- The active account of an id; all else is the error of a bad token.
  unfoldable pub active_user : Option ℕ → Effect (Accounts F) (User F)
  active_user none = raise (sentinel invalid_token)
  active_user (some user_id) =
      on (get_user_by_id given user_id) (λ _. raise (sentinel invalid_token))
        λ user.
          if not (str_eq user.status status_active)
          then raise (sentinel invalid_token)
          else return user

  unfoldable pub verify_access_token : String → Effect (Accounts F) (User F)
  verify_access_token access_token = active_user (given.validate_access_token access_token)

  unfoldable pub check_permission : String → String → Effect (Accounts F) (User F × Bool)
  check_permission access_token permission =
      if not (permission_exists permission)
      then raise (sentinel bad_request)
      else on (verify_access_token access_token) raise
          λ user. return (user, allowed permission user)

  abbrev pub tokens_of : User F → Effect (Accounts F) (String × String)
  tokens_of user = elim (given.generate_tokens user) [
    | none ↦ raise (sentinel internal)
    | some tokens ↦ return tokens
  ]

  unfoldable pub refresh : String → Effect (Accounts F) (String × String)
  refresh refresh_token =
      on (active_user (given.validate_refresh_token refresh_token)) raise tokens_of

  unfoldable pub login : AuthConfig → String → String → Effect (Accounts F) (String × String)
  login cfg username password =
      if not cfg.local_login_enabled
      then raise (sentinel not_found)
      else on (get_user_by_username given username)
          (λ e.
            if is e not_found
            then raise (sentinel invalid_credentials)
            else raise (sentinel internal))
          λ user.
            if not (str_eq user.status status_active)
            then raise (sentinel invalid_credentials)
            else if not (str_eq user.auth_source "")
                && not (str_eq user.auth_source auth_source_local)
            then raise (sentinel invalid_credentials)
            else if not (given.password_matches user.password_hash password)
            then raise (sentinel invalid_credentials)
            else tokens_of user
