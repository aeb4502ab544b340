-- ===== src/Sso/Users.antt =====
-- backend/internal/sso/service/auth.go: how accounts are made and changed. A new uuid is an
-- argument.
pub mod Checks
pub mod Administered
use docker_cloud_manager.Prelude.{
  ℕ, Bool, not, ◌&&◌, ◌||◌, Option, none, some, String, if◌then◌else◌, leb,
}
use docker_cloud_manager.Prelude.Int.{ℤ, pos, leb_ℤ}
use docker_cloud_manager.AppErrors.{
  Err, sentinel, new, errorf, is, bad_request, internal, conflict, already_exists, not_found,
}
use docker_cloud_manager.Result.{Result, ok, err}
use docker_cloud_manager.Effect.{Effect, return, raise, on}
use docker_cloud_manager.Sso.{
  User, AuthConfig, Accounts, Given, role_user, role_admin, status_active, status_deactivated,
  auth_source_local, is_active_admin, save_user, update_user_row, get_user_by_id,
  get_user_by_username, count_active_admins,
}
use text.Mathlib.Text.{◌==◌ as str_eq}

-- CreateUserInput and UpdateUserInput, which have the same fields
pub record UserInput (F : Type 0) : Type 0 where
  pub username : String
  pub email : String
  pub password : String
  pub role : String
  pub status : String
  pub quota_cpu : F
  pub quota_ram_mb : ℤ
  pub quota_disk_mb : ℤ

pub record BootstrapAdminConfig : Type 0 where
  pub username : String
  pub email : String
  pub password : String

unfoldable pub valid_role : String → Bool
valid_role role = str_eq role role_admin || str_eq role role_user

unfoldable pub valid_status : String → Bool
valid_status status = str_eq status status_active || str_eq status status_deactivated

module _ {F : Type 0} (given : Given F) where
  unfoldable pub validate_user_input : UserInput F → Result (Unit {0})
  validate_user_input input =
      if not (valid_role input.role)
      then err (new (sentinel bad_request) "role must be one of: admin, user")
      else if not (valid_status input.status)
      then err (new (sentinel bad_request) "status must be one of: active, deactivated")
      else if given.not_positive input.quota_cpu
          || leb_ℤ input.quota_ram_mb (pos 0)
          || leb_ℤ input.quota_disk_mb (pos 0)
      then err (new (sentinel bad_request) "quotas must be positive")
      else ok tt

  abbrev pub validated : {T : Type 0} → UserInput F → Effect (Accounts F) T → Effect (Accounts F) T
  validated input next = on (λ w. (validate_user_input input, w)) raise (λ _. next)

  -- The check before an account gets a role and a status.
  unfoldable pub ensure_not_last_active_admin :
      User F → String → String → Effect (Accounts F) (Unit {0})
  ensure_not_last_active_admin current next_role next_status =
      if not (str_eq current.role role_admin) || not (str_eq current.status status_active)
      then return tt
      else if str_eq next_role role_admin && str_eq next_status status_active
      then return tt
      else on (count_active_admins given)
          (λ e. raise (errorf "failed to count active admins: " e ""))
          λ count.
            if leb count 1
            then raise (new (sentinel conflict) "cannot deactivate or demote the last active admin")
            else return tt

  -- An account of the service itself, with the default quotas.
  abbrev pub local_user : ℕ → String → String → String → String → User F
  local_user id username email hash role = record {
    id = id;
    username = username;
    email = email;
    password_hash = hash;
    role = role;
    status = status_active;
    quota_cpu = given.default_quota_cpu;
    quota_ram_mb = pos 2048;
    quota_disk_mb = pos 5120;
    auth_source = auth_source_local;
    external_provider = "";
    external_subject = "";
    external_username = "";
    last_login_at = none;
  }

  -- bcrypt.GenerateFromPassword, whose error becomes ErrInternal
  abbrev pub with_hash :
      {T : Type 0} → String → (String → Effect (Accounts F) T) → Effect (Accounts F) T
  with_hash password next = elim (given.hash_password password) [
    | none ↦ raise (sentinel internal)
    | some hash ↦ next hash
  ]

  unfoldable pub register : AuthConfig → ℕ → String → String → String → Effect (Accounts F) ℕ
  register cfg new_id username email password =
      if not cfg.local_register_enabled
      then raise (sentinel not_found)
      else with_hash password λ hash.
        on (save_user given (local_user new_id username email hash role_user))
          (λ e.
            if is e already_exists
            then raise (sentinel already_exists)
            else raise (sentinel internal))
          λ _. return new_id

  unfoldable pub create_user : ℕ → UserInput F → Effect (Accounts F) (User F)
  create_user new_id input = validated input (
      with_hash input.password λ hash.
        let user = record (local_user new_id input.username input.email hash input.role) {
          status = input.status;
          quota_cpu = input.quota_cpu;
          quota_ram_mb = input.quota_ram_mb;
          quota_disk_mb = input.quota_disk_mb;
        } in
        on (save_user given user)
          (λ e.
            if is e already_exists
            then raise (sentinel already_exists)
            else raise (errorf "failed to create user: " e ""))
          λ _. return user)

  -- The fields that UpdateUser sets before the password.
  abbrev pub with_input : UserInput F → User F → User F
  with_input input user = record user {
    username = input.username;
    email = input.email;
    role = input.role;
    status = input.status;
    quota_cpu = input.quota_cpu;
    quota_ram_mb = input.quota_ram_mb;
    quota_disk_mb = input.quota_disk_mb;
  }

  unfoldable pub write_updated : User F → Effect (Accounts F) (User F)
  write_updated user =
      on (update_user_row given user)
        (λ e.
          if is e already_exists
          then raise (sentinel already_exists)
          else raise (errorf "failed to update user: " e ""))
        λ _. return user

  unfoldable pub update_user : ℕ → UserInput F → Effect (Accounts F) (User F)
  update_user user_id input = validated input (
      on (get_user_by_id given user_id) raise λ user.
        on (ensure_not_last_active_admin user input.role input.status) raise λ _.
          let changed = with_input input user in
          if str_eq input.password ""
          then write_updated changed
          else with_hash input.password
              λ hash. write_updated (record changed { password_hash = hash }))

  unfoldable pub deactivate_user : ℕ → Effect (Accounts F) (User F)
  deactivate_user user_id = on (get_user_by_id given user_id) raise λ user.
      on (ensure_not_last_active_admin user user.role status_deactivated) raise λ _.
        let changed = record user { status = status_deactivated } in
        on (update_user_row given changed) (λ e. raise (errorf "failed to deactivate user: " e ""))
          λ _. return changed

  unfoldable pub reactivate_user : ℕ → Effect (Accounts F) (User F)
  reactivate_user user_id = on (get_user_by_id given user_id) raise λ user.
      let changed = record user { status = status_active } in
      on (update_user_row given changed) (λ e. raise (errorf "failed to reactivate user: " e ""))
        λ _. return changed

  -- The administrator of the configuration exists: made active, or made.
  unfoldable pub activate_existing : User F → Effect (Accounts F) (Unit {0})
  activate_existing existing =
      if str_eq existing.role role_admin
      then if not (str_eq existing.status status_active)
        then on (update_user_row given (record existing { status = status_active }))
            (λ e. raise (errorf "failed to activate bootstrap admin: " e "")) return
        else return tt
      else raise
          (new (sentinel conflict) "bootstrap admin username already exists with non-admin role")

  unfoldable pub make_bootstrap_admin : ℕ → BootstrapAdminConfig → Effect (Accounts F) (Unit {0})
  make_bootstrap_admin new_id cfg = with_hash cfg.password λ hash.
      on (save_user given (local_user new_id cfg.username cfg.email hash role_admin))
        (λ e.
          if is e already_exists
          then raise (new (sentinel conflict) "bootstrap admin email or username already exists")
          else raise (errorf "failed to save bootstrap admin: " e ""))
        return

  unfoldable pub ensure_bootstrap_admin : ℕ → BootstrapAdminConfig → Effect (Accounts F) (Unit {0})
  ensure_bootstrap_admin new_id cfg =
      on (get_user_by_username given cfg.username)
        (λ e.
          if is e not_found
          then make_bootstrap_admin new_id cfg
          else raise (errorf "failed to check bootstrap admin: " e ""))
        activate_existing
