-- ===== src/Sso/Oidc.antt =====
-- backend/internal/sso/service/auth.go: the login over OpenID Connect. The random tokens and a new
-- uuid are arguments. A name that is cut inside a character is no text: it is `none`, which the
-- database refuses.
pub mod Administered
pub mod Names
pub mod States
pub mod Single
use docker_cloud_manager.Prelude.{
  ℕ, Bool, true, not, ◌&&◌, ◌||◌, Option, none, some, List, [], ◌∷◌, ◌++◌, map, String, any,
  if◌then◌else◌, ◌==◌,
}
use docker_cloud_manager.Prelude.Int.{ℤ, pos, ◌+ℤ◌, ltb_ℤ}
use docker_cloud_manager.Prelude.Strings.{trim_space}
use docker_cloud_manager.AppErrors.{
  Err, sentinel, new, errorf, foreign, is, bad_request, internal, conflict, already_exists,
  not_found, invalid_credentials, ◌⧺◌,
}
use docker_cloud_manager.Result.{Result, ok, err}
use docker_cloud_manager.Effect.{Effect, return, raise, on}
use docker_cloud_manager.Sso.{
  User, OidcState, OidcIdentity, AuthConfig, Accounts, Given, role_user, role_admin, status_active,
  auth_source_oidc, save_user, update_user_row, get_user_by_username, get_user_by_email,
  get_user_by_external_identity,
}
use docker_cloud_manager.Sso.Oidc.Names.{
  first_non_empty, normalize_external_username, normalize_external_email, oidc_fallback_email,
  short_subject_suffix, suffixed,
}
use docker_cloud_manager.Sso.Oidc.States.{oidc_available, consume_oidc_state}
use docker_cloud_manager.Sso.Users.{valid_role, ensure_not_last_active_admin}
use text.Mathlib.Text.{◌==◌ as str_eq}

abbrev pub non_empty : String → Bool
non_empty s = not (str_eq s "")

module _ {F : Type 0} (given : Given F) (cfg : AuthConfig) where
  unfoldable pub role_for_oidc_identity : OidcIdentity → String
  role_for_oidc_identity identity =
      let admin_group : String → Bool = λ value.
        any (λ group. str_eq (trim_space group) value && non_empty (trim_space group))
          cfg.oidc_admin_groups in
      if any admin_group (identity.groups ++ identity.realm_roles)
      then role_admin
      else if valid_role cfg.oidc_default_role
      then cfg.oidc_default_role
      else role_user

  -- The name itself where nobody else has it, else what follows.
  unfoldable pub free_name :
      ℕ → Option String → Effect (Accounts F) String → Effect (Accounts F) String
  free_name current_user_id none next = raise (
      errorf "failed to check oidc username: "
        (foreign "pq: invalid byte sequence for encoding \"UTF8\"") "")
  free_name current_user_id (some name) next =
      on (get_user_by_username given name)
        (λ e.
          if is e not_found
          then return name
          else raise (errorf "failed to check oidc username: " e ""))
        λ user. if user.id == current_user_id then return name else next

  unfoldable pub resolve_oidc_username :
      ℕ → String → Option String → String → Effect (Accounts F) String
  resolve_oidc_username current_user_id current_username base subject =
      free_name current_user_id base (
        free_name current_user_id (suffixed given base subject) (
          if non_empty current_username
          then return current_username
          else raise (new (sentinel conflict) "oidc username already exists")))

  unfoldable pub fallback_email : ℕ → String → String → Effect (Accounts F) String
  fallback_email current_user_id provider subject =
      let email = oidc_fallback_email given provider subject in
      on (get_user_by_email given email)
        (λ e.
          if is e not_found
          then return email
          else raise (errorf "failed to check oidc fallback email: " e ""))
        λ user.
          if user.id == current_user_id
          then return email
          else raise (new (sentinel conflict) "oidc fallback email already exists")

  unfoldable pub resolve_oidc_email : ℕ → String → String → String → Effect (Accounts F) String
  resolve_oidc_email current_user_id provider subject upstream_email =
      let email = normalize_external_email given upstream_email in
      let fallback = fallback_email current_user_id provider subject in
      if not (non_empty email)
      then fallback
      else on (get_user_by_email given email)
          (λ e.
            if is e not_found
            then return email
            else raise (errorf "failed to check oidc email: " e ""))
          λ user. if user.id == current_user_id then return email else fallback

  abbrev pub oidc_taken : String → Err → Err
  oidc_taken text e =
      if is e already_exists
      then new (sentinel conflict) "oidc user email or username already exists"
      else errorf text e ""

  -- The fields of an account that a login writes.
  abbrev pub with_identity : String → OidcIdentity → String → String → User F → User F
  with_identity provider identity username email user = record user {
    username = username;
    email = email;
    role = role_for_oidc_identity identity;
    auth_source = auth_source_oidc;
    external_provider = provider;
    external_subject = identity.subject;
    external_username = first_non_empty (identity.username ∷ identity.preferred_username ∷ []);
    last_login_at = some given.now;
  }

  unfoldable pub write_again :
      String → OidcIdentity → User F → String → String → Effect (Accounts F) (User F)
  write_again provider identity existing username email =
      let changed = with_identity provider identity username email existing in
      on
        (ensure_not_last_active_admin given existing (role_for_oidc_identity identity)
          existing.status)
        raise
        λ _.
          on (update_user_row given changed)
            (λ e. raise (oidc_taken "failed to update oidc user: " e)) λ _. return changed

  unfoldable pub login_again :
      String → OidcIdentity → Option String → User F → Effect (Accounts F) (User F)
  login_again provider identity base existing =
      on (resolve_oidc_username existing.id existing.username base identity.subject) raise
        λ username.
          on (resolve_oidc_email existing.id provider identity.subject identity.email) raise
            (write_again provider identity existing username)

  abbrev pub new_oidc_user : ℕ → User F
  new_oidc_user id = record {
    id = id;
    username = "";
    email = "";
    password_hash = "";
    role = role_user;
    status = status_active;
    quota_cpu = given.default_quota_cpu;
    quota_ram_mb = pos 2048;
    quota_disk_mb = pos 5120;
    auth_source = auth_source_oidc;
    external_provider = "";
    external_subject = "";
    external_username = "";
    last_login_at = none;
  }

  unfoldable pub write_first :
      ℕ → String → OidcIdentity → String → String → Effect (Accounts F) (User F)
  write_first new_id provider identity username email =
      let user = with_identity provider identity username email (new_oidc_user new_id) in
      on (save_user given user) (λ e. raise (oidc_taken "failed to save oidc user: " e))
        λ _. return user

  unfoldable pub login_first :
      ℕ → String → OidcIdentity → Option String → Effect (Accounts F) (User F)
  login_first new_id provider identity base =
      on (resolve_oidc_username new_id "" base identity.subject) raise λ username.
        on (resolve_oidc_email new_id provider identity.subject identity.email) raise
          (write_first new_id provider identity username)

  unfoldable pub provision_oidc_user : ℕ → String → OidcIdentity → Effect (Accounts F) (User F)
  provision_oidc_user new_id provider identity =
      if str_eq (trim_space identity.subject) ""
      then raise (sentinel invalid_credentials)
      else let base =
          normalize_external_username given identity.username identity.preferred_username
            identity.subject in
        on (get_user_by_external_identity given provider identity.subject)
          (λ e.
            if is e not_found
            then login_first new_id provider identity base
            else raise (errorf "failed to get oidc user: " e ""))
          (login_again provider identity base)

  -- The access token, the refresh token, and where to go on.
  unfoldable pub issue_tokens : String → User F → Effect (Accounts F) (String × String × String)
  issue_tokens redirect_after user =
      if not (str_eq user.status status_active)
      then raise (sentinel invalid_credentials)
      else elim (given.generate_tokens user) [
        | none ↦ raise (sentinel internal)
        | some (access, refresh) ↦ return (access, refresh, redirect_after)
      ]

  -- With the state that the callback has consumed.
  unfoldable pub login_with_state :
      ℕ → String → String → OidcState → Effect (Accounts F) (String × String × String)
  login_with_state new_id provider code oidc_state w =
      elim (given.exchange_code code oidc_state.nonce) [
        | err e ↦ raise e w
        | ok identity ↦
            on (provision_oidc_user new_id provider identity) raise
              (issue_tokens oidc_state.redirect_after) w
      ]

  unfoldable pub complete_oidc_callback :
      ℕ → String → String → String → String → Effect (Accounts F) (String × String × String)
  complete_oidc_callback new_id provider code state state_binding =
      if not (oidc_available given cfg provider)
      then raise (sentinel not_found)
      else if str_eq (trim_space code) ""
          || str_eq (trim_space state) ""
          || str_eq (trim_space state_binding) ""
      then raise (sentinel bad_request)
      else on (consume_oidc_state given provider state state_binding) raise
          (login_with_state new_id provider code)
