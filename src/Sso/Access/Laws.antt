-- ===== src/Sso/Access/Laws.antt =====
-- What the answers of VerifyAccessToken, CheckPermission and Login of
-- backend/internal/sso/service/auth.go mean, where the database answers.
use docker_cloud_manager.Prelude.{
  ℕ, ◌≡◌, refl, sym, ap, ◌∙◌, ◌↔◌, Bool, true, false, none, some, String, Bool-cases, Option-cases,
  inl, inr, ◌⊎◌, ◌≢◌, not, ◌&&◌,
}
use docker_cloud_manager.AppErrors.{sentinel, is, invalid_credentials}
use docker_cloud_manager.Result.{Result, ok, err}
use docker_cloud_manager.Effect.{raise, return, go_on}
use docker_cloud_manager.Tables.{find_where}
use docker_cloud_manager.Sso.{
  User, AuthConfig, Accounts, Given, role_admin, role_user, status_active, auth_source_local,
  has_id, has_username, select, get_user_by_id, get_user_by_username, called,
}
use docker_cloud_manager.Sso.Access.{
  allowed, permission_exists, all_permissions, admin_permissions, role_permissions, active_user,
  verify_access_token, check_permission, login,
}
use text.Mathlib.TextEquality.{eq_iff}
use text.Mathlib.Text.{◌==◌ as str_eq}

-- A text that differs from two others is found to.
elsewhere_not :
    (source : String)
    → (source ≢ "")
    → (source ≢ auth_source_local)
    → (not (str_eq source "") && not (str_eq source auth_source_local)) ≡ false
    → ⊥
elsewhere_not source named elsewhere local = elim (Bool-cases (str_eq source "")) [
  | inl e ↦ named ((eq_iff source "").0 e)
  | inr n ↦ elim (Bool-cases (str_eq source auth_source_local)) [
    | inl e ↦ elsewhere ((eq_iff source auth_source_local).0 e)
    | inr m ↦ (λ (c : ⊥). c) (let e = rw m at (rw n at local) in cc)
  ]
]

module _ {F : Type 0} (given : Given F) where
  -- The token is that of the account, which is active.
  abbrev pub Speaks : String → User F → Accounts F → Type 0
  Speaks token user w =
      (id : ℕ) × (given.validate_access_token token ≡ some id)
      × (find_where (has_id id) w.users ≡ some user)
      × (str_eq user.status status_active ≡ true)

  -- Why a name and a password do not fit an account.
  pub data Misfit (password : String) (user : User F) : Type 0 where
    inactive : (user.status ≢ status_active) → Misfit password user
    external :
        (user.auth_source ≢ "") → (user.auth_source ≢ auth_source_local) → Misfit password user
    wrong_password :
        given.password_matches user.password_hash password ≡ false → Misfit password user

  -- No account has the name, or the account that has it does not fit.
  abbrev pub IsRefused : String → String → Accounts F → Type 0
  IsRefused username password w =
      (find_where (has_username username) w.users ≡ none)
      ⊎ ((user : User F) × (find_where (has_username username) w.users ≡ some user)
          × Misfit password user)

  Misfit-refused :
      (cfg : AuthConfig) (username password : String) (w : Accounts F) (user : User F)
      → cfg.local_login_enabled ≡ true
      → given.fault w.calls ≡ none
      → find_where (has_username username) w.users ≡ some user
      → Misfit password user
      → login given cfg username password w ≡ (err (sentinel invalid_credentials), called given w)
  unfolding login get_user_by_username select
  Misfit-refused cfg username password w user on_site answers known misfit = rw on_site (
      rw (answers, select)
        (rw known (elim (Bool-cases (str_eq user.status status_active)) [
          | inr idle ↦ rw idle refl
          | inl active ↦
              rw active
                (elim (Bool-cases (
                  not (str_eq user.auth_source "")
                  && not (str_eq user.auth_source auth_source_local))) [
                    | inl foreign ↦ rw foreign refl
                    | inr local ↦
                        rw local
                          (elim (Bool-cases (given.password_matches user.password_hash password)) [
                            | inr wrong ↦ rw wrong refl
                            | inl right ↦ absurd (fits misfit active local right)
                          ])
                  ])
        ])))
    where
      fits :
          Misfit password user
          → str_eq user.status status_active ≡ true
          → (not (str_eq user.auth_source "") && not (str_eq user.auth_source auth_source_local))
            ≡ false
          → given.password_matches user.password_hash password ≡ true
          → ⊥
      fits (inactive other) active local right = other ((eq_iff user.status status_active).0 active)
      fits (external named elsewhere) active local right =
          elsewhere_not (user.auth_source) named elsewhere local
      fits (wrong_password wrong) active local right = cc

  -- Where local logins are enabled and the database answers, a login fails with one and the same
  -- error, and changes nothing, whether no account has the name, or the account that has it is not
  -- active, or belongs to another provider, or has another password.
  pub login-refused :
      (cfg : AuthConfig) (username password : String) (w : Accounts F)
      → cfg.local_login_enabled ≡ true
      → given.fault w.calls ≡ none
      → IsRefused username password w
      → login given cfg username password w ≡ (err (sentinel invalid_credentials), called given w)
  unfolding login get_user_by_username select is
  login-refused cfg username password w on_site answers (inl unknown) =
      rw on_site (rw (answers, select) (rw unknown refl))
  login-refused cfg username password w on_site answers (inr (user, known, misfit)) =
      Misfit-refused cfg username password w user on_site answers known misfit

  verify-Speaks :
      (token : String) (user : User F) (w : Accounts F)
      → given.fault w.calls ≡ none
      → Speaks token user w
      → verify_access_token given token w ≡ (ok user, called given w)
  unfolding verify_access_token active_user get_user_by_id select
  verify-Speaks token user w answers (id, valid, found, active) =
      rw (valid, active_user) (rw (answers, select) (rw found (rw active refl)))

  -- Whoever the service takes the token for.
  Speaks-verified :
      (token : String) (user : User F) (w v : Accounts F)
      → given.fault w.calls ≡ none
      → verify_access_token given token w ≡ (ok user, v)
      → Speaks token user w
  unfolding verify_access_token active_user get_user_by_id select
  Speaks-verified token user w v answers h =
      elim (Option-cases (given.validate_access_token token)) [
        | inl bad ↦ let e = rw (bad, active_user) at h in absurd ((λ (c : ⊥). c) cc)
        | inr (id, valid) ↦ elim (Option-cases (find_where (has_id id) w.users)) [
          | inl gone ↦
              let e = rw gone at (rw (answers, select) at (rw (valid, active_user) at h)) in
              absurd ((λ (c : ⊥). c) cc)
          | inr (u, found) ↦ elim (Bool-cases (str_eq u.status status_active)) [
            | inr idle ↦
                let e =
                  rw idle at
                    (rw found at (rw (answers, select) at (rw (valid, active_user) at h))) in
                absurd ((λ (c : ⊥). c) cc)
            | inl active ↦
                let e =
                  rw active at
                    (rw found at (rw (answers, select) at (rw (valid, active_user) at h))) in
                let same : u ≡ user = cc in
                (
                  id,
                  valid,
                  found ∙ ap some same,
                  sym (ap (λ x. str_eq x.status status_active) same) ∙ active,
                )
          ]
        ]
      ]

  -- Administrators have every permission there is, and nobody else has one.
  allowed-admin :
      (permission : String) (user : User F)
      → permission_exists permission ≡ true
      → allowed permission user ≡ str_eq user.role role_admin
  unfolding allowed role_permissions permission_exists all_permissions admin_permissions
  allowed-admin permission user there = elim (Bool-cases (str_eq user.role role_admin)) [
    | inl admin ↦ rw admin there
    | inr other ↦ rw other (elim (Bool-cases (str_eq user.role role_user)) [
      | inl plain ↦ rw plain refl
      | inr unknown ↦ rw unknown refl
    ])
  ]

  -- Where the database answers, CheckPermission says that an account is allowed to do something
  -- exactly if there is such a permission, the token is that of the account, and the account is
  -- an active administrator.
  pub check_permission_iff :
      (token permission : String) (user : User F) (w : Accounts F)
      → given.fault w.calls ≡ none
      → ((check_permission given token permission w).0 ≡ ok (user, true)) ↔ (
          (permission_exists permission ≡ true)
          × Speaks token user w
          × (str_eq user.role role_admin ≡ true))
  unfolding check_permission
  check_permission_iff token permission user w answers = (forward, backward)
    where
      backward :
          (permission_exists permission ≡ true)
            × Speaks token user w
            × (str_eq user.role role_admin ≡ true)
          → (check_permission given token permission w).0 ≡ ok (user, true)
      backward (there, speaks, admin) = rw there (
          rw (verify-Speaks token user w answers speaks)
            (rw (allowed-admin permission user there) (rw admin refl)))

      go :
          (r : Result (User F) × Accounts F)
          → verify_access_token given token w ≡ r
          → permission_exists permission ≡ true
          → (go_on {U = User F × Bool} raise (λ u. return (u, allowed permission u)) r).0
            ≡ ok (user, true)
          → Speaks token user w × (str_eq user.role role_admin ≡ true)
      go (err e, v) made there h = absurd ((λ (c : ⊥). c) cc)
      go (ok u, v) made there h =
          let who : u ≡ user = cc in
          let what : allowed permission u ≡ true = cc in
          (
            Speaks-verified token user w v answers (made ∙ ap (λ x. (ok x, v)) who),
            sym (allowed-admin permission user there) ∙ ap (allowed permission) (sym who) ∙ what,
          )

      forward :
          (check_permission given token permission w).0 ≡ ok (user, true)
          → (permission_exists permission ≡ true)
            × Speaks token user w
            × (str_eq user.role role_admin ≡ true)
      forward h = elim (Bool-cases (permission_exists permission)) [
        | inr gone ↦ absurd ((λ (c : ⊥). c) (let e = rw gone at h in cc))
        | inl there ↦
            let (speaks, admin) =
              go (verify_access_token given token w) refl there (rw there at h) in
            (there, speaks, admin)
      ]
