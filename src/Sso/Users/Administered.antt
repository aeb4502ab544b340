-- ===== src/Sso/Users/Administered.antt =====
-- No request of backend/internal/sso/service/auth.go takes the last active administrator away.
use docker_cloud_manager.Prelude.{
  ℕ, ◌≡◌, refl, Bool, true, false, not, some, List, String, if◌then◌else◌, Bool-cases, Option-cases,
  inl, inr,
}
use docker_cloud_manager.AppErrors.{Err, is, already_exists}
use docker_cloud_manager.Result.{Result, ok, err}
use docker_cloud_manager.Effect.{Effect, raise, go_on}
use docker_cloud_manager.Tables.{find_where}
use docker_cloud_manager.Sso.{
  User, AuthConfig, Accounts, Given, role_admin, status_active, status_deactivated, has_id,
}
use docker_cloud_manager.Sso.Rows.{IsSafe}
use docker_cloud_manager.Sso.Users.{
  UserInput, validate_user_input, register, create_user, update_user, write_updated,
  deactivate_user, reactivate_user, with_hash, with_input, validated,
}
use docker_cloud_manager.Sso.Users.Checks.{
  Stays, with_user-Stays, ensured-Stays, row-Stays, save-Stays,
}
use text.Mathlib.Text.{◌==◌ as str_eq}

module _ {F : Type 0} (given : Given F) where
  -- While an active administrator exists and no two accounts share an id, an active administrator
  -- exists after the deactivation of any account, whichever calls of the database fail.
  pub deactivate_user-IsAdministered :
      (id : ℕ) (w : Accounts F) → Stays given w → Stays given (deactivate_user given id w).1
  unfolding deactivate_user
  deactivate_user-IsAdministered id w h = with_user-Stays given id _ w h λ u v hv found.
      let next : User F = record u { status = status_deactivated } in
      ensured-Stays given u next _ v hv found
        λ x hx found' safe. row-Stays given next u _ _ x hx found' safe (λ _ _ k. k) (λ _ k. k)

  -- An account that becomes active loses nothing.
  active-IsSafe :
      (current next : User F) (users : List (User F))
      → next.role ≡ current.role
      → next.status ≡ status_active
      → IsSafe current next users
  active-IsSafe current next users same active =
      elim (Bool-cases (str_eq current.role role_admin)) [
        | inl admin ↦ inr (inl (rw same (rw active (rw admin refl))))
        | inr other ↦ inl (rw other refl)
      ]

  pub reactivate_user-Stays :
      (id : ℕ) (w : Accounts F) → Stays given w → Stays given (reactivate_user given id w).1
  unfolding reactivate_user
  reactivate_user-Stays id w h = with_user-Stays given id _ w h λ u v hv found.
      let next : User F = record u { status = status_active } in
      row-Stays given next u _ _ v hv found (active-IsSafe u next v.users refl refl) (λ _ _ k. k)
        (λ _ k. k)

  hashed-Stays :
      {T : Type 0} (password : String) (next : String → Effect (Accounts F) T) (w : Accounts F)
      → Stays given w
      → ((hash : String) → Stays given (next hash w).1)
      → Stays given (with_hash given password next w).1
  hashed-Stays password next w h good = elim (Option-cases (given.hash_password password)) [
    | inl none_made ↦ rw (none_made, with_hash) h
    | inr (hash, made) ↦ rw (made, with_hash) (good hash)
  ]

  -- One of two errors is returned.
  either-Stays :
      (T : Type 0) (b : Bool) (d e : Err) (w : Accounts F)
      → Stays given w
      → Stays given ((if b then raise {T = T} d else raise e) w).1
  either-Stays T true d e w h = h
  either-Stays T false d e w h = h

  validated-Stays :
      {T : Type 0} (input : UserInput F) (next : Effect (Accounts F) T) (w : Accounts F)
      → Stays given w
      → Stays given (next w).1
      → Stays given (validated given input next w).1
  validated-Stays input next w h good = go (validate_user_input given input)
    where
      go : (r : Result (Unit {0})) → Stays given (go_on raise (λ _. next) (r, w)).1
      go (err e) = h
      go (ok _) = good

  pub register-Stays :
      (cfg : AuthConfig) (id : ℕ) (username email password : String) (w : Accounts F)
      → Stays given w
      → Stays given (register given cfg id username email password w).1
  unfolding register
  register-Stays cfg id username email password w h =
      elim (Bool-cases (not cfg.local_register_enabled)) [
        | inl off ↦ rw off h
        | inr open_for_all ↦ rw open_for_all (
            hashed-Stays password _ w h λ hash.
              save-Stays given _ _ _ w h (λ e v. either-Stays _ (is e already_exists) _ _ v)
                (λ _ k. k))
      ]

  pub create_user-Stays :
      (id : ℕ) (input : UserInput F) (w : Accounts F)
      → Stays given w
      → Stays given (create_user given id input w).1
  unfolding create_user
  create_user-Stays id input w h = validated-Stays input _ w h (
      hashed-Stays input.password _ w h λ hash.
        save-Stays given _ _ _ w h (λ e v. either-Stays _ (is e already_exists) _ _ v) (λ _ k. k))

  write_updated-Stays :
      (next current : User F) (w : Accounts F)
      → Stays given w
      → find_where (has_id next.id) w.users ≡ some current
      → IsSafe current next w.users
      → Stays given (write_updated given next w).1
  unfolding write_updated
  write_updated-Stays next current w h found safe =
      row-Stays given next current _ _ w h found safe
        (λ e v. either-Stays _ (is e already_exists) _ _ v) (λ _ k. k)

  pub update_user-Stays :
      (id : ℕ) (input : UserInput F) (w : Accounts F)
      → Stays given w
      → Stays given (update_user given id input w).1
  unfolding update_user
  update_user-Stays id input w h = validated-Stays input _ w h (
      with_user-Stays given id _ w h λ u v hv found.
        ensured-Stays given u (with_input given input u) _ v hv found λ x hx found' safe.
          elim (Bool-cases (str_eq input.password "")) [
            | inl kept ↦ rw kept (write_updated-Stays (with_input given input u) u x hx found' safe)
            | inr changed ↦ rw changed (
                hashed-Stays input.password _ x hx λ hash.
                  write_updated-Stays (record (with_input given input u) { password_hash = hash }) u
                    x hx found' safe)
          ])
