-- ===== src/Sso/Oidc/Administered.antt =====
-- A login over OpenID Connect does not take the last active administrator away.
use docker_cloud_manager.Prelude.{
  ℕ, ◌≡◌, refl, sym, ap, ◌∙◌, Bool, true, false, not, ◌||◌, Option, none, some, List, String,
  if◌then◌else◌, Bool-cases, Option-cases, inl, inr, ◌==◌,
}
use mathlib.Core.Path.{subst}
use docker_cloud_manager.AppErrors.{Err, is, not_found}
use docker_cloud_manager.Result.{Result, ok, err}
use docker_cloud_manager.Effect.{Effect, return, raise, on, on-holds}
use docker_cloud_manager.Tables.{find_where, or_not_found}
use docker_cloud_manager.Prelude.Strings.{trim_space}
use docker_cloud_manager.Sso.{
  User, OidcState, OidcIdentity, AuthConfig, Accounts, Given, status_active, has_id, has_identity,
  update_user_row, select, get_user_by_username, get_user_by_email, get_user_by_external_identity,
}
use docker_cloud_manager.Sso.Rows.{IsAdministered, found_by_id}
use docker_cloud_manager.Sso.Users.Checks.{
  Stays, select-users, select-read, some_of_ok, ensured-Stays, row-Stays, save-Stays,
}
use docker_cloud_manager.Sso.Oidc.Names.{
  normalize_external_username, normalize_external_email, suffixed,
}
use docker_cloud_manager.Sso.Oidc.States.{
  oidc_available, consume_oidc_state, lookup_state, cleanup_expired_states, accepts,
}
use docker_cloud_manager.Sso.Oidc.{
  free_name, resolve_oidc_username, fallback_email, resolve_oidc_email, login_again, login_first,
  provision_oidc_user, complete_oidc_callback, with_identity, non_empty, write_again, write_first,
  issue_tokens, login_with_state, oidc_taken, new_oidc_user,
}
use text.Mathlib.Text.{◌==◌ as str_eq}

module _ {F : Type 0} (given : Given F) (cfg : AuthConfig) where
  -- A call that only reads.
  abbrev OnlyReads : {T : Type 0} → Effect (Accounts F) T → Type 0
  OnlyReads action = (w : Accounts F) → (action w).1.users ≡ w.users

  select-OnlyReads :
      {T U : Type 0} (read : List (User F) → Result T) (failed : Err → Effect (Accounts F) U)
      (next : T → Effect (Accounts F) U)
      → ((e : Err) → OnlyReads (failed e))
      → ((t : T) → OnlyReads (next t))
      → OnlyReads (on (select given read) failed next)
  select-OnlyReads read failed next bad good w =
      on-holds (λ v. v.users ≡ w.users) (select given read) failed next w
        (λ e v same. bad e v ∙ select-users given read (err e) w v same)
        (λ t v same. good t v ∙ select-users given read (ok t) w v same)

  if-OnlyReads :
      {T : Type 0} (b : Bool) (x y : Effect (Accounts F) T)
      → OnlyReads x
      → OnlyReads y
      → OnlyReads (if b then x else y)
  if-OnlyReads true x y h k = h
  if-OnlyReads false x y h k = k

  free_name-OnlyReads :
      (id : ℕ) (name : Option String) (next : Effect (Accounts F) String)
      → OnlyReads next
      → OnlyReads (free_name given cfg id name next)
  unfolding free_name get_user_by_username
  free_name-OnlyReads id none next h w = refl
  free_name-OnlyReads id (some name) next h w =
      select-OnlyReads _ _ _ (λ e. if-OnlyReads (is e not_found) _ _ (λ _. refl) (λ _. refl))
        (λ u. if-OnlyReads (u.id == id) _ _ (λ _. refl) h) w

  resolve_oidc_username-OnlyReads :
      (id : ℕ) (current : String) (base : Option String) (subject : String)
      → OnlyReads (resolve_oidc_username given cfg id current base subject)
  unfolding resolve_oidc_username
  resolve_oidc_username-OnlyReads id current base subject = free_name-OnlyReads id base _ (
      free_name-OnlyReads id (suffixed given base subject) _
        (if-OnlyReads (non_empty current) _ _ (λ _. refl) (λ _. refl)))

  fallback_email-OnlyReads :
      (id : ℕ) (provider subject : String)
      → OnlyReads (fallback_email given cfg id provider subject)
  unfolding fallback_email get_user_by_email
  fallback_email-OnlyReads id provider subject =
      select-OnlyReads _ _ _ (λ e. if-OnlyReads (is e not_found) _ _ (λ _. refl) (λ _. refl))
        (λ u. if-OnlyReads (u.id == id) _ _ (λ _. refl) (λ _. refl))

  resolve_oidc_email-OnlyReads :
      (id : ℕ) (provider subject email : String)
      → OnlyReads (resolve_oidc_email given cfg id provider subject email)
  unfolding resolve_oidc_email get_user_by_email
  resolve_oidc_email-OnlyReads id provider subject email =
      let fallback = fallback_email-OnlyReads id provider subject in
      if-OnlyReads (not (non_empty (normalize_external_email given email))) _ _ fallback (
        select-OnlyReads _ _ _ (λ e. if-OnlyReads (is e not_found) _ _ (λ _. refl) (λ _. refl))
          (λ u. if-OnlyReads (u.id == id) _ _ (λ _. refl) fallback))

  -- What follows a call that only reads.
  after-Stays :
      {T U : Type 0} (P : List (User F) → Type 0) (call : Effect (Accounts F) T)
      (next : T → Effect (Accounts F) U) (w : Accounts F)
      → OnlyReads call
      → Stays given w
      → P w.users
      → ((t : T) (v : Accounts F) → Stays given v → P v.users → Stays given (next t v).1)
      → Stays given (on call raise next w).1
  after-Stays P call next w reads h p good =
      on-holds (Stays given) call raise next w
        (λ e v same. subst IsAdministered (sym (ap (λ x. x.1.users) (sym same) ∙ reads w)) h)
        (λ t v same.
          let users = sym (ap (λ x. x.1.users) (sym same) ∙ reads w) in
          good t v (subst IsAdministered users h) (subst P users p))

  write_again-Stays :
      (provider : String) (identity : OidcIdentity) (existing : User F) (username email : String)
      (w : Accounts F)
      → Stays given w
      → find_where (has_id existing.id) w.users ≡ some existing
      → Stays given (write_again given cfg provider identity existing username email w).1
  unfolding write_again
  write_again-Stays provider identity existing username email w h found =
      let next = with_identity given cfg provider identity username email existing in
      ensured-Stays given existing next
        (on (update_user_row given next)
          (λ e. raise (oidc_taken given cfg "failed to update oidc user: " e)) (λ _. return next))
        w h found
        λ y hy fy safe.
          row-Stays given next existing
            (λ e. raise (oidc_taken given cfg "failed to update oidc user: " e)) (λ _. return next)
            y hy fy safe (λ _ _ k. k) (λ _ k. k)

  login_again-Stays :
      (provider : String) (identity : OidcIdentity) (base : Option String) (existing : User F)
      (w : Accounts F)
      → Stays given w
      → find_where (has_id existing.id) w.users ≡ some existing
      → Stays given (login_again given cfg provider identity base existing w).1
  unfolding login_again
  login_again-Stays provider identity base existing w h found =
      let P : List (User F) → Type 0 =
        λ users. find_where (has_id existing.id) users ≡ some existing in
      let email_of =
        resolve_oidc_email given cfg existing.id provider identity.subject identity.email in
      let write = write_again given cfg provider identity existing in
      after-Stays P
        (resolve_oidc_username given cfg existing.id existing.username base identity.subject)
        (λ username. on email_of raise (write username)) w
        (resolve_oidc_username-OnlyReads existing.id existing.username base identity.subject) h
        found
        λ username v hv fv.
          after-Stays P email_of (write username) v
            (resolve_oidc_email-OnlyReads existing.id provider identity.subject identity.email) hv
            fv (write_again-Stays provider identity existing username)

  write_first-Stays :
      (new_id : ℕ) (provider : String) (identity : OidcIdentity) (username email : String)
      (w : Accounts F)
      → Stays given w
      → Stays given (write_first given cfg new_id provider identity username email w).1
  unfolding write_first
  write_first-Stays new_id provider identity username email w h =
      let user =
        with_identity given cfg provider identity username email (new_oidc_user given cfg new_id) in
      save-Stays given user (λ e. raise (oidc_taken given cfg "failed to save oidc user: " e))
        (λ _. return user) w h (λ _ _ k. k) (λ _ k. k)

  login_first-Stays :
      (new_id : ℕ) (provider : String) (identity : OidcIdentity) (base : Option String)
      (w : Accounts F)
      → Stays given w
      → Stays given (login_first given cfg new_id provider identity base w).1
  unfolding login_first
  login_first-Stays new_id provider identity base w h =
      let P : List (User F) → Type 0 = λ _. Unit {0} in
      let email_of = resolve_oidc_email given cfg new_id provider identity.subject identity.email in
      let write = write_first given cfg new_id provider identity in
      after-Stays P (resolve_oidc_username given cfg new_id "" base identity.subject)
        (λ username. on email_of raise (write username)) w
        (resolve_oidc_username-OnlyReads new_id "" base identity.subject) h tt
        λ username v hv _.
          after-Stays P email_of (write username) v
            (resolve_oidc_email-OnlyReads new_id provider identity.subject identity.email) hv tt
            (λ email x hx _. write_first-Stays new_id provider identity username email x hx)

  provision_oidc_user-Stays :
      (new_id : ℕ) (provider : String) (identity : OidcIdentity) (w : Accounts F)
      → Stays given w
      → Stays given (provision_oidc_user given cfg new_id provider identity w).1
  unfolding provision_oidc_user get_user_by_external_identity
  provision_oidc_user-Stays new_id provider identity w h =
      elim (Bool-cases (str_eq (trim_space identity.subject) "")) [
        | inl nobody ↦ rw nobody h
        | inr someone ↦ rw someone (
            on-holds (Stays given) (select given read) _ _ w
              (λ e v same.
                let hv = subst IsAdministered (sym (select-users given read (err e) w v same)) h in
                elim (Bool-cases (is e not_found)) [
                  | inl unknown ↦ rw unknown (login_first-Stays new_id provider identity base v hv)
                  | inr other ↦ rw other hv
                ])
              (λ u v same.
                let users = sym (select-users given read (ok u) w v same) in
                let found =
                  some_of_ok given (find_where (has_identity provider identity.subject) w.users) u
                    (select-read given read u w v same) in
                let by_id = found_by_id _ u w.users (h.ids u.id) found in
                login_again-Stays provider identity base u v (subst IsAdministered users h)
                  (subst (λ l. find_where (has_id u.id) l ≡ some u) users by_id)))
      ]
    where
      read : List (User F) → Result (User F)
      read users = or_not_found (find_where (has_identity provider identity.subject) users)

      base : Option String
      base =
          normalize_external_username given identity.username identity.preferred_username
            identity.subject

  consume-users :
      (provider state binding : String) (w : Accounts F)
      → (consume_oidc_state given provider state binding w).1.users ≡ w.users
  unfolding consume_oidc_state
  consume-users provider state binding w =
      let live = cleanup_expired_states given.now w.states in
      elim (Option-cases (lookup_state state live)) [
        | inl gone ↦ rw (gone, consume_oidc_state) refl
        | inr (stored, there) ↦
            rw (there, consume_oidc_state)
              (elim (Bool-cases (not (accepts given provider binding stored))) [
                | inl refused ↦ rw refused refl
                | inr accepted ↦ rw accepted refl
              ])
      ]

  issue_tokens-Stays :
      (redirect : String) (user : User F) (w : Accounts F)
      → Stays given w
      → Stays given (issue_tokens given cfg redirect user w).1
  unfolding issue_tokens
  issue_tokens-Stays redirect user w h =
      elim (Bool-cases (not (str_eq user.status status_active))) [
        | inl idle ↦ rw idle h
        | inr active ↦ rw active (elim (Option-cases (given.generate_tokens user)) [
          | inl broken ↦ rw (broken, issue_tokens) h
          | inr (tokens, made) ↦ rw (made, issue_tokens) h
        ])
      ]

  login_with_state-Stays :
      (new_id : ℕ) (provider code : String) (stored : OidcState) (w : Accounts F)
      → Stays given w
      → Stays given (login_with_state given cfg new_id provider code stored w).1
  unfolding login_with_state
  login_with_state-Stays new_id provider code stored w h =
      go (given.exchange_code code stored.nonce) refl
    where
      go :
          (r : Result OidcIdentity)
          → given.exchange_code code stored.nonce ≡ r
          → Stays given (login_with_state given cfg new_id provider code stored w).1
      go (err e) same = rw (same, login_with_state) h
      go (ok identity) same =
          rw (same, login_with_state)
            (let after = provision_oidc_user-Stays new_id provider identity w h in
              on-holds (Stays given) (provision_oidc_user given cfg new_id provider identity) raise
                (issue_tokens given cfg stored.redirect_after) w
                (λ e v there. subst (λ x. IsAdministered x.1.users) there after)
                (λ user v there.
                  issue_tokens-Stays stored.redirect_after user v
                    (subst (λ x. IsAdministered x.1.users) there after)))

  pub complete_oidc_callback-Stays :
      (new_id : ℕ) (provider code state binding : String) (w : Accounts F)
      → Stays given w
      → Stays given (complete_oidc_callback given cfg new_id provider code state binding w).1
  unfolding complete_oidc_callback
  complete_oidc_callback-Stays new_id provider code state binding w h =
      elim (Bool-cases (not (oidc_available given cfg provider))) [
        | inl off ↦ rw off h
        | inr there ↦
            rw there
              (elim (Bool-cases (
                str_eq (trim_space code) ""
                || str_eq (trim_space state) ""
                || str_eq (trim_space binding) "")) [
                  | inl empty ↦ rw empty h
                  | inr full ↦ rw full (
                      after-Stays (λ _. Unit {0}) (consume_oidc_state given provider state binding)
                        (login_with_state given cfg new_id provider code) w
                        (consume-users provider state binding) h tt
                        (λ stored v hv _. login_with_state-Stays new_id provider code stored v hv))
                ])
      ]
