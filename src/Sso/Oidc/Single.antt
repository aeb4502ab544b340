-- ===== src/Sso/Oidc/Single.antt =====
-- A state of a login over OpenID Connect is used once, and the browser that began the login can use it.
use docker_cloud_manager.Prelude.{
  ◌≡◌, refl, sym, ap, ◌∙◌, true, false, not, none, some, List, [], ◌∷◌, String, if◌then◌else◌,
  Bool-cases, Option-cases, inl, inr, All,
}
use docker_cloud_manager.Prelude.Int.{ℤ, ◌+ℤ◌, ltb_ℤ}
use docker_cloud_manager.Prelude.Strings.{trim_space}
use docker_cloud_manager.AppErrors.{sentinel, invalid_credentials}
use docker_cloud_manager.Result.{ok, err}
use docker_cloud_manager.Sso.{OidcState, AuthConfig, Accounts, Given}
use docker_cloud_manager.Sso.Oidc.States.{
  lookup_state, delete_state, cleanup_expired_states, secure_string_equal, oidc_available,
  start_oidc_login, accepts, consume_oidc_state,
}
use text.Mathlib.TextEquality.{eq_iff}
use text.Mathlib.Text.{◌==◌ as str_eq}

lookup-delete :
    (key : String) (l : List (String × OidcState)) → lookup_state key (delete_state key l) ≡ none
lookup-delete key [] = refl
lookup-delete key ((k, s) ∷ rest) = elim (Bool-cases (str_eq k key)) [
  | inl here ↦ rw here (lookup-delete key rest)
  | inr there ↦ rw there (rw there (lookup-delete key rest))
]

lookup-cleanup :
    (now : ℤ) (key : String) (l : List (String × OidcState))
    → lookup_state key l ≡ none
    → lookup_state key (cleanup_expired_states now l) ≡ none
unfolding cleanup_expired_states
lookup-cleanup now key [] h = refl
lookup-cleanup now key ((k, s) ∷ rest) h = elim (Bool-cases (str_eq k key)) [
  | inl here ↦ absurd ((λ (c : ⊥). c) (let e = rw here at h in cc))
  | inr there ↦
      let kept = lookup-cleanup now key rest (rw there at h) in
      elim (Bool-cases (ltb_ℤ s.expires_at now)) [
        | inl late ↦ rw late kept
        | inr live ↦ rw live (rw there kept)
      ]
]

-- What is not in the map is not there after a deletion.
lookup-delete_other :
    (key state : String) (l : List (String × OidcState))
    → lookup_state key l ≡ none
    → lookup_state key (delete_state state l) ≡ none
lookup-delete_other key state [] h = refl
lookup-delete_other key state ((k, s) ∷ rest) h = elim (Bool-cases (str_eq k key)) [
  | inl here ↦ absurd ((λ (c : ⊥). c) (let e = rw here at h in cc))
  | inr there ↦
      let kept = lookup-delete_other key state rest (rw there at h) in
      elim (Bool-cases (str_eq k state)) [
        | inl gone ↦ rw gone kept
        | inr stays ↦ rw stays (rw there kept)
      ]
]

str_eq_refl : (s : String) → str_eq s s ≡ true
str_eq_refl s = (eq_iff s s).1 refl

-- A login that is begun, or a callback that takes a state, each at its own time.
pub data StateRequest (F : Type 0) : Type 0 where
  begun : Given F → AuthConfig → String → String → String → String → String → StateRequest F
  called_back : Given F → String → String → String → StateRequest F

module _ {F : Type 0} where
  -- What is consumed is gone from the map.
  consumed :
      (given : Given F) (provider state binding : String) (stored : OidcState) (w v : Accounts F)
      → consume_oidc_state given provider state binding w ≡ (ok stored, v)
      → lookup_state state v.states ≡ none
  unfolding consume_oidc_state
  consumed given provider state binding stored w v h =
      let live = cleanup_expired_states given.now w.states in
      elim (Option-cases (lookup_state state live)) [
        | inl gone ↦ let e = rw (gone, consume_oidc_state) at h in absurd ((λ (c : ⊥). c) cc)
        | inr (there, found) ↦ elim (Bool-cases (not (accepts given provider binding there))) [
          | inl refused ↦
              let e = rw refused at (rw (found, consume_oidc_state) at h) in
              absurd ((λ (c : ⊥). c) cc)
          | inr accepted ↦
              let e = rw accepted at (rw (found, consume_oidc_state) at h) in
              ap (λ x. lookup_state state x.1.states) (sym e) ∙ lookup-delete state live
        ]
      ]

  unfoldable pub serve_state : StateRequest F → Accounts F → Accounts F
  unfolding start_oidc_login consume_oidc_state
  serve_state (begun given cfg state nonce binding provider redirect) w =
      (start_oidc_login given cfg state nonce binding provider redirect w).1
  serve_state (called_back given provider state binding) w =
      (consume_oidc_state given provider state binding w).1

  unfoldable pub serve_states : List (StateRequest F) → Accounts F → Accounts F
  unfolding serve_state
  serve_states [] w = w
  serve_states (r ∷ rs) w = serve_states rs (serve_state r w)

  -- No login that is begun draws the state again.
  abbrev pub IsOther : String → StateRequest F → Type 0
  IsOther key (begun given cfg state nonce binding provider redirect) = str_eq state key ≡ false
  IsOther key (called_back given provider state binding) = Unit

  abbrev IsGone : String → Accounts F → Type 0
  IsGone key w = lookup_state key w.states ≡ none

  serve_state-IsGone :
      (key : String) (r : StateRequest F) (w : Accounts F)
      → IsOther key r
      → IsGone key w
      → IsGone key (serve_state r w)
  unfolding serve_state start_oidc_login consume_oidc_state
  serve_state-IsGone key (begun given cfg state nonce binding provider redirect) w other gone =
      elim (Bool-cases (oidc_available given cfg provider)) [
        | inr closed ↦ rw (closed, serve_state) gone
        | inl here ↦
            rw (here, serve_state)
              (rw other
                (lookup-delete_other key state _ (lookup-cleanup given.now key w.states gone)))
      ]
  serve_state-IsGone key (called_back given provider state binding) w other gone =
      let live = cleanup_expired_states given.now w.states in
      let kept = lookup-cleanup given.now key w.states gone in
      elim (Option-cases (lookup_state state live)) [
        | inl unknown ↦ rw (unknown, serve_state) kept
        | inr (there, found) ↦ elim (Bool-cases (not (accepts given provider binding there))) [
          | inl refused ↦ rw (found, serve_state) (rw refused kept)
          | inr accepted ↦
              rw (found, serve_state) (rw accepted (lookup-delete_other key state live kept))
        ]
      ]

  serve_states-IsGone :
      (key : String) (rs : List (StateRequest F)) (w : Accounts F)
      → All (IsOther key) rs
      → IsGone key w
      → IsGone key (serve_states rs w)
  unfolding serve_states
  serve_states-IsGone key [] w others gone = gone
  serve_states-IsGone key (r ∷ rs) w (other, others) gone =
      serve_states-IsGone key rs (serve_state r w) others (serve_state-IsGone key r w other gone)

  -- A state that a callback has consumed is refused ever after, whichever logins are begun and
  -- whichever states are taken in between, at whatever time and with whatever provider and
  -- browser, as long as no login that is begun draws the same state again.
  pub consume-consume_state :
      (given later : Given F) (provider provider' state binding binding' : String)
      (stored : OidcState) (between : List (StateRequest F)) (w v : Accounts F)
      → consume_oidc_state given provider state binding w ≡ (ok stored, v)
      → All (IsOther state) between
      → (consume_oidc_state later provider' state binding' (serve_states between v)).0
        ≡ err (sentinel invalid_credentials)
  unfolding consume_oidc_state
  consume-consume_state given later provider provider' state binding binding' stored between w v h
        others =
      let gone = lookup-cleanup later.now state (serve_states between v).states (
        serve_states-IsGone state between v others
          (consumed given provider state binding stored w v h)) in
      rw (gone, consume_oidc_state) refl

  -- What StartOIDCLogin puts into the map.
  abbrev pub made : Given F → AuthConfig → String → String → String → String → OidcState
  made given cfg nonce binding provider redirect = record {
    provider = provider;
    nonce = nonce;
    browser_binding = binding;
    redirect_after = if str_eq (trim_space redirect) "" then "/" else trim_space redirect;
    expires_at = given.now +ℤ cfg.oidc_state_ttl;
  }

  lookup-start :
      (given later : Given F) (cfg : AuthConfig) (state nonce binding provider redirect : String)
      (w : Accounts F)
      → oidc_available given cfg provider ≡ true
      → ltb_ℤ (given.now +ℤ cfg.oidc_state_ttl) later.now ≡ false
      → lookup_state state (
          cleanup_expired_states later.now
            (start_oidc_login given cfg state nonce binding provider redirect w).1.states)
        ≡ some (made given cfg nonce binding provider redirect)
  unfolding start_oidc_login cleanup_expired_states
  lookup-start given later cfg state nonce binding provider redirect w available early =
      rw available (rw early (rw (str_eq_refl state) refl))

  -- The state that StartOIDCLogin has made is accepted, with its nonce and the place to go on to,
  -- at a callback of the same provider with the same binding, not empty, that comes before it
  -- expires, where the provider is available.
  pub consume-start :
      (given later : Given F) (cfg : AuthConfig) (state nonce binding provider redirect : String)
      (w : Accounts F)
      → oidc_available given cfg provider ≡ true
      → str_eq binding "" ≡ false
      → ltb_ℤ (given.now +ℤ cfg.oidc_state_ttl) later.now ≡ false
      → (consume_oidc_state later provider state binding
          (start_oidc_login given cfg state nonce binding provider redirect w).1).0
        ≡ ok (made given cfg nonce binding provider redirect)
  unfolding consume_oidc_state secure_string_equal
  consume-start given later cfg state nonce binding provider redirect w available bound early =
      let found =
        lookup-start given later cfg state nonce binding provider redirect w available early in
      rw (found, consume_oidc_state)
        (rw (str_eq_refl provider) (rw bound (rw (str_eq_refl (later.sha256 binding)) refl)))
