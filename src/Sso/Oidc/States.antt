-- ===== src/Sso/Oidc/States.antt =====
-- backend/internal/sso/service/auth.go: the states of logins under way. The map of states is a list
-- of its entries, of which a new one replaces that of the same key. The mutex makes each call a
-- step of its own.
use docker_cloud_manager.Prelude.{
  Bool, not, ◌&&◌, ◌||◌, Option, none, some, List, [], ◌∷◌, String, if◌then◌else◌,
}
use docker_cloud_manager.Prelude.Int.{ℤ, ◌+ℤ◌, ltb_ℤ}
use docker_cloud_manager.Prelude.Strings.{trim_space}
use docker_cloud_manager.AppErrors.{sentinel, not_found, invalid_credentials}
use docker_cloud_manager.Effect.{Effect, return, raise}
use docker_cloud_manager.Sso.{OidcState, AuthConfig, Accounts, Given}
use text.Mathlib.Text.{◌==◌ as str_eq}

abbrev pub lookup_state : String → List (String × OidcState) → Option OidcState
lookup_state key [] = none
lookup_state key ((k, s) ∷ rest) = if str_eq k key then some s else lookup_state key rest

abbrev pub delete_state : String → List (String × OidcState) → List (String × OidcState)
delete_state key [] = []
delete_state key ((k, s) ∷ rest) =
    let kept = delete_state key rest in if str_eq k key then kept else (k, s) ∷ kept

-- cleanupExpiredStatesLocked
unfoldable pub cleanup_expired_states : ℤ → List (String × OidcState) → List (String × OidcState)
cleanup_expired_states now [] = []
cleanup_expired_states now ((k, s) ∷ rest) =
    let kept = cleanup_expired_states now rest in
    if ltb_ℤ s.expires_at now then kept else (k, s) ∷ kept

module _ {F : Type 0} (given : Given F) where
  -- The hashes are compared in constant time.
  unfoldable pub secure_string_equal : String → String → Bool
  secure_string_equal a b =
      not (str_eq a "" || str_eq b "") && str_eq (given.sha256 a) (given.sha256 b)

  unfoldable pub oidc_available : AuthConfig → String → Bool
  oidc_available cfg provider =
      cfg.oidc_enabled && given.has_oidc_provider && str_eq provider cfg.oidc_provider_name

  -- The URL of the provider, and the binding for the browser's cookie.
  unfoldable pub start_oidc_login :
      AuthConfig
      → String
      → String
      → String
      → String
      → String
      → Effect (Accounts F) (String × String)
  start_oidc_login cfg state nonce browser_binding provider redirect_after w =
      if not (oidc_available cfg provider)
      then raise (sentinel not_found) w
      else return (given.auth_code_url state nonce, browser_binding)
          (record w {
            states =
                (
                  state,
                  record {
                    provider = provider;
                    nonce = nonce;
                    browser_binding = browser_binding;
                    redirect_after =
                        if str_eq (trim_space redirect_after) ""
                        then "/"
                        else trim_space redirect_after;
                    expires_at = given.now +ℤ cfg.oidc_state_ttl;
                  },
                )
                ∷ delete_state state (cleanup_expired_states given.now w.states);
          })

  abbrev pub accepts : String → String → OidcState → Bool
  accepts provider state_binding stored =
      str_eq stored.provider provider && secure_string_equal stored.browser_binding state_binding

  unfoldable pub consume_oidc_state : String → String → String → Effect (Accounts F) OidcState
  consume_oidc_state provider state state_binding w =
      let live = cleanup_expired_states given.now w.states in
      let cleaned = record w { states = live } in
      elim (lookup_state state live) [
        | none ↦ raise (sentinel invalid_credentials) cleaned
        | some stored ↦
            if not (accepts provider state_binding stored)
            then raise (sentinel invalid_credentials) cleaned
            else return stored (record w { states = delete_state state live })
      ]
