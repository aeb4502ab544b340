-- ===== src/Sso/Requests.antt =====
-- Every order in which requests of backend/internal/sso/service/auth.go may change the accounts. A
-- request runs to its end before the next one begins.
use docker_cloud_manager.Prelude.{ℕ, List, [], ◌∷◌, String}
use docker_cloud_manager.Sso.{AuthConfig, Accounts, Given}
use docker_cloud_manager.Sso.Rows.{IsAdministered}
use docker_cloud_manager.Sso.Users.{
  UserInput, register, create_user, update_user, deactivate_user, reactivate_user,
}
use docker_cloud_manager.Sso.Users.Administered.{
  register-Stays, create_user-Stays, update_user-Stays, deactivate_user-IsAdministered,
  reactivate_user-Stays,
}
use docker_cloud_manager.Sso.Oidc.{complete_oidc_callback}
use docker_cloud_manager.Sso.Oidc.Administered.{complete_oidc_callback-Stays}

-- A request with the uuid that it makes, where it makes one.
pub data Request (F : Type 0) : Type 0 where
  registers : ℕ → String → String → String → Request F
  creates : ℕ → UserInput F → Request F
  updates : ℕ → UserInput F → Request F
  deactivates : ℕ → Request F
  reactivates : ℕ → Request F
  calls_back : ℕ → String → String → String → String → Request F

module _ {F : Type 0} (cfg : AuthConfig) where
  -- What stays of the accounts after a request, whatever it answers.
  unfoldable pub serve : Given F → Request F → Accounts F → Accounts F
  serve given (registers id username email password) w =
      (register given cfg id username email password w).1
  serve given (creates id input) w = (create_user given id input w).1
  serve given (updates id input) w = (update_user given id input w).1
  serve given (deactivates id) w = (deactivate_user given id w).1
  serve given (reactivates id) w = (reactivate_user given id w).1
  serve given (calls_back new_id provider code state binding) w =
      (complete_oidc_callback given cfg new_id provider code state binding w).1

  -- Each request comes with what the service is given at its time.
  unfoldable pub serve_all : List (Given F × Request F) → Accounts F → Accounts F
  serve_all [] w = w
  serve_all ((given, request) ∷ rest) w = serve_all rest (serve given request w)

  serve-IsAdministered :
      (given : Given F) (request : Request F) (w : Accounts F)
      → IsAdministered w.users
      → IsAdministered (serve given request w).users
  unfolding serve
  serve-IsAdministered given (registers id username email password) w h =
      register-Stays given cfg id username email password w h
  serve-IsAdministered given (creates id input) w h = create_user-Stays given id input w h
  serve-IsAdministered given (updates id input) w h = update_user-Stays given id input w h
  serve-IsAdministered given (deactivates id) w h = deactivate_user-IsAdministered given id w h
  serve-IsAdministered given (reactivates id) w h = reactivate_user-Stays given id w h
  serve-IsAdministered given (calls_back new_id provider code state binding) w h =
      complete_oidc_callback-Stays given cfg new_id provider code state binding w h

  -- Whatever requests are served one after the other, and whichever calls of the database, of
  -- bcrypt and of the OIDC provider fail, an active administrator exists afterwards where one did
  -- before, and no two accounts share an id where none did before.
  pub serve_all-IsAdministered :
      (requests : List (Given F × Request F)) (w : Accounts F)
      → IsAdministered w.users
      → IsAdministered (serve_all requests w).users
  unfolding serve_all
  serve_all-IsAdministered [] w h = h
  serve_all-IsAdministered ((given, request) ∷ rest) w h =
      serve_all-IsAdministered rest (serve given request w) (serve-IsAdministered given request w h)
