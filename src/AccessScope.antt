-- ===== src/AccessScope.antt =====
-- backend/pkg/accessscope/scope.go: on whose behalf a request is made, and what it may see. A
-- user's id is a number, uuid.Nil is 0, and the context holds a scope or none.
use docker_cloud_manager.Prelude.{
  ℕ, ◌≡◌, refl, sym, ◌≢◌, ◌↔◌, ◌⊎◌, Bool, true, false, not, ◌&&◌, ◌||◌, Option, none, some, String,
  if◌then◌else◌, ◌==◌, arith,
}
use mathlib.Core.Path.{subst}
use docker_cloud_manager.AppErrors.{sentinel, errorf, unauthorized, forbidden, not_found}
use docker_cloud_manager.Result.{Result, ok, err, ◌>>=◌}

-- The kinds, the empty text, and any other text.
pub data Kind : Type 0 where
  no_kind user_kind admin_kind system_kind : Kind
  other_kind : String → Kind

pub record Scope : Type 0 where
  pub kind : Kind
  pub user_id : ℕ
  pub username : String
  pub role : String

abbrev pub is_empty_kind : Kind → Bool
is_empty_kind no_kind = true
is_empty_kind _ = false

abbrev pub is_user : Kind → Bool
is_user user_kind = true
is_user _ = false

unfoldable pub require_scope : Option Scope → Result Scope
require_scope none = err (sentinel unauthorized)
require_scope (some scope) =
    if is_empty_kind scope.kind then err (sentinel unauthorized) else ok scope

unfoldable pub require_user_owner : Option Scope → Result ℕ
require_user_owner context = require_scope context >>= λ scope.
    if not (is_user scope.kind) || scope.user_id == 0
    then err (errorf "" (sentinel forbidden) ": user scope is required")
    else ok scope.user_id

abbrev kind_allows : Kind → ℕ → ℕ → Bool
kind_allows admin_kind user_id owner_id = true
kind_allows user_kind user_id owner_id = user_id == owner_id && not (owner_id == 0)
kind_allows _ user_id owner_id = false

unfoldable pub allows_owner : Scope → ℕ → Bool
allows_owner scope owner_id = kind_allows scope.kind scope.user_id owner_id

unfoldable pub require_owner_access : Option Scope → ℕ → Result (Unit {0})
require_owner_access context owner_id = require_scope context >>= λ scope.
    if allows_owner scope owner_id then ok tt else err (sentinel not_found)

unfoldable pub owner_filter : Scope → Option ℕ
owner_filter scope =
    if not (is_user scope.kind) || scope.user_id == 0 then none else some scope.user_id

-- `OwnerFilter` in a query: `nil` filters nothing.
abbrev pub admits : Option ℕ → ℕ → Bool
admits none owner_id = true
admits (some id) owner_id = id == owner_id

-- What a request is let through for: it is an administrator's, or that of the owner, who is not the
-- nil id.
abbrev pub MayAccess : Option Scope → ℕ → Type 0
MayAccess context owner_id =
    (scope : Scope) × (context ≡ some scope)
    × ((scope.kind ≡ admin_kind)
        ⊎ (scope.kind ≡ user_kind) × (scope.user_id ≡ owner_id) × (owner_id ≢ 0))

allowed_iff :
    (scope : Scope) (owner_id : ℕ)
    → (require_owner_access (some scope) owner_id ≡ ok tt) ↔ (
        (scope.kind ≡ admin_kind)
        ⊎ (scope.kind ≡ user_kind) × (scope.user_id ≡ owner_id) × (owner_id ≢ 0))
unfolding require_owner_access require_scope allows_owner
allowed_iff scope owner_id = by_kind scope.kind scope.user_id owner_id
  where
    by_kind :
        (kind : Kind) (user_id owner_id : ℕ)
        → (require_owner_access (some (record scope { kind = kind; user_id = user_id })) owner_id
            ≡ ok tt)
          ↔ ((kind ≡ admin_kind) ⊎ (kind ≡ user_kind) × (user_id ≡ owner_id) × (owner_id ≢ 0))
    by_kind no_kind user_id owner_id = ground arith
    by_kind user_kind user_id owner_id = ground arith
    by_kind admin_kind user_id owner_id = ground arith
    by_kind system_kind user_id owner_id = ground arith
    by_kind (other_kind k) user_id owner_id = ground arith

-- A request passes for an owner exactly where its context holds a scope which is an
-- administrator's, or that of the owner, who is not the nil id. So a request whose context holds no
-- scope never passes, and neither does one of a service.
pub require_owner_access_iff :
    (context : Option Scope) (owner_id : ℕ)
    → (require_owner_access context owner_id ≡ ok tt) ↔ MayAccess context owner_id
unfolding require_owner_access require_scope
require_owner_access_iff none owner_id =
    ((λ passed. absurd ((λ (c : ⊥). c) cc)), (λ (scope, here, may). absurd ((λ (c : ⊥). c) cc)))
require_owner_access_iff (some scope) owner_id = (
  (λ passed. (scope, refl, (allowed_iff scope owner_id).0 passed)),
  λ (s, here, may).
      let same : scope ≡ s = cc in
      (allowed_iff scope owner_id).1 (
        subst
          (λ x.
            (x.kind ≡ admin_kind) ⊎ (x.kind ≡ user_kind) × (x.user_id ≡ owner_id) × (owner_id ≢ 0))
          (sym same) may),
)

-- Where `RequireUserOwner` accepts the scope, the filter of a list lets through exactly the owners
-- to which the scope gives access.
pub owner_filter-allows_owner :
    (scope : Scope) (id owner_id : ℕ)
    → require_user_owner (some scope) ≡ ok id
    → admits (owner_filter scope) owner_id ≡ allows_owner scope owner_id
unfolding owner_filter allows_owner require_user_owner require_scope
owner_filter-allows_owner scope id owner_id h = ground arith
