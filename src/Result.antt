-- ===== src/Result.antt =====
-- Go's pair of a value and an error: a function that returns `(T, error)` returns a `Result T`.
use docker_cloud_manager.AppErrors.{Err}
use docker_cloud_manager.Prelude.{Bool, true, false}

pub data Result {ℓ} (T : Type ℓ) : Type ℓ where
  err : Err → Result T
  ok : T → Result T

-- `if err != nil { return err }` between two calls.
infixl 10 ◌>>=◌
abbrev pub ◌>>=◌ {ℓ κ} : {T : Type ℓ} {U : Type κ} → Result T → (T → Result U) → Result U
err failure >>= rest = err failure
ok value >>= rest = rest value

-- `if test { return failure }`
unfoldable pub refuse : Bool → Err → Result (Unit {0})
refuse true failure = err failure
refuse false failure = ok tt

-- Two checks, of which the second is made only after the first.
infixr 11 ◌>>◌
unfoldable pub ◌>>◌ : Result (Unit {0}) → Result (Unit {0}) → Result (Unit {0})
err failure >> rest = err failure
ok done >> rest = rest
