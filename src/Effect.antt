-- ===== src/Effect.antt =====
-- Code that reads and writes a state `S`, and returns a value or an error. What was written before
-- an error stays written.
use mathlib.Core.Path.{◌≡◌, refl}
use docker_cloud_manager.AppErrors.{Err}
use docker_cloud_manager.Result.{Result, ok, err}

abbrev pub Effect {ℓ} : Type 0 → Type ℓ → Type ℓ
Effect S T = S → Result T × S

module _ {ℓ} {S : Type 0} {T : Type ℓ} where
  abbrev pub return : T → Effect S T
  return value w = (ok value, w)

  abbrev pub raise : Err → Effect S T
  raise e w = (err e, w)

-- `x, err := call; if err != nil { … } …`
module _ {ℓ κ} {S : Type 0} {T : Type ℓ} {U : Type κ} where
  abbrev pub go_on : (Err → Effect S U) → (T → Effect S U) → Result T × S → Result U × S
  go_on failed next (err e, w) = failed e w
  go_on failed next (ok value, w) = next value w

  abbrev pub on : Effect S T → (Err → Effect S U) → (T → Effect S U) → Effect S U
  on call failed next w = go_on failed next (call w)

infixr 11 ◌≫◌
-- `_ = call` before what follows, also for a call whose error is only logged.
abbrev pub ◌≫◌ {ℓ κ} : {S : Type 0} {T : Type ℓ} {U : Type κ} → Effect S T → Effect S U → Effect S U
◌≫◌ call next w = next (call w).1

-- What holds of the state after a call and after what follows on either of its results.
pub on-holds :
    {S : Type 0} {T U : Type 0} (P : S → Type 0) (call : Effect S T) (failed : Err → Effect S U)
    (next : T → Effect S U) (w : S)
    → ((e : Err) (v : S) → call w ≡ (err e, v) → P (failed e v).1)
    → ((t : T) (v : S) → call w ≡ (ok t, v) → P (next t v).1)
    → P (on call failed next w).1
on-holds {S} {T} P call failed next w bad good = go (call w) refl
  where
    go : (r : Result T × S) → call w ≡ r → P (go_on failed next r).1
    go (err e, v) same = bad e v same
    go (ok t, v) same = good t v same
