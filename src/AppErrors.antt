-- ===== src/AppErrors.antt =====
-- backend/pkg/apperrors/errors.go: the sentinel errors, the structured error, and the two
-- classifiers that the transports use. `errors.Is`, `errors.As` and `errors.Join` are those of Go's
-- standard library, written out over the shapes of error that this program builds.
pub mod Laws
use docker_cloud_manager.Prelude.{
  ◌≡◌, refl, Bool, true, false, ◌||◌, Option, none, some, String, if◌then◌else◌,
}
use mathlib.Core.Bool.{decide}
use text.Mathlib.Text.{◌==◌ as str_eq}
use Prim.Native.String

-- The last two are the sentinels of package context.
pub data Sentinel : Type 0 where
  not_found already_exists invalid_credentials unauthorized forbidden invalid_token : Sentinel
  bad_request internal resource_exhausted quota_exceeded limit_exceeded host_exhausted : Sentinel
  invalid_file_format conflict resource_in_use timeout unavailable : Sentinel
  canceled deadline_exceeded : Sentinel

unfoldable pub Sentinel-discrete : Discrete Sentinel
Sentinel-discrete = hlevel

-- `==` on the sentinels, which are distinct pointers.
unfoldable pub same : Sentinel → Sentinel → Bool
unfolding Sentinel-discrete mathlib.Core.Bool.decide
same s t = decide (Sentinel-discrete s t)

abbrev pub sentinel_text : Sentinel → String
sentinel_text not_found = "not found"
sentinel_text already_exists = "already exists"
sentinel_text invalid_credentials = "invalid credentials"
sentinel_text unauthorized = "unauthorized"
sentinel_text forbidden = "forbidden"
sentinel_text invalid_token = "invalid token"
sentinel_text bad_request = "bad request"
sentinel_text internal = "internal server error"
sentinel_text resource_exhausted = "server capacity reached, cannot allocate resources"
sentinel_text quota_exceeded = "user memory quota exceeded"
sentinel_text limit_exceeded = "maximum number of resources reached"
sentinel_text host_exhausted = "host server is out of memory"
sentinel_text invalid_file_format = "invalid file format, allowed: .zip, .tar, .tar.gz"
sentinel_text conflict = "conflict"
sentinel_text resource_in_use = "resource is currently in use"
sentinel_text timeout = "request timed out"
sentinel_text unavailable = "service unavailable"
sentinel_text canceled = "context canceled"
sentinel_text deadline_exceeded = "context deadline exceeded"

-- `new kind message` and `wrap kind message cause` are the two ways to make an `*apperrors.Error`;
-- `errorf before e after` is `fmt.Errorf` with one `%w`; `foreign` is an error of another package,
-- known by its text.
pub data Err : Type 0 where
  sentinel : Sentinel → Err
  new : Err → String → Err
  wrap : Err → String → Err → Err
  errorf : String → Err → String → Err
  join : Err → Err → Err
  foreign : String → Err

infixr 65 ◌⧺◌
abbrev pub ◌⧺◌ : String → String → String
s ⧺ t = String.◌++◌ s t

-- `Error()`; the fall-backs to the kind's text are those of an empty message.
unfoldable pub message : Err → String
message (sentinel s) = sentinel_text s
message (new kind text) = if str_eq text "" then message kind else text
message (wrap kind text cause) = if str_eq text "" then message kind else text
message (errorf before e after) = before ⧺ message e ⧺ after
message (join a b) = message a ⧺ "\n" ⧺ message b
message (foreign text) = text

-- `errors.Is`: the error itself, its method `Is`, then what it unwraps to.
unfoldable pub is : Err → Sentinel → Bool
unfolding same
is (sentinel s) t = same s t
is (new kind text) t = (is kind t || false) || is kind t
is (wrap kind text cause) t = (is kind t || is cause t) || is cause t
is (errorf before e after) t = is e t
is (join a b) t = is a t || is b t
is (foreign text) t = false

or_else : Option String → Option String → Option String
or_else (some s) o = some s
or_else none o = o

-- `errors.As` with an `*Error` target: the text of the first structured error found.
unfoldable pub as_structured : Err → Option String
unfolding message or_else
as_structured (sentinel s) = none
as_structured (new kind text) = some (message (new kind text))
as_structured (wrap kind text cause) = some (message (wrap kind text cause))
as_structured (errorf before e after) = as_structured e
as_structured (join a b) = or_else (as_structured a) (as_structured b)
as_structured (foreign text) = none

-- The `switch` of `SafeMessage`, for an error with no structured part.
unfoldable pub plain_message : Err → String
unfolding message
plain_message e =
    if is e internal
    then sentinel_text internal
    else if is e bad_request
    then message e
    else if is e invalid_file_format
    then sentinel_text invalid_file_format
    else if is e not_found
    then sentinel_text not_found
    else if is e already_exists
    then sentinel_text already_exists
    else if is e invalid_credentials
    then sentinel_text invalid_credentials
    else if is e invalid_token
    then sentinel_text invalid_token
    else if is e unauthorized
    then sentinel_text unauthorized
    else if is e forbidden
    then sentinel_text forbidden
    else if is e limit_exceeded
    then sentinel_text limit_exceeded
    else if is e quota_exceeded
    then sentinel_text quota_exceeded
    else if is e host_exhausted
    then sentinel_text host_exhausted
    else if is e resource_exhausted
    then sentinel_text resource_exhausted
    else if is e resource_in_use
    then sentinel_text resource_in_use
    else if is e conflict
    then sentinel_text conflict
    else if is e timeout
    then sentinel_text timeout
    else if is e unavailable
    then sentinel_text unavailable
    else sentinel_text internal

or_plain : Option String → Err → String
or_plain (some text) e = text
or_plain none e = plain_message e

-- `none` is a nil error.
unfoldable pub safe_message : Option Err → String
unfolding or_plain as_structured
safe_message none = ""
safe_message (some e) = or_plain (as_structured e) e

unfoldable pub code : Option Err → String
code none = "internal"
code (some e) =
    if is e invalid_credentials
    then "invalid_credentials"
    else if is e invalid_token
    then "invalid_token"
    else if is e unauthorized
    then "unauthorized"
    else if is e forbidden
    then "forbidden"
    else if is e invalid_file_format
    then "invalid_file_format"
    else if is e bad_request
    then "bad_request"
    else if is e not_found
    then "not_found"
    else if is e already_exists
    then "already_exists"
    else if is e limit_exceeded
    then "limit_exceeded"
    else if is e quota_exceeded
    then "quota_exceeded"
    else if is e host_exhausted
    then "host_exhausted"
    else if is e resource_exhausted
    then "resource_exhausted"
    else if is e resource_in_use
    then "resource_in_use"
    else if is e conflict
    then "conflict"
    else if is e timeout
    then "timeout"
    else if is e unavailable
    then "unavailable"
    else if is e internal
    then "internal"
    else "internal"
