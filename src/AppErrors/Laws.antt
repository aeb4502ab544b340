-- ===== src/AppErrors/Laws.antt =====
-- What the classifiers of backend/pkg/apperrors/errors.go promise to the transports.
use docker_cloud_manager.Prelude.{
  ◌≡◌, refl, ◌↔◌, Bool, true, false, none, some, String, arith, Bool-cases, inl, inr, if◌then◌else◌,
}
use mathlib.Core.Bool.{decide_iff}
use docker_cloud_manager.AppErrors.{
  Sentinel, not_found, already_exists, invalid_credentials, unauthorized, forbidden, invalid_token,
  bad_request, internal, resource_exhausted, quota_exceeded, limit_exceeded, host_exhausted,
  invalid_file_format, conflict, resource_in_use, timeout, unavailable, canceled, deadline_exceeded,
  Sentinel-discrete, same, sentinel_text, Err, sentinel, new, wrap, errorf, join, foreign, is,
  as_structured, or_plain, plain_message, safe_message, code,
}

-- The sentinel stands somewhere in the tree of kinds, causes and wrapped errors.
pub data Carries (s : Sentinel) : Err → Type 0 where
  itself : Carries s (sentinel s)
  new_kind : {k : Err} {m : String} → Carries s k → Carries s (new k m)
  wrap_kind : {k c : Err} {m : String} → Carries s k → Carries s (wrap k m c)
  wrap_cause : {k c : Err} {m : String} → Carries s c → Carries s (wrap k m c)
  formatted : {e : Err} {p q : String} → Carries s e → Carries s (errorf p e q)
  left : {a b : Err} → Carries s a → Carries s (join a b)
  right : {a b : Err} → Carries s b → Carries s (join a b)

same_iff : (s t : Sentinel) → (same s t ≡ true) ↔ (s ≡ t)
unfolding same
same_iff s t = decide_iff (Sentinel-discrete s t)

is_Carries : (e : Err) (s : Sentinel) → is e s ≡ true → Carries s e
unfolding is
is_Carries (sentinel t) s h = rw ((same_iff t s).0 h) itself
is_Carries (new k m) s h = new_kind (is_Carries k s (ground arith))
is_Carries (wrap k m c) s h = elim (Bool-cases (is k s)) [
  | inl p ↦ wrap_kind (is_Carries k s p)
  | inr q ↦ wrap_cause (is_Carries c s (ground arith))
]
is_Carries (errorf p e q) s h = formatted (is_Carries e s h)
is_Carries (join a b) s h = elim (Bool-cases (is a s)) [
  | inl p ↦ left (is_Carries a s p)
  | inr q ↦ right (is_Carries b s (ground arith))
]
is_Carries (foreign m) s h = cc

is_of_Carries : {s : Sentinel} {e : Err} → Carries s e → is e s ≡ true
unfolding is
is_of_Carries {s} itself = (same_iff s s).1 refl
is_of_Carries (new_kind c) = ground (arith, is_of_Carries c)
is_of_Carries (wrap_kind c) = ground (arith, is_of_Carries c)
is_of_Carries (wrap_cause c) = ground (arith, is_of_Carries c)
is_of_Carries (formatted c) = is_of_Carries c
is_of_Carries (left c) = ground (arith, is_of_Carries c)
is_of_Carries (right c) = ground (arith, is_of_Carries c)

-- `errors.Is` finds a sentinel in an error exactly when the tree of its kinds, causes and wrapped
-- errors carries that sentinel.
pub is_iff : (e : Err) (s : Sentinel) → (is e s ≡ true) ↔ Carries s e
is_iff e s = (is_Carries e s, is_of_Carries)

-- The error carries `s` and no other sentinel.
abbrev pub HasKind : Err → Sentinel → Type 0
HasKind e s = (t : Sentinel) → is e t ≡ same s t

abbrev pub code_text : Sentinel → String
code_text invalid_credentials = "invalid_credentials"
code_text invalid_token = "invalid_token"
code_text unauthorized = "unauthorized"
code_text forbidden = "forbidden"
code_text invalid_file_format = "invalid_file_format"
code_text bad_request = "bad_request"
code_text not_found = "not_found"
code_text already_exists = "already_exists"
code_text limit_exceeded = "limit_exceeded"
code_text quota_exceeded = "quota_exceeded"
code_text host_exhausted = "host_exhausted"
code_text resource_exhausted = "resource_exhausted"
code_text resource_in_use = "resource_in_use"
code_text conflict = "conflict"
code_text timeout = "timeout"
code_text unavailable = "unavailable"
code_text internal = "internal"
code_text canceled = "internal"
code_text deadline_exceeded = "internal"

-- An error that carries one sentinel only, however deep it lies, is given the code of that
-- sentinel; the sentinels of package context are given "internal".
pub code_of_HasKind : (e : Err) (s : Sentinel) → HasKind e s → code (some e) ≡ code_text s
unfolding code same
code_of_HasKind e invalid_credentials h = simp h
code_of_HasKind e _ h = simp h

-- The sentinel whose text the ladder of `SafeMessage` picks, where the error is no bad request.
shown : Err → Sentinel
shown e =
    if is e internal
    then internal
    else if is e invalid_file_format
    then invalid_file_format
    else if is e not_found
    then not_found
    else if is e already_exists
    then already_exists
    else if is e invalid_credentials
    then invalid_credentials
    else if is e invalid_token
    then invalid_token
    else if is e unauthorized
    then unauthorized
    else if is e forbidden
    then forbidden
    else if is e limit_exceeded
    then limit_exceeded
    else if is e quota_exceeded
    then quota_exceeded
    else if is e host_exhausted
    then host_exhausted
    else if is e resource_exhausted
    then resource_exhausted
    else if is e resource_in_use
    then resource_in_use
    else if is e conflict
    then conflict
    else if is e timeout
    then timeout
    else if is e unavailable
    then unavailable
    else internal

sentinel_text-if :
    (b : Bool) (s t : Sentinel)
    → sentinel_text (if b then s else t) ≡ (if b then sentinel_text s else sentinel_text t)
sentinel_text-if true s t = refl
sentinel_text-if false s t = refl

plain_message-shown :
    (e : Err) → is e bad_request ≡ false → plain_message e ≡ sentinel_text (shown e)
unfolding plain_message shown
plain_message-shown e k = simp (k, sentinel_text-if)

-- An error with no structured part that is not a bad request is shown as the text of a sentinel:
-- the text of an error of another package is never shown.
pub safe_message-sentinel :
    (e : Err)
    → as_structured e ≡ none
    → is e bad_request ≡ false
    → (s : Sentinel) × (safe_message (some e) ≡ sentinel_text s)
unfolding safe_message
safe_message-sentinel e h k = (shown e, rw (h, or_plain) (plain_message-shown e k))
