-- ===== src/Tickets.antt =====
-- backend/internal/gateway/service/telemetry_ticket.go: tickets with which a stream is opened. The
-- map of tickets is a list of its entries, of which `s.tickets[token] = claims` replaces one. The
-- mutex makes each call a step of its own; the context is not cancelled. Times are nanoseconds.
pub mod Laws
use docker_cloud_manager.Prelude.{
  ℕ, ◌+◌, ◌≡◌, Bool, true, false, not, ◌&&◌, ◌||◌, Option, none, some, List, [], ◌∷◌, String,
  if◌then◌else◌, ◌==◌, leb,
}
use docker_cloud_manager.Prelude.Int.{ℤ, pos, ◌+ℤ◌, leb_ℤ, ltb_ℤ}
use docker_cloud_manager.AppErrors.{Err, sentinel, unauthorized, forbidden}
use docker_cloud_manager.Result.{Result, ok, err}
use docker_cloud_manager.AccessScope.{Scope}
use Prim.Native.Char.{Char, code}
use Prim.Native.String.{[] as end, ◌∷◌ as ◌then◌}
use text.Mathlib.Text.{◌==◌ as str_eq}

pub record TelemetryTicketClaims : Type 0 where
  pub container_id : String
  pub stream_type : String
  pub admin_route : Bool
  pub scope : Scope
  pub expires_at : ℤ

abbrev pub Entry : Type 0
Entry = String × TelemetryTicketClaims

pub record TelemetryTicketStore : Type 0 where
  pub tickets : List Entry
  pub ttl : ℤ

-- NewTelemetryTicketStore
unfoldable pub new_telemetry_ticket_store : ℤ → TelemetryTicketStore
new_telemetry_ticket_store ttl = record {
  tickets = [];
  ttl = if leb_ℤ ttl (pos 0) then pos 60_000_000_000 else ttl;
}

-- `s.tickets[token]`, `delete(s.tickets, token)`
abbrev pub lookup : String → List Entry → Option TelemetryTicketClaims
lookup token [] = none
lookup token ((t, claims) ∷ rest) = if str_eq t token then some claims else lookup token rest

abbrev pub remove : String → List Entry → List Entry
remove token [] = []
remove token ((t, claims) ∷ rest) =
    let kept = remove token rest in if str_eq t token then kept else (t, claims) ∷ kept

-- `claims.ExpiresAt.After(now)`
abbrev pub is_live : ℤ → TelemetryTicketClaims → Bool
is_live now claims = ltb_ℤ now claims.expires_at

-- cleanupLocked
unfoldable pub cleanup : ℤ → List Entry → List Entry
cleanup now [] = []
cleanup now ((t, claims) ∷ rest) =
    let kept = cleanup now rest in if is_live now claims then (t, claims) ∷ kept else kept

-- A token is given by crypto/rand, which the model takes as an argument.
unfoldable pub issue :
    String → ℤ → TelemetryTicketClaims → TelemetryTicketStore → TelemetryTicketStore
issue token now claims store = record store {
  tickets =
      (token, record claims { expires_at = now +ℤ store.ttl })
      ∷ remove token (cleanup now store.tickets);
}

-- The alphabet of base64.RawURLEncoding.
abbrev pub is_base64 : Char → Bool
is_base64 c =
    leb 65 (code c) && leb (code c) 90
    || leb 97 (code c) && leb (code c) 122
    || leb 48 (code c) && leb (code c) 57
    || code c == 45
    || code c == 95

-- How many characters of base64 a text has; the decoder skips line breaks, and stops at any other.
abbrev pub base64_count : ℕ → String → Option ℕ
base64_count n end = some n
base64_count n (c then rest) =
    if code c == 10 || code c == 13
    then base64_count n rest
    else if is_base64 c
    then base64_count (n + 1) rest
    else none

-- 43 characters decode to 32 bytes.
abbrev pub is_count_43 : Option ℕ → Bool
is_count_43 none = false
is_count_43 (some n) = n == 43

unfoldable pub valid_ticket_token : String → Bool
valid_ticket_token token = is_count_43 (base64_count 0 token)

abbrev pub eq_bool : Bool → Bool → Bool
eq_bool true b = b
eq_bool false b = not b

abbrev pub matches_request : String → String → Bool → TelemetryTicketClaims → Bool
matches_request container_id stream_type admin_route claims =
    str_eq claims.container_id container_id
    && str_eq claims.stream_type stream_type
    && eq_bool claims.admin_route admin_route

unfoldable pub judge :
    ℤ → String → String → Bool → Option TelemetryTicketClaims → Result TelemetryTicketClaims
judge now container_id stream_type admin_route none = err (sentinel unauthorized)
judge now container_id stream_type admin_route (some claims) =
    if not (is_live now claims)
    then err (sentinel unauthorized)
    else if not (matches_request container_id stream_type admin_route claims)
    then err (sentinel forbidden)
    else ok claims

unfoldable pub consume :
    ℤ
    → String
    → String
    → String
    → Bool
    → TelemetryTicketStore
    → Result TelemetryTicketClaims × TelemetryTicketStore
consume now token container_id stream_type admin_route store =
    if not (valid_ticket_token token) then (err (sentinel unauthorized), store) else (
      judge now container_id stream_type admin_route (lookup token store.tickets),
      record store { tickets = cleanup now (remove token store.tickets) },
    )
