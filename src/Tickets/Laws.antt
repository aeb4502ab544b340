-- ===== src/Tickets/Laws.antt =====
-- What a ticket of backend/internal/gateway/service/telemetry_ticket.go is good for.
use docker_cloud_manager.Prelude.{
  ◌≡◌, refl, ◌↔◌, Bool, true, false, Option, none, some, List, [], ◌∷◌, String, arith, Bool-cases,
  inl, inr, All, sym,
}
use docker_cloud_manager.Prelude.Int.{ℤ, pos, ◌+ℤ◌, ◌<ℤ◌}
use docker_cloud_manager.AppErrors.{sentinel, unauthorized}
use docker_cloud_manager.Result.{ok, err}
use docker_cloud_manager.Tickets.{
  TelemetryTicketClaims, TelemetryTicketStore, Entry, lookup, remove, is_live, cleanup, issue,
  valid_ticket_token, eq_bool, judge, consume,
}
use mathlib.Core.Path.{subst}
use text.Mathlib.Text.{◌==◌ as str_eq}
use text.Mathlib.TextEquality.{eq_iff}

lookup-remove : (t : String) (es : List Entry) → lookup t (remove t es) ≡ none
lookup-remove t [] = refl
lookup-remove t ((u, c) ∷ es) = elim (Bool-cases (str_eq u t)) [
  | inl p ↦ rw p (lookup-remove t es)
  | inr n ↦ rw n (rw n (lookup-remove t es))
]

-- Removal and clean-up keep the absence of a token.
lookup-remove-none :
    (t u : String) (es : List Entry) → lookup t es ≡ none → lookup t (remove u es) ≡ none
lookup-remove-none t u [] h = refl
lookup-remove-none t u ((v, c) ∷ es) h = elim (Bool-cases (str_eq v t)) [
  | inl p ↦ ground arith
  | inr n ↦ elim (Bool-cases (str_eq v u)) [
    | inl q ↦ rw q (lookup-remove-none t u es (ground arith))
    | inr m ↦ rw m (rw n (lookup-remove-none t u es (ground arith)))
  ]
]

lookup-cleanup-none :
    (now : ℤ) (t : String) (es : List Entry) → lookup t es ≡ none → lookup t (cleanup now es) ≡ none
unfolding cleanup
lookup-cleanup-none now t [] h = refl
lookup-cleanup-none now t ((v, c) ∷ es) h = elim (Bool-cases (str_eq v t)) [
  | inl p ↦ ground arith
  | inr n ↦ elim (Bool-cases (is_live now c)) [
    | inl q ↦ rw q (rw n (lookup-cleanup-none now t es (ground arith)))
    | inr m ↦ rw m (lookup-cleanup-none now t es (ground arith))
  ]
]

-- The calls that a store may see.
pub data Call : Type 0 where
  issued : String → ℤ → TelemetryTicketClaims → Call
  consumed : ℤ → String → String → String → Bool → Call

unfoldable pub serve : Call → TelemetryTicketStore → TelemetryTicketStore
serve (issued token now claims) store = issue token now claims store
serve (consumed now token container_id stream_type admin_route) store =
    (consume now token container_id stream_type admin_route store).1

unfoldable pub serve_all : List Call → TelemetryTicketStore → TelemetryTicketStore
serve_all [] store = store
serve_all (call ∷ calls) store = serve_all calls (serve call store)

-- The call does not issue the token.
abbrev pub IsOther : String → Call → Type 0
IsOther token (issued t now claims) = str_eq t token ≡ false
IsOther token (consumed now t container_id stream_type admin_route) = Unit

consume-valid :
    (now : ℤ) (token c s : String) (a : Bool) (store : TelemetryTicketStore)
    → valid_ticket_token token ≡ true
    → consume now token c s a store ≡ (
      judge now c s a (lookup token store.tickets),
      record store { tickets = cleanup now (remove token store.tickets) },
    )
unfolding consume
consume-valid now token c s a store p = rw p

consume-invalid :
    (now : ℤ) (token c s : String) (a : Bool) (store : TelemetryTicketStore)
    → valid_ticket_token token ≡ false
    → consume now token c s a store ≡ (err (sentinel unauthorized), store)
unfolding consume
consume-invalid now token c s a store n = rw n

serve-lookup-none :
    (token : String) (call : Call) (store : TelemetryTicketStore)
    → IsOther token call
    → lookup token store.tickets ≡ none
    → lookup token (serve call store).tickets ≡ none
unfolding serve issue
serve-lookup-none token (issued t now claims) store other h = rw other (
    lookup-remove-none token t (cleanup now store.tickets)
      (lookup-cleanup-none now token store.tickets h))
serve-lookup-none token (consumed now t c s a) store other h =
    elim (Bool-cases (valid_ticket_token t)) [
      | inl p ↦
          subst (λ r. lookup token r.1.tickets ≡ none) (sym (consume-valid now t c s a store p))
            (lookup-cleanup-none now token (remove t store.tickets)
              (lookup-remove-none token t store.tickets h))
      | inr n ↦
          subst (λ r. lookup token r.1.tickets ≡ none) (sym (consume-invalid now t c s a store n)) h
    ]

serve_all-lookup-none :
    (token : String) (calls : List Call) (store : TelemetryTicketStore)
    → All (IsOther token) calls
    → lookup token store.tickets ≡ none
    → lookup token (serve_all calls store).tickets ≡ none
unfolding serve_all
serve_all-lookup-none token [] store others h = h
serve_all-lookup-none token (call ∷ calls) store (other, others) h =
    serve_all-lookup-none token calls (serve call store) others
      (serve-lookup-none token call store other h)

-- A ticket is used at most once: after a request with its token, whatever came of that, no
-- request with the token succeeds, whatever is issued and consumed in between but that token.
pub consume-consume :
    (now later : ℤ) (token : String) (c1 s1 c2 s2 : String) (a1 a2 : Bool) (calls : List Call)
    (store : TelemetryTicketStore)
    → All (IsOther token) calls
    → (consume later token c2 s2 a2 (serve_all calls (consume now token c1 s1 a1 store).1)).0
      ≡ err (sentinel unauthorized)
unfolding judge
consume-consume now later token c1 s1 c2 s2 a1 a2 calls store others =
    elim (Bool-cases (valid_ticket_token token)) [
      | inl p ↦ rw (consume-valid now token c1 s1 a1 store p) (
          let after = record store { tickets = cleanup now (remove token store.tickets) } in
          rw (consume-valid later token c2 s2 a2 (serve_all calls after) p) (
            rw (
              serve_all-lookup-none token calls after others (
                lookup-cleanup-none now token (remove token store.tickets)
                  (lookup-remove token store.tickets)))))
      | inr n ↦ rw (
          consume-invalid later token c2 s2 a2
            (serve_all calls (consume now token c1 s1 a1 store).1) n)
    ]

same_bool : (a b : Bool) → (eq_bool a b ≡ true) ↔ (a ≡ b)
same_bool a b = ground arith

judge_iff :
    (now : ℤ) (container_id stream_type : String) (admin_route : Bool)
    (o : Option TelemetryTicketClaims) (claims : TelemetryTicketClaims)
    → (judge now container_id stream_type admin_route o ≡ ok claims) ↔ (
        (o ≡ some claims)
        × (now <ℤ claims.expires_at)
        × (claims.container_id ≡ container_id)
        × (claims.stream_type ≡ stream_type)
        × (claims.admin_route ≡ admin_route))
unfolding judge
judge_iff now container_id stream_type admin_route none claims = (λ h. cc, λ h. cc)
judge_iff now container_id stream_type admin_route (some d) claims = (
  λ h. ground (
    arith,
    eq_iff d.container_id container_id,
    eq_iff d.stream_type stream_type,
    same_bool d.admin_route admin_route,
  ),
  λ h. ground (
    arith,
    eq_iff d.container_id container_id,
    eq_iff d.stream_type stream_type,
    same_bool d.admin_route admin_route,
  ),
)

-- A request succeeds exactly where its token is of the right form, is stored, has not run out and
-- was issued for the stream that is asked for; it gives the claims that are stored.
pub consume_iff :
    (now : ℤ) (token container_id stream_type : String) (admin_route : Bool)
    (store : TelemetryTicketStore) (claims : TelemetryTicketClaims)
    → ((consume now token container_id stream_type admin_route store).0 ≡ ok claims) ↔ (
        (valid_ticket_token token ≡ true)
        × (lookup token store.tickets ≡ some claims)
        × (now <ℤ claims.expires_at)
        × (claims.container_id ≡ container_id)
        × (claims.stream_type ≡ stream_type)
        × (claims.admin_route ≡ admin_route))
consume_iff now token container_id stream_type admin_route store claims =
    elim (Bool-cases (valid_ticket_token token)) [
      | inl p ↦ rw (consume-valid now token container_id stream_type admin_route store p) (
          let (to, from) =
            judge_iff now container_id stream_type admin_route (lookup token store.tickets)
              claims in
          (
            λ h. let (a, b, c, d, e) = to h in (p, a, b, c, d, e),
            λ h. from (h.1, h.2, h.3, h.4, h.5),
          ))
      | inr n ↦
          rw (consume-invalid now token container_id stream_type admin_route store n)
            (λ h. cc, λ h. cc)
    ]

abbrev pub AllLive : ℤ → List Entry → Type 0
AllLive now = All (λ e. now <ℤ e.1.expires_at)

cleanup-AllLive : (now : ℤ) (es : List Entry) → AllLive now (cleanup now es)
unfolding cleanup
cleanup-AllLive now [] = tt
cleanup-AllLive now ((t, c) ∷ es) = elim (Bool-cases (is_live now c)) [
  | inl p ↦ rw p (ground arith, cleanup-AllLive now es)
  | inr n ↦ rw n (cleanup-AllLive now es)
]

remove-AllLive :
    (now : ℤ) (t : String) (es : List Entry) → AllLive now es → AllLive now (remove t es)
remove-AllLive now t [] h = tt
remove-AllLive now t ((u, c) ∷ es) (h, hs) = elim (Bool-cases (str_eq u t)) [
  | inl p ↦ rw p (remove-AllLive now t es hs)
  | inr n ↦ rw n (h, remove-AllLive now t es hs)
]

-- After an issue every ticket that the store holds is still good, where tickets live for a time.
pub issue-AllLive :
    (token : String) (now : ℤ) (claims : TelemetryTicketClaims) (store : TelemetryTicketStore)
    → pos 0 <ℤ store.ttl
    → AllLive now (issue token now claims store).tickets
unfolding issue ◌+ℤ◌
issue-AllLive token now claims store h = (
  ground arith,
  remove-AllLive now token (cleanup now store.tickets) (cleanup-AllLive now store.tickets),
)

-- A ticket that is issued can be used for the stream that it names, until it runs out.
pub consume-issue :
    (token : String) (now later : ℤ) (claims : TelemetryTicketClaims) (store : TelemetryTicketStore)
    → valid_ticket_token token ≡ true
    → later <ℤ (now +ℤ store.ttl)
    → (consume later token claims.container_id claims.stream_type claims.admin_route
        (issue token now claims store)).0
      ≡ ok (record claims { expires_at = now +ℤ store.ttl })
unfolding issue
consume-issue token now later claims store p h =
    let here : str_eq token token ≡ true = (eq_iff token token).1 refl in
    (consume_iff later token claims.container_id claims.stream_type claims.admin_route
        (issue token now claims store) (record claims { expires_at = now +ℤ store.ttl })).1
      (p, rw here refl, h, refl, refl, refl)
