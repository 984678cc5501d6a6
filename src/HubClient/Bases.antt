-- ===== src/HubClient/Bases.antt =====
-- internal/hubclient/hubclient.go: the two bases of an address, against its scheme and host.
use netso.Common.{
  ◌∷◌, ◌≡◌, ◌≢◌, refl, sym, ap, ◌∙◌, Bool, true, false, ◌++◌, [], ◌||◌, if◌then◌else◌, Bool-cases,
  inl, inr, arith,
}
use netso.Common.Bytes.{Bytes, codes, has_prefix, trim_prefix, drop_prefix, has_prefix-split}
use netso.Common.Trim.{trim_right, is_slash, trim_right-append, trim_right-idempotent}
use netso.HubClient.{ws_base, http_base}

-- An address says whether to use TLS, and which host.
pub record Address : Type 0 where
  pub tls : Bool
  pub host : Bytes

unfoldable pub address_of : Bytes → Address
address_of hub =
    if has_prefix hub (codes "wss://")
    then record { tls = true; host = trim_prefix hub (codes "wss://") }
    else if has_prefix hub (codes "ws://")
    then record { tls = false; host = trim_prefix hub (codes "ws://") }
    else if has_prefix hub (codes "https://")
    then record { tls = true; host = trim_prefix hub (codes "https://") }
    else if has_prefix hub (codes "http://")
    then record { tls = false; host = trim_prefix hub (codes "http://") }
    else record { tls = false; host = hub }

-- The address with its host cut at the trailing slashes.
abbrev pub trimmed : Bytes → Address
trimmed hub = let a = address_of hub in record { tls = a.tls; host = trim_right is_slash a.host }

abbrev pub ws_url : Address → Bytes
ws_url a = if a.tls then codes "wss://" ++ a.host else codes "ws://" ++ a.host

abbrev pub http_url : Address → Bytes
http_url a = if a.tls then codes "https://" ++ a.host else codes "http://" ++ a.host

-- An address with its scheme, trimmed whole.
trim_scheme :
    (hub scheme : Bytes)
    → has_prefix hub scheme ≡ true
    → trim_right is_slash (trim_prefix hub scheme) ≢ []
    → trim_right is_slash hub ≡ scheme ++ trim_right is_slash (trim_prefix hub scheme)
trim_scheme hub scheme h kept =
    ap (trim_right is_slash) (has_prefix-split hub scheme h)
    ∙ trim_right-append is_slash scheme (trim_prefix hub scheme) kept

-- An address that begins with the byte of one scheme does not begin with another's.
schemes_apart :
    (hub : Bytes)
    → (has_prefix hub (codes "wss://") || has_prefix hub (codes "ws://")) ≡ true
    → (has_prefix hub (codes "https://") || has_prefix hub (codes "http://")) ≡ false
unfolding has_prefix
schemes_apart [] h = absurd (ground arith)
schemes_apart (c ∷ s) h = ground arith

module _ (hub : Bytes) (kept : (trimmed hub).host ≢ []) where
  ws_base_lem : ws_base hub ≡ ws_url (trimmed hub)
  unfolding ws_base address_of
  ws_base_lem = ground (arith, trim_scheme hub (codes "wss://"), trim_scheme hub (codes "ws://"))

  http_base_lem : http_base hub ≡ http_url (trimmed hub)
  unfolding http_base address_of
  http_base_lem = ground (
    arith,
    trim_scheme hub (codes "https://"),
    trim_scheme hub (codes "http://"),
    schemes_apart hub,
  )

address_of-ws_url : (a : Address) → address_of (ws_url a) ≡ a
unfolding address_of has_prefix trim_prefix drop_prefix
address_of-ws_url a = elim (Bool-cases a.tls) [ inl e ↦ rw e refl | inr e ↦ rw e refl ]

address_of-http_url : (a : Address) → address_of (http_url a) ≡ a
unfolding address_of has_prefix trim_prefix drop_prefix
address_of-http_url a = elim (Bool-cases a.tls) [ inl e ↦ rw e refl | inr e ↦ rw e refl ]

-- The hub's address, with or without a scheme, becomes a websocket URL and an HTTP URL of the same
-- host without its trailing slashes, both with TLS when the scheme says so and neither otherwise, if
-- the host is more than slashes.
pub bases-trimmed :
    (hub : Bytes)
    → (trimmed hub).host ≢ []
    → (ws_base hub ≡ ws_url (trimmed hub)) × (http_base hub ≡ http_url (trimmed hub))
bases-trimmed hub kept = (ws_base_lem hub kept, http_base_lem hub kept)

trimmed-ws_url : (hub : Bytes) → trimmed (ws_url (trimmed hub)) ≡ trimmed hub
trimmed-ws_url hub =
    let same = address_of-ws_url (trimmed hub) in
    ap (λ a. record { tls = a.tls; host = trim_right is_slash a.host }) same
    ∙ ap (λ s. record { tls = (address_of hub).tls; host = s })
        (trim_right-idempotent is_slash (address_of hub).host)

trimmed-http_url : (hub : Bytes) → trimmed (http_url (trimmed hub)) ≡ trimmed hub
trimmed-http_url hub =
    let same = address_of-http_url (trimmed hub) in
    ap (λ a. record { tls = a.tls; host = trim_right is_slash a.host }) same
    ∙ ap (λ s. record { tls = (address_of hub).tls; host = s })
        (trim_right-idempotent is_slash (address_of hub).host)

-- Either base of a base is that base of the address itself, so that a base can stand for the address
-- wherever one is asked for, if the host is more than slashes.
pub base-base :
    (hub : Bytes)
    → (trimmed hub).host ≢ []
    → (ws_base (ws_base hub) ≡ ws_base hub)
      × (ws_base (http_base hub) ≡ ws_base hub)
      × (http_base (ws_base hub) ≡ http_base hub)
      × (http_base (http_base hub) ≡ http_base hub)
base-base hub kept =
    let w = trimmed-ws_url hub in
    let h = trimmed-http_url hub in
    let from_ws = bases-trimmed (ws_url (trimmed hub)) (λ e. kept (ap (λ a. a.host) (sym w) ∙ e)) in
    let from_http =
      bases-trimmed (http_url (trimmed hub)) (λ e. kept (ap (λ a. a.host) (sym h) ∙ e)) in
    let (ws, http) = bases-trimmed hub kept in
    (
      ap ws_base ws ∙ from_ws.0 ∙ ap ws_url w ∙ sym ws,
      ap ws_base http ∙ from_http.0 ∙ ap ws_url h ∙ sym ws,
      ap http_base ws ∙ from_ws.1 ∙ ap http_url w ∙ sym http,
      ap http_base http ∙ from_http.1 ∙ ap http_url h ∙ sym http,
    )
