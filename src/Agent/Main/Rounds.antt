-- ===== src/Agent/Main/Rounds.antt =====
-- cmd/netso-agent/main.go: whom an agent with a static client serves, in every round.
use netso.Common.{
  ◌≡◌, ◌≢◌, ◌⊎◌, refl, sym, ap, ◌∙◌, subst, not, some, List, [], ◌∷◌, ◌++◌, All, append-[], if_both,
  arith, inl, inr, Bool-cases, Option-cases, if◌then◌else◌,
}
use netso.Common.Bytes.{Bytes, str_eq, str_eq_ne}
use netso.Common.Result.{Result, ok, err, Result-cases}
use netso.Map.{Map}
use netso.Base64.{decode_public}
use netso.Secure.{Error, Scanned, Keypair, Noise, Session, load_authorized_keys, handshake}
use netso.Secure.Identity.{Faults, resolve_identity}
use netso.Secure.Admission.{IsListed, IsAdmitted, WriteKeepsPeer, handshake-admits}
use netso.Agent.{allowlist, keys_of}
use netso.Agent.Serve.{Host, config, shell_start, attach, serve}
use netso.Agent.Main.{Flags, Ready, static_of, prepare, set_up, rounds}

-- An agent that is told one client has exactly it for its static clients.
static_of-given :
    (auth_client : Bytes) (static : List Bytes)
    → auth_client ≢ []
    → static_of auth_client ≡ some static
    → (pk : Bytes) × (decode_public auth_client ≡ some pk) × (static ≡ pk ∷ [])
static_of-given auth_client static given e =
    let named = str_eq_ne auth_client [] given in
    elim (Option-cases (decode_public auth_client)) [
      | inl bad ↦ absurd (ground arith)
      | inr (pk, good) ↦ (pk, good, ground arith)
    ]

set_up-static :
    (flags : Flags) (generated : Result Error Keypair) (faults : Faults) (files : Map Bytes)
    (ready : Ready)
    → (set_up flags generated faults files).1 ≡ ok ready
    → static_of flags.auth_client ≡ some ready.static_allowed
unfolding set_up prepare
set_up-static flags generated faults files ready e = elim (Bool-cases (str_eq flags.name [])) [
  | inl unnamed ↦ absurd (ground arith)
  | inr named ↦
      elim (Result-cases
        (resolve_identity generated flags.identity flags.private flags.public faults files).1) [
          | inl (x, failed) ↦ absurd (ground arith)
          | inr (kp, done) ↦ elim (Option-cases (static_of flags.auth_client)) [
            | inl bad ↦ absurd (ground arith)
            | inr (static, good) ↦ ground arith
          ]
        ]
]

-- The clients of the file, none when there is no file or it cannot be read.
abbrev pub file_clients : Flags → Result Error Scanned → List Bytes
file_clients flags file =
    if not (str_eq flags.auth_clients []) then keys_of (load_authorized_keys file) else []

allowlist-append :
    (flags : Flags) (file : Result Error Scanned) (static : List Bytes)
    → allowlist flags.auth_clients file static ≡ static ++ file_clients flags file
unfolding allowlist
allowlist-append flags file static = elim (Bool-cases (str_eq flags.auth_clients [])) [
  | inl no_file ↦ rw no_file (sym (append-[] static))
  | inr given ↦ elim (Result-cases (load_authorized_keys file)) [
    | inl (e, unread) ↦ rw (given, unread) (sym (append-[] static))
    | inr (keys, read) ↦ rw (given, read) refl
  ]
]

-- The session of a round, if there is one, is with the static client or with a client of the file.
abbrev pub IsWelcome :
    {C : Type 0} → Flags → Result Error Scanned → Result Error (Session C) → Type 0
IsWelcome flags file (err e) = Unit
IsWelcome flags file (ok sess) =
    (decode_public flags.auth_client ≡ some sess.peer_static)
    ⊎ IsListed sess.peer_static (file_clients flags file)

module _ {W : Type 0} (host : Host W) (noise : Noise) (between : W → W) where
  -- A session that is served is the handshake's.
  serve-session :
      (url path : Bytes) (kp : Keypair) (allowed : List Bytes) (w : W) (sess : Session noise.Cipher)
      → (serve host noise url kp allowed path w).1 ≡ ok sess
      → (w' : W) × ((handshake host.conn noise (config kp allowed) w').1 ≡ ok sess)
  unfolding serve attach
  serve-session url path kp allowed w sess e =
      let w₁ = (host.dial url w).0 in
      let h = handshake host.conn noise (config kp allowed) w₁ in
      elim (Option-cases (host.dial url w).1) [
        | inr (d, failed) ↦ absurd (ground arith)
        | inl dialled ↦ elim (Result-cases h.1) [
          | inl (x, failed) ↦ absurd (ground arith)
          | inr (sess', made) ↦ elim (Option-cases (shell_start host noise path h.0).1) [
            | inr (x, failed) ↦ absurd (ground arith)
            | inl started ↦ (w₁, ground arith)
          ]
        ]
      ]

  outcome-IsWelcome :
      (flags : Flags) (ready : Ready) (pk : Bytes) (file : Result Error Scanned) (w : W)
      (outcome : Result Error (Session noise.Cipher))
      → decode_public flags.auth_client ≡ some pk
      → ready.static_allowed ≡ pk ∷ []
      → WriteKeepsPeer host.conn noise (config ready.kp [])
      → (serve host noise ready.url ready.kp
          (allowlist flags.auth_clients file ready.static_allowed)
          flags.shell
          w).1
        ≡ outcome
      → IsWelcome flags file outcome
  outcome-IsWelcome flags ready pk file w (err e) key one keeps served = tt
  outcome-IsWelcome flags ready pk file w (ok sess) key one keeps served =
      let allowed = allowlist flags.auth_clients file ready.static_allowed in
      let keys = file_clients flags file in
      let list : allowed ≡ pk ∷ keys =
        allowlist-append flags file ready.static_allowed ∙ ap (λ l. l ++ keys) one in
      let (w', made) = serve-session ready.url flags.shell ready.kp allowed w sess served in
      let admitted =
        handshake-admits host.conn noise (config ready.kp allowed) w' sess refl keeps made in
      elim (subst (IsAdmitted sess.peer_static) list admitted) [
        | inl nobody ↦ absurd (ground arith)
        | inr (inl same) ↦ inl (key ∙ ap some same)
        | inr (inr listed) ↦ inr listed
      ]

  ready-IsWelcome :
      (flags : Flags) (ready : Ready) (pk : Bytes) (files : List (Result Error Scanned)) (w : W)
      → decode_public flags.auth_client ≡ some pk
      → ready.static_allowed ≡ pk ∷ []
      → WriteKeepsPeer host.conn noise (config ready.kp [])
      → All (λ r. IsWelcome flags r.file r.outcome) (rounds host noise between flags ready files w)
  unfolding rounds
  ready-IsWelcome flags ready pk [] w key one keeps = tt
  ready-IsWelcome flags ready pk (file ∷ files) w key one keeps =
      let allowed = allowlist flags.auth_clients file ready.static_allowed in
      let r = serve host noise ready.url ready.kp allowed flags.shell w in
      (
        outcome-IsWelcome flags ready pk file w r.1 key one keeps refl,
        if_both (All (λ r. IsWelcome flags r.file r.outcome)) flags.once _ _ (λ once. tt)
            (λ again. ready-IsWelcome flags ready pk files (between r.0) key one keeps),
      )

  -- An agent that is told one client, and whose flags and identity are in order, is open to nobody
  -- else: in every round, whatever the network and the client do and whatever can be read of the
  -- file, a session is with that client or with a client that the file has listed in this round. The
  -- Noise library keeps the key that it has read when it writes.
  pub rounds-IsWelcome :
      (flags : Flags) (generated : Result Error Keypair) (faults : Faults) (files : Map Bytes)
      (ready : Ready) (readings : List (Result Error Scanned)) (w : W)
      → flags.auth_client ≢ []
      → (set_up flags generated faults files).1 ≡ ok ready
      → WriteKeepsPeer host.conn noise (config ready.kp [])
      → All
          (λ r. IsWelcome flags r.file r.outcome)
          (rounds host noise between flags ready readings w)
  rounds-IsWelcome flags generated faults files ready readings w given done keeps =
      let (pk, key, one) =
        static_of-given flags.auth_client ready.static_allowed given
          (set_up-static flags generated faults files ready done) in
      ready-IsWelcome flags ready pk readings w key one keeps
