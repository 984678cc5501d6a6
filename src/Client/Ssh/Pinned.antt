-- ===== src/Client/Ssh/Pinned.antt =====
-- cmd/netso/main.go: whom a session of `netso ssh` is with.
use netso.Common.{
  ◌≡◌, ◌≢◌, ◌⊎◌, sym, ap, ◌∙◌, some, List, [], arith, Bool-cases, inl, inr, Option-cases,
}
use netso.Common.Bytes.{Bytes, str_eq, str_eq_iff}
use netso.Common.Result.{Result, ok, Result-cases}
use netso.Base64.{decode_public}
use netso.Map.{Map}
use netso.Registry.{Peer}
use netso.HubClient
use netso.Secure.{Error, Keypair, Noise, Session, handshake}
use netso.Secure.Identity.{Faults, resolve_identity}
use netso.Secure.Pinning.{pinning, IsPinning, handshake-peer}
use netso.Client.{find_pin, connect_url, pin, pin_key}
use netso.Client.Ssh.{Flags, Host, look_up, open_session, ssh_with, ssh}

module _ (noise : Noise) (Initiates : noise.State → Type 0) {W : Type 0} (host : Host W) where
  open_session-peer :
      (flags : Flags) (kp : Keypair) (key : Bytes) (w : W) (sess : Session noise.Cipher)
      → IsPinning noise Initiates
      → (open_session host noise flags kp key w).1 ≡ ok sess
      → sess.peer_static ≡ key
  unfolding open_session
  open_session-peer flags kp key w sess law h =
      let w' = (host.dial (connect_url flags.hub flags.network flags.peer) w).0 in
      elim (Option-cases (host.dial (connect_url flags.hub flags.network flags.peer) w).1) [
        | inr (e, failed) ↦ absurd (ground arith)
        | inl dialled ↦ elim (Result-cases (handshake host.conn noise (pinning kp key) w').1) [
          | inl (e, failed) ↦ absurd (ground arith)
          | inr (s, made) ↦
              let same : s ≡ sess = ground arith in
              ap (λ x. x.peer_static) (sym same)
              ∙ handshake-peer noise host.conn Initiates kp key w' s law made
        ]
      ]

  -- The text that is looked up is the key that was given, or the key that discovery has.
  look_up-ok :
      (flags : Flags) (w : W) (text : Bytes)
      → (look_up host noise flags w).1 ≡ ok text
      → ((flags.auth_agent ≢ []) × (text ≡ flags.auth_agent))
        ⊎ ((peers : List Peer) × (flags.auth_agent ≡ [])
            × ((HubClient.peers host.get flags.hub flags.network w).1 ≡ ok peers)
            × (pin [] flags.peer peers ≡ some text))
  unfolding look_up pin str_eq
  look_up-ok flags w text h = elim (Bool-cases (str_eq flags.auth_agent [])) [
    | inr given ↦ inl (
      (λ e. absurd (let same = (str_eq_iff flags.auth_agent []).1 e in ground arith)),
      ground arith,
    )
    | inl not_given ↦ elim (Result-cases (HubClient.peers host.get flags.hub flags.network w).1) [
      | inl (e, failed) ↦ absurd (ground arith)
      | inr (peers, found) ↦ elim (Bool-cases (str_eq (find_pin flags.peer peers) [])) [
        | inl nobody ↦ absurd (ground arith)
        | inr somebody ↦
            inr (peers, (str_eq_iff flags.auth_agent []).0 not_given, found, ground arith)
      ]
    ]
  ]

  ssh_with-pins :
      (flags : Flags) (kp : Keypair) (w : W) (sess : Session noise.Cipher)
      → IsPinning noise Initiates
      → (ssh_with host noise flags kp w).1 ≡ ok sess
      → (text : Bytes) × ((look_up host noise flags w).1 ≡ ok text)
        × (decode_public text ≡ some sess.peer_static)
  unfolding ssh_with
  ssh_with-pins flags kp w sess law h =
      let w' = (look_up host noise flags w).0 in
      elim (Result-cases (look_up host noise flags w).1) [
        | inl (e, failed) ↦ absurd (ground arith)
        | inr (text, found) ↦ elim (Option-cases (decode_public text)) [
          | inl unreadable ↦ absurd (ground arith)
          | inr (key, decoded) ↦
              let opened : (open_session host noise flags kp key w').1 ≡ ok sess = ground arith in
              (
                text,
                found,
                decoded ∙ ap some (sym (open_session-peer flags kp key w' sess law opened)),
              )
        ]
      ]

  -- A session that `netso ssh` opens is with the peer whose key it was given, decoded; or, when it
  -- was given none, with the key that it pins by the peers that discovery has answered. The Noise
  -- library's handshake of an initiator is about the key that it was given.
  pub ssh-pins :
      (generated : Result Error Keypair) (faults : Faults) (flags : Flags) (files : Map Bytes)
      (w : W) (sess : Session noise.Cipher)
      → IsPinning noise Initiates
      → (ssh host noise generated faults flags files w).2 ≡ ok sess
      → ((flags.auth_agent ≢ []) × (decode_public flags.auth_agent ≡ some sess.peer_static))
        ⊎ ((peers : List Peer) × (flags.auth_agent ≡ [])
            × ((HubClient.peers host.get flags.hub flags.network w).1 ≡ ok peers)
            × (pin_key [] flags.peer peers ≡ some sess.peer_static))
  unfolding ssh pin_key
  ssh-pins generated faults flags files w sess law h =
      let id = (resolve_identity generated flags.identity flags.priv flags.public faults files).1 in
      elim (Bool-cases (str_eq flags.peer [])) [
        | inl no_name ↦ absurd (ground arith)
        | inr named ↦ elim (Result-cases id) [
          | inl (e, failed) ↦ absurd (ground arith)
          | inr (kp, resolved) ↦
              let opened : (ssh_with host noise flags kp w).1 ≡ ok sess = ground arith in
              let (text, found, decoded) = ssh_with-pins flags kp w sess law opened in
              elim (look_up-ok flags w text found) [
                | inl (given, same) ↦ inl (given, ap decode_public (sym same) ∙ decoded)
                | inr (peers, not_given, answered, pinned) ↦
                    inr (peers, not_given, answered, rw (pinned, pin_key) decoded)
              ]
        ]
      ]
