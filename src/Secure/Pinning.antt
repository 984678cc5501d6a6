-- ===== src/Secure/Pinning.antt =====
-- internal/secure/secure.go: whom an initiator's session is with.
use netso.Common.{
  ◌≡◌, ap, ◌∙◌, true, Option, [], arith, Bool-cases, inl, inr, Option-cases, length, ◌==◌,
}
use netso.Common.Bytes.{Bytes}
use netso.Common.Result.{ok, Result-cases}
use netso.Secure.{Keypair, Config, MsgConn, Noise, Session, initiate, session_of, handshake}

-- The configuration of an initiator, which pins the peer's key.
abbrev pub pinning : Keypair → Bytes → Config
pinning kp pin = record { static_key = kp; initiator = true; peer_static = pin; authorized = [] }

module _ (noise : Noise) where
  -- An initiator's handshake is an initiator's and about the key that it was given, also when a message
  -- was written or read. Nothing is said of a responder's, which learns the key of its peer.
  pub record IsPinning (Initiates : noise.State → Type 0) : Type 0 where
    pub made :
        (kp : Keypair) (pin : Bytes) (hs : noise.State)
        → noise.new (pinning kp pin) ≡ ok hs
        → Initiates hs × (noise.peer_static hs ≡ pin)
    pub wrote :
        (hs : noise.State) (done : noise.State × Bytes × Option noise.Cipher × Option noise.Cipher)
        → Initiates hs
        → noise.write_message hs ≡ ok done
        → Initiates done.0 × (noise.peer_static done.0 ≡ noise.peer_static hs)
    pub read :
        (hs : noise.State) (m : Bytes)
        (done : noise.State × Option noise.Cipher × Option noise.Cipher)
        → Initiates hs
        → noise.read_message hs m ≡ ok done
        → noise.peer_static done.0 ≡ noise.peer_static hs

  module _ {W : Type 0} (conn : MsgConn W) (Initiates : noise.State → Type 0) where
    initiate-peer :
        (hs : noise.State) (w : W) (done : noise.State × Option noise.Cipher × Option noise.Cipher)
        → IsPinning Initiates
        → Initiates hs
        → (initiate conn noise hs w).1 ≡ ok done
        → noise.peer_static done.0 ≡ noise.peer_static hs
    unfolding initiate
    initiate-peer hs w done law begun h = elim (Result-cases (noise.write_message hs)) [
      | inl (e, failed) ↦ absurd (ground arith)
      | inr (m, written) ↦ elim (Option-cases (conn.write_msg m.1 w).1) [
        | inr (e, failed) ↦ absurd (ground arith)
        | inl sent ↦
            let w' = (conn.write_msg m.1 w).0 in
            elim (Result-cases (conn.read_msg w').1) [
              | inl (e, failed) ↦ absurd (ground arith)
              | inr (msg2, got) ↦ elim (Result-cases (noise.read_message m.0 msg2)) [
                | inl (e, failed) ↦ absurd (ground arith)
                | inr (r, understood) ↦
                    let same : done ≡ r = ground arith in
                    let (still, kept) = law.wrote hs m begun written in
                    ap (λ x. noise.peer_static x.0) same
                    ∙ law.read m.0 msg2 r still understood
                    ∙ kept
              ]
            ]
      ]
    ]

    pub handshake-peer :
        (kp : Keypair) (key : Bytes) (w : W) (sess : Session noise.Cipher)
        → IsPinning Initiates
        → (handshake conn noise (pinning kp key) w).1 ≡ ok sess
        → sess.peer_static ≡ key
    unfolding handshake session_of
    handshake-peer kp key w sess law h = elim (Bool-cases (length key == 0)) [
      | inl unpinned ↦ absurd (ground arith)
      | inr given ↦ elim (Result-cases (noise.new (pinning kp key))) [
        | inl (e, failed) ↦ absurd (ground arith)
        | inr (hs, made) ↦ elim (Result-cases (initiate conn noise hs w).1) [
          | inl (e, failed) ↦ absurd (ground arith)
          | inr (done, completed) ↦
              let same : sess.peer_static ≡ noise.peer_static done.0 = ground arith in
              let (begun, about) = law.made kp key hs made in
              same ∙ initiate-peer hs w done law begun completed ∙ about
        ]
      ]
    ]
