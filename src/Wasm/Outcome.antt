-- ===== src/Wasm/Outcome.antt =====
-- cmd/netso-wasm/main.go: how the opening of a session ends.
use netso.Common.{
  ℕ, suc, ◌≡◌, ◌⊎◌, refl, sym, ap, ◌∙◌, Bool, true, false, Option, none, some, List, [], ◌∷◌, ◌++◌,
  arith, Bool-cases, Option-cases, inl, inr, append-[], append_assoc, length, ◌==◌,
}
use netso.Common.Bytes.{Bytes, str_eq}
use netso.Common.Result.{Result-cases}
use netso.Base64.{encode_public, decode_public}
use netso.Secure.{Keypair, MsgConn, Noise, Session, initiate, handshake}
use netso.Secure.Pinning.{pinning, IsPinning, handshake-peer}
use netso.Wasm.{Status, Page, status, closed, give_up, establish, connect}

module _ {W A : Type 0} (conn : MsgConn W) (noise : Noise) (seen : W → A) where
  -- The connection does not change what is seen.
  pub record IsQuiet : Type 0 where
    pub reads : (w : W) → seen (conn.read_msg w).0 ≡ seen w
    pub writes : (m : Bytes) (w : W) → seen (conn.write_msg m w).0 ≡ seen w
    pub closes : (w : W) → seen (conn.close w) ≡ seen w

  initiate-quiet : (hs : noise.State) (w : W) → IsQuiet → seen (initiate conn noise hs w).0 ≡ seen w
  unfolding initiate
  initiate-quiet hs w q = elim (Result-cases (noise.write_message hs)) [
    | inl (e, refused) ↦ ground arith
    | inr (m, written) ↦
        let w' = (conn.write_msg m.1 w).0 in
        let same : seen w' ≡ seen w = q.writes m.1 w in
        elim (Option-cases (conn.write_msg m.1 w).1) [
          | inr (e, refused) ↦ ground arith
          | inl sent ↦
              let same' : seen (conn.read_msg w').0 ≡ seen w' = q.reads w' in
              elim (Result-cases (conn.read_msg w').1) [
                | inl (e, refused) ↦ ground arith
                | inr (msg2, got) ↦ elim (Result-cases (noise.read_message m.0 msg2)) [
                  | inl (e, refused) ↦ ground arith
                  | inr (r, understood) ↦ ground arith
                ]
              ]
        ]
  ]

  handshake-quiet :
      (kp : Keypair) (pin : Bytes) (w : W)
      → IsQuiet
      → seen (handshake conn noise (pinning kp pin) w).0 ≡ seen w
  unfolding handshake
  handshake-quiet kp pin w q = elim (Bool-cases (length pin == 0)) [
    | inl unpinned ↦ ground arith
    | inr given ↦ elim (Result-cases (noise.new (pinning kp pin))) [
      | inl (e, refused) ↦ ground arith
      | inr (hs, made) ↦ ground (arith, initiate-quiet hs w q)
    ]
  ]

abbrev pub is_failure : Status → Bool
is_failure Status.connecting = false
is_failure Status.handshaking = false
is_failure (Status.connected key) = false
is_failure Status.session_closed = false
is_failure _ = true

-- A page sees statuses and how often it was told that the session is closed. Its callbacks are both
-- there, and nothing else changes what it has seen.
pub record IsPage {W : Type 0} (page : Page W) (noise : Noise) (seen : W → List Status × ℕ)
    : Type 0 where
  pub tells : Status → W → W
  pub ends : W → W
  pub told : page.on_status ≡ some tells
  pub ended : page.on_close ≡ some ends
  pub tells_seen : (st : Status) (w : W) → seen (tells st w) ≡ ((seen w).0 ++ st ∷ [], (seen w).1)
  pub ends_seen : (w : W) → seen (ends w) ≡ ((seen w).0, suc (seen w).1)
  pub dial_seen : (url : Bytes) (w : W) → seen (page.dial url w).0 ≡ seen w
  pub generate_seen : (w : W) → seen (page.generate w).0 ≡ seen w
  pub conn_seen : IsQuiet page.conn noise seen

module _ {W : Type 0} (page : Page W) (noise : Noise) (seen : W → List Status × ℕ) where
  pub status-seen :
      (st : Status) (w : W)
      → IsPage page noise seen
      → seen (status page noise st w) ≡ ((seen w).0 ++ st ∷ [], (seen w).1)
  status-seen st w p = rw p.told (p.tells_seen st w)

  pub closed-seen :
      (w : W) → IsPage page noise seen → seen (closed page noise w) ≡ ((seen w).0, suc (seen w).1)
  closed-seen w p = rw p.ended (p.ends_seen w)

  -- The session is up, or one error was told and the close once, after these statuses.
  abbrev pub IsOutcome : List Status × ℕ → Option Bytes → W × Option (Session noise.Cipher) → Type 0
  IsOutcome before pin r =
      ((sess : Session noise.Cipher) × (r.1 ≡ some sess)
        × (pin ≡ some sess.peer_static)
        × (seen r.0 ≡ (
          before.0
              ++ (Status.connecting
                  ∷ Status.handshaking
                  ∷ Status.connected (encode_public sess.peer_static)
                  ∷ []),
          before.1,
        )))
      ⊎ ((l : List Status) × (st : Status) × (r.1 ≡ none)
          × (is_failure st ≡ true)
          × (seen r.0 ≡ (before.0 ++ (l ++ st ∷ []), suc before.1)))

  -- A status after those that were told already.
  tell :
      (st : Status) (w : W) (before : List Status × ℕ) (l : List Status)
      → IsPage page noise seen
      → seen w ≡ (before.0 ++ l, before.1)
      → seen (status page noise st w) ≡ (before.0 ++ (l ++ st ∷ []), before.1)
  tell st w before l p at =
      status-seen st w p
      ∙ ap (λ x. (x.0 ++ st ∷ [], x.1)) at
      ∙ ap (λ x. (x, before.1)) (append_assoc before.0 l (st ∷ []))

  -- An error after those statuses, and the close.
  tell_last :
      (st : Status) (w : W) (before : List Status × ℕ) (l : List Status)
      → IsPage page noise seen
      → seen w ≡ (before.0 ++ l, before.1)
      → seen (give_up page noise st w).0 ≡ (before.0 ++ (l ++ st ∷ []), suc before.1)
  tell_last st w before l p at =
      closed-seen (status page noise st w) p ∙ ap (λ x. (x.0, suc x.1)) (tell st w before l p at)

  abandon :
      (st : Status) (w : W) (before : List Status × ℕ) (l : List Status)
      → IsPage page noise seen
      → seen w ≡ (before.0 ++ l, before.1)
      → seen (closed page noise (page.conn.close (status page noise st w)))
        ≡ (before.0 ++ (l ++ st ∷ []), suc before.1)
  abandon st w before l p at =
      closed-seen (page.conn.close (status page noise st w)) p
      ∙ ap (λ x. (x.0, suc x.1))
          (p.conn_seen.closes (status page noise st w) ∙ tell st w before l p at)

  establish-IsOutcome :
      (Initiates : noise.State → Type 0) (pin : Bytes) (w : W) (before : List Status × ℕ)
      → IsPage page noise seen
      → IsPinning noise Initiates
      → seen w ≡ (before.0 ++ Status.connecting ∷ [], before.1)
      → IsOutcome before (some pin) (establish page noise pin w)
  unfolding establish
  establish-IsOutcome Initiates pin w before p law at =
      let w' = (page.generate w).0 in
      let at' : seen w' ≡ (before.0 ++ Status.connecting ∷ [], before.1) = p.generate_seen w ∙ at in
      elim (Result-cases (page.generate w).1) [
        | inl (e, refused) ↦ inr (
          Status.connecting ∷ [],
          Status.keygen_failed,
          ground arith,
          refl,
          rw (refused, establish)
              (abandon Status.keygen_failed w' before (Status.connecting ∷ []) p at'),
        )
        | inr (kp, made) ↦
            let hw = status page noise Status.handshaking w' in
            let w'' = (handshake page.conn noise (pinning kp pin) hw).0 in
            let at_hands = tell Status.handshaking w' before (Status.connecting ∷ []) p at' in
            let at'' = handshake-quiet page.conn noise seen kp pin hw p.conn_seen ∙ at_hands in
            elim (Result-cases (handshake page.conn noise (pinning kp pin) hw).1) [
              | inl (e, refused) ↦ inr (
                Status.connecting ∷ Status.handshaking ∷ [],
                Status.auth_failed e,
                ground arith,
                refl,
                rw (made, refused, establish)
                    (abandon (Status.auth_failed e) w'' before
                      (Status.connecting ∷ Status.handshaking ∷ []) p at''),
              )
              | inr (sess, done) ↦ inl (
                sess,
                ground arith,
                ap some (sym (handshake-peer noise page.conn Initiates kp pin hw sess law done)),
                rw (made, done, establish)
                    (tell (Status.connected (encode_public sess.peer_static)) w'' before
                      (Status.connecting ∷ Status.handshaking ∷ []) p at''),
              )
            ]
      ]

  -- Opening a session in the browser has one of two outcomes. Either the session is up, its peer has the
  -- key that the page gave, decoded, and the page was told that it is connecting, handshaking and
  -- connected to that key. Or there is no session, and after some statuses the page was told of one
  -- error and, once, that the session is closed. The page has both callbacks, nothing else changes
  -- what it has seen, and the Noise library's handshake of an initiator is about the key that it was
  -- given.
  pub connect-IsOutcome :
      (Initiates : noise.State → Type 0) (ws_url agent_pub : Bytes) (w : W)
      → IsPage page noise seen
      → IsPinning noise Initiates
      → IsOutcome (seen w) (decode_public agent_pub) (connect page noise ws_url agent_pub w)
  unfolding connect
  connect-IsOutcome Initiates ws_url agent_pub w p law =
      let at : seen w ≡ ((seen w).0 ++ [], (seen w).1) =
        ap (λ l. (l, (seen w).1)) (sym (append-[] (seen w).0)) in
      elim (Bool-cases (str_eq agent_pub [])) [
        | inl no_key ↦ inr (
          [],
          Status.key_required,
          ground arith,
          refl,
          rw (no_key, connect) (tell_last Status.key_required w (seen w) [] p at),
        )
        | inr some_key ↦ elim (Option-cases (decode_public agent_pub)) [
          | inl unreadable ↦ inr (
            [],
            Status.bad_key,
            ground arith,
            refl,
            rw (some_key, unreadable, connect) (tell_last Status.bad_key w (seen w) [] p at),
          )
          | inr (pin, decoded) ↦
              let w₁ = status page noise Status.connecting w in
              let w₂ = (page.dial ws_url w₁).0 in
              let at' = p.dial_seen ws_url w₁ ∙ tell Status.connecting w (seen w) [] p at in
              elim (Option-cases (page.dial ws_url w₁).1) [
                | inr (e, refused) ↦ inr (
                  Status.connecting ∷ [],
                  Status.failed e,
                  ground arith,
                  refl,
                  rw (some_key, decoded, refused, connect)
                      (tell_last (Status.failed e) w₂ (seen w) (Status.connecting ∷ []) p at'),
                )
                | inl dialled ↦
                    rw (some_key, decoded, dialled, connect)
                      (establish-IsOutcome Initiates pin w₂ (seen w) p law at')
              ]
        ]
      ]
