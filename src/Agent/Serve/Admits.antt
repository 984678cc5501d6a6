-- ===== src/Agent/Serve/Admits.antt =====
-- cmd/netso-agent/main.go: whom the agent starts a shell for.
use netso.Common.{
  ◌≡◌, ◌⊎◌, refl, ◌∙◌, Bool, true, none, some, List, ◌∷◌, arith, Bool-cases, inl, inr, Option-cases,
}
use netso.Common.Bytes.{Bytes}
use netso.Common.Result.{ok, err, Result-cases}
use netso.Secure.{Error, library, Keypair, Noise, Session, authorized, admit, respond, handshake}
use netso.Secure.Admission.{IsAdmitted, WriteKeepsPeer, handshake-admits}
use netso.Agent.Serve.{Host, shell_path, config, shell_start, attach, serve}

module _ {W : Type 0} (host : Host W) (noise : Noise) (kp : Keypair) (allowed : List Bytes) where
  -- The shells that were started, and whether the connection is closed.
  module _ (shells : W → List Bytes) (is_closed : W → Bool) where
    -- The connection starts no shell, and a command is started unless there is an error.
    pub record IsHost : Type 0 where
      pub dial_shells : (url : Bytes) (w : W) → shells (host.dial url w).0 ≡ shells w
      pub read_shells : (w : W) → shells (host.conn.read_msg w).0 ≡ shells w
      pub write_shells : (m : Bytes) (w : W) → shells (host.conn.write_msg m w).0 ≡ shells w
      pub close_shells : (w : W) → shells (host.conn.close w) ≡ shells w
      pub started :
          (path : Bytes) (w : W)
          → (host.start path w).1 ≡ none
          → shells (host.start path w).0 ≡ path ∷ shells w
      pub not_started :
          (path e : Bytes) (w : W)
          → (host.start path w).1 ≡ some e
          → shells (host.start path w).0 ≡ shells w
      pub close_closes : (w : W) → is_closed (host.conn.close w) ≡ true

    admit-shells :
        (hs : noise.State) (w : W)
        → IsHost
        → shells (admit host.conn noise (config kp allowed) hs w).0 ≡ shells w
    unfolding admit
    admit-shells hs w h = elim (Bool-cases (authorized (noise.peer_static hs) allowed)) [
      | inr turned_away ↦ ground (arith, h.close_shells w)
      | inl welcome ↦ elim (Result-cases (noise.write_message hs)) [
        | inl (e, failed) ↦ ground arith
        | inr ((hs', out, c0, c1), made) ↦ elim (Option-cases (host.conn.write_msg out w).1) [
          | inl sent ↦ ground (arith, h.write_shells out w)
          | inr (e, failed) ↦ ground (arith, h.write_shells out w)
        ]
      ]
    ]

    respond-shells :
        (hs : noise.State) (w : W)
        → IsHost
        → shells (respond host.conn noise (config kp allowed) hs w).0 ≡ shells w
    unfolding respond
    respond-shells hs w h = elim (Result-cases (host.conn.read_msg w).1) [
      | inl (e, failed) ↦ ground (arith, h.read_shells w)
      | inr (msg1, got) ↦ elim (Result-cases (noise.read_message hs msg1)) [
        | inl (e, failed) ↦ ground (arith, h.read_shells w)
        | inr (read, understood) ↦
            ground (arith, h.read_shells w, admit-shells read.0 (host.conn.read_msg w).0 h)
      ]
    ]

    handshake-shells :
        (w : W) → IsHost → shells (handshake host.conn noise (config kp allowed) w).0 ≡ shells w
    unfolding handshake
    handshake-shells w h = elim (Result-cases (noise.new (config kp allowed))) [
      | inl (e, failed) ↦ ground arith
      | inr (hs, made) ↦ ground (arith, respond-shells hs w h)
    ]

    attach-outcome :
        (path : Bytes) (sess : Session noise.Cipher) (w : W)
        → IsHost
        → (((attach host noise path sess w).1 ≡ ok sess)
            × (shells (attach host noise path sess w).0 ≡ shell_path path ∷ shells w))
          ⊎ ((e : Error) × ((attach host noise path sess w).1 ≡ err e)
              × (shells (attach host noise path sess w).0 ≡ shells w)
              × (is_closed (attach host noise path sess w).0 ≡ true))
    unfolding attach shell_start
    attach-outcome path sess w h =
        let p = shell_path path in
        let w' = (host.start p w).0 in
        elim (Option-cases (host.start p w).1) [
          | inl done ↦ inl (ground arith, ground (arith, h.started p w done))
          | inr (e, failed) ↦ inr (
            library e,
            ground arith,
            ground (arith, h.close_shells w', h.not_started p e w failed),
            ground (arith, h.close_closes w'),
          )
        ]

    -- Serving a dial to the hub has one of two outcomes. Either a session is established whose peer's
    -- key is on the list, or the list is empty, and exactly one shell is started, at the path that was
    -- given or at /bin/sh when none was. Or there is an error, no shell is started, and the
    -- connection is closed unless it was the dial that failed. The connection starts no shell, a
    -- command is started unless there is an error, closing closes, and the Noise library keeps the
    -- key that it has read when it writes.
    pub serve-admits :
        (url path : Bytes) (w : W)
        → IsHost
        → WriteKeepsPeer host.conn noise (config kp allowed)
        → let r = serve host noise url kp allowed path w in
          ((sess : Session noise.Cipher) × (r.1 ≡ ok sess)
            × IsAdmitted sess.peer_static allowed
            × (shells r.0 ≡ shell_path path ∷ shells w))
          ⊎ ((e : Error) × (r.1 ≡ err e)
              × (shells r.0 ≡ shells w)
              × ((is_closed r.0 ≡ true) ⊎ ((d : Bytes) × ((host.dial url w).1 ≡ some d))))
    unfolding serve
    serve-admits url path w h keeps =
        let w₁ = (host.dial url w).0 in
        let w₂ = (handshake host.conn noise (config kp allowed) w₁).0 in
        let quiet : shells w₂ ≡ shells w = handshake-shells w₁ h ∙ h.dial_shells url w in
        elim (Option-cases (host.dial url w).1) [
          | inr (d, failed) ↦
              inr (library d, ground arith, ground (arith, h.dial_shells url w), inr (d, failed))
          | inl dialled ↦ elim (Result-cases (handshake host.conn noise (config kp allowed) w₁).1) [
            | inl (e, failed) ↦ inr (
              e,
              ground arith,
              ground (arith, h.close_shells w₂, quiet),
              inl (ground (arith, h.close_closes w₂)),
            )
            | inr (sess, made) ↦
                let admitted =
                  handshake-admits host.conn noise (config kp allowed) w₁ sess refl keeps made in
                elim (attach-outcome path sess w₂ h) [
                  | inl (done, one_shell) ↦
                      inl (sess, ground arith, admitted, ground (arith, one_shell, quiet))
                  | inr (e, failed, no_shell, shut) ↦
                      inr (e, ground arith, ground (arith, no_shell, quiet), inl (ground arith))
                ]
          ]
        ]
