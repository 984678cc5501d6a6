-- ===== src/Secure/Admission.antt =====
-- internal/secure/secure.go: whom a handshake admits.
use netso.Common.{
  ◌≡◌, ◌↔◌, ◌⊎◌, refl, sym, subst, Bool, true, false, Option, List, [], ◌∷◌, arith, Bool-cases, inl,
  inr,
}
use netso.Common.Bytes.{Bytes, str_eq, str_eq_iff}
use netso.Common.Result.{ok, err, Result-cases}
use netso.Secure.{
  unauthorized, Config, MsgConn, Noise, Session, authorized, authorized_in, admit, respond,
  session_of, handshake, Completed,
}

-- A key stands in a list of keys.
abbrev pub IsListed : Bytes → List Bytes → Type 0
IsListed peer [] = ⊥
IsListed peer (a ∷ l) = (a ≡ peer) ⊎ IsListed peer l

-- The configuration admits a peer: nobody is listed, or the peer is.
abbrev pub IsAdmitted : Bytes → List Bytes → Type 0
IsAdmitted peer allowed = (allowed ≡ []) ⊎ IsListed peer allowed

authorized_in_sound :
    (peer : Bytes) (l : List Bytes) → authorized_in peer l ≡ true → IsListed peer l
unfolding authorized_in
authorized_in_sound peer [] h = absurd (ground arith)
authorized_in_sound peer (a ∷ l) h = elim (Bool-cases (str_eq a peer)) [
  | inl e ↦ inl ((str_eq_iff a peer).0 e)
  | inr e ↦ inr (authorized_in_sound peer l (ground arith))
]

authorized_in_complete :
    (peer : Bytes) (l : List Bytes) → IsListed peer l → authorized_in peer l ≡ true
unfolding authorized_in
authorized_in_complete peer [] h = absurd h
authorized_in_complete peer (a ∷ l) (inl e) = rw (e, (str_eq_iff peer peer).1 refl) (ground arith)
authorized_in_complete peer (a ∷ l) (inr h) = ground (arith, authorized_in_complete peer l h)

-- A peer is authorized exactly when the list is empty or holds its key, byte for byte.
pub authorized_iff_listed :
    (peer : Bytes) (allowed : List Bytes)
    → (authorized peer allowed ≡ true) ↔ IsAdmitted peer allowed
unfolding authorized
authorized_iff_listed peer [] = ((λ h. inl refl), (λ h. refl))
authorized_iff_listed peer (a ∷ l) = (
  (λ h. inr (authorized_in_sound peer (a ∷ l) (ground arith))),
  (λ h. elim h [
    | inl e ↦ absurd (ground arith)
    | inr m ↦ ground (arith, authorized_in_complete peer (a ∷ l) m)
  ]),
)

module _ {S : Type 0} (conn : MsgConn S) (noise : Noise) (cfg : Config) where
  -- Writing a message does not change whose key was read.
  abbrev pub WriteKeepsPeer : Type 0
  WriteKeepsPeer =
      (hs : noise.State) (done : noise.State × Bytes × Option noise.Cipher × Option noise.Cipher)
      → noise.write_message hs ≡ ok done
      → noise.peer_static done.0 ≡ noise.peer_static hs

  admit-ok :
      (hs : noise.State) (s : S) (done : Completed conn noise)
      → WriteKeepsPeer
      → (admit conn noise cfg hs s).1 ≡ ok done
      → IsAdmitted (noise.peer_static done.0) cfg.authorized
  unfolding admit
  admit-ok hs s done keeps h =
      elim (Bool-cases (authorized (noise.peer_static hs) cfg.authorized)) [
        | inr refused ↦ absurd (ground arith)
        | inl allowed ↦ elim (Result-cases (noise.write_message hs)) [
          | inl (e, failed) ↦ absurd (ground arith)
          | inr (w, written) ↦
              let same : noise.peer_static done.0 ≡ noise.peer_static hs =
                ground (arith, keeps hs w written) in
              subst (λ p. IsAdmitted p cfg.authorized) (sym same)
                ((authorized_iff_listed (noise.peer_static hs) cfg.authorized).0 allowed)
        ]
      ]

  respond-ok :
      (hs : noise.State) (s : S) (done : Completed conn noise)
      → WriteKeepsPeer
      → (respond conn noise cfg hs s).1 ≡ ok done
      → IsAdmitted (noise.peer_static done.0) cfg.authorized
  unfolding respond
  respond-ok hs s done keeps h = elim (Result-cases (conn.read_msg s).1) [
    | inl (e, failed) ↦ absurd (ground arith)
    | inr (msg1, got) ↦ elim (Result-cases (noise.read_message hs msg1)) [
      | inl (e, failed) ↦ absurd (ground arith)
      | inr (read, understood) ↦ admit-ok read.0 (conn.read_msg s).0 done keeps (ground arith)
    ]
  ]

  -- A responder's handshake that returns a session has admitted the peer whose key the session
  -- carries: nobody is listed, or that key is. The Noise library keeps the key that it has read when
  -- it writes.
  pub handshake-admits :
      (s : S) (sess : Session noise.Cipher)
      → cfg.initiator ≡ false
      → WriteKeepsPeer
      → (handshake conn noise cfg s).1 ≡ ok sess
      → IsAdmitted sess.peer_static cfg.authorized
  unfolding handshake session_of
  handshake-admits s sess responder keeps h = elim (Result-cases (noise.new cfg)) [
    | inl (e, failed) ↦ absurd (ground arith)
    | inr (hs, made) ↦ elim (Result-cases (respond conn noise cfg hs s).1) [
      | inl (e, failed) ↦ absurd (ground arith)
      | inr (done, responded) ↦
          let admitted = respond-ok hs s done keeps responded in
          let same : sess.peer_static ≡ noise.peer_static done.0 = ground arith in
          subst (λ p. IsAdmitted p cfg.authorized) (sym same) admitted
    ]
  ]

  -- What an observer sees of the connection.
  module _ (sent : S → List Bytes) (is_closed : S → Bool) where
    -- Reading and closing send nothing, and a connection that is closed is closed.
    pub record IsObserved : Type 0 where
      pub read_sends : (s : S) → sent (conn.read_msg s).0 ≡ sent s
      pub close_sends : (s : S) → sent (conn.close s) ≡ sent s
      pub close_closes : (s : S) → is_closed (conn.close s) ≡ true

    respond-refused :
        (hs : noise.State) (s : S) (peer : Bytes)
        → IsObserved
        → (respond conn noise cfg hs s).1 ≡ err (unauthorized peer)
        → (¬ IsAdmitted peer cfg.authorized)
          × (sent (respond conn noise cfg hs s).0 ≡ sent s)
          × (is_closed (respond conn noise cfg hs s).0 ≡ true)
    unfolding respond admit
    respond-refused hs s peer o h = elim (Result-cases (conn.read_msg s).1) [
      | inl (e, failed) ↦ absurd (ground arith)
      | inr (msg1, got) ↦ elim (Result-cases (noise.read_message hs msg1)) [
        | inl (e, failed) ↦ absurd (ground arith)
        | inr (read, understood) ↦
            let s' = (conn.read_msg s).0 in
            elim (Bool-cases (authorized (noise.peer_static read.0) cfg.authorized)) [
              | inl allowed ↦ absurd (ground arith)
              | inr refused ↦
                  let same : peer ≡ noise.peer_static read.0 = ground arith in
                  (
                    (λ a. absurd (ground (arith, (authorized_iff_listed peer cfg.authorized).1 a))),
                    ground (arith, o.read_sends s, o.close_sends s'),
                    ground (arith, o.close_closes s'),
                  )
            ]
      ]
    ]

    -- A responder's handshake that refuses a peer as unauthorized has sent nothing and has closed
    -- the connection, and its list has keys and not this peer's.
    -- Reading from the connection and closing it send nothing, and closing closes.
    pub handshake-refuses :
        (s : S) (peer : Bytes)
        → cfg.initiator ≡ false
        → IsObserved
        → (handshake conn noise cfg s).1 ≡ err (unauthorized peer)
        → (¬ IsAdmitted peer cfg.authorized)
          × (sent (handshake conn noise cfg s).0 ≡ sent s)
          × (is_closed (handshake conn noise cfg s).0 ≡ true)
    unfolding handshake session_of
    handshake-refuses s peer responder o h = elim (Result-cases (noise.new cfg)) [
      | inl (e, failed) ↦ absurd (ground arith)
      | inr (hs, made) ↦
          let turned_away : (respond conn noise cfg hs s).1 ≡ err (unauthorized peer) =
            ground arith in
          let (shut_out, silent, closed) = respond-refused hs s peer o turned_away in
          (shut_out, ground arith, ground arith)
    ]
