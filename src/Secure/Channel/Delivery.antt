-- ===== src/Secure/Channel/Delivery.antt =====
-- internal/secure/secure.go: what two sessions of one handshake deliver to each other.
use netso.Common.{
  true, false, some, List, [], ◌∷◌, ◌++◌, ◌≡◌, refl, sym, ap, ◌∙◌, append_assoc, append-[], inl,
  inr, ◌⊎◌,
}
use netso.Common.Bytes.{Bytes}
use netso.Common.Result.{Result, ok, err}
use netso.Secure
use netso.Secure.{Noise, Session, session_of}
use netso.Secure.Channel.{End, Network, Call, State, run, opened, end_conn}
use netso.Secure.Channel.Order.{
  IsPairing, IsOrdered, received, run-IsValid, opened-IsValid, landed, InFlight,
}

-- One direction: everything is read and nothing is on its way, or a read would give the next text.
abbrev pub IsDelivered : List Bytes → List Bytes → List Bytes → Result Bytes Bytes → Type 0
IsDelivered on_way written read next =
    ((on_way ≡ []) × (read ≡ written))
    ⊎ ((p : Bytes) × (rest : List Bytes) × (written ≡ read ++ p ∷ rest) × (next ≡ ok p))

module _ (noise : Noise) (Paired : noise.Cipher → noise.Cipher → Type 0) where
  quiet : {c d : noise.Cipher} {ps : List Bytes} → InFlight noise Paired c d [] ps → ps ≡ []
  quiet (landed paired) = refl

  settled :
      (c d : noise.Cipher) (written read : List Bytes)
      → IsOrdered noise Paired c d [] written read
      → read ≡ written
  settled c d written read o =
      sym (append-[] read) ∙ ap (λ ps. read ++ ps) (sym (quiet o.flight)) ∙ sym o.account

  at_responder :
      (s : State noise) (back cts : List Bytes)
      → IsOrdered noise Paired s.initiator.send s.responder.recv cts s.written_by_initiator
          s.read_by_responder
      → let n : Network = record { to_responder = cts; to_initiator = back } in
        IsDelivered cts s.written_by_initiator s.read_by_responder
          (Secure.read (end_conn End.responder) noise s.responder n).2
  unfolding Secure.read
  at_responder s back [] o =
      inl (
        refl,
        settled s.initiator.send s.responder.recv s.written_by_initiator s.read_by_responder o,
      )
  at_responder s back (ct ∷ cts) o =
      let (d, p, read, o') =
        received noise Paired s.initiator.send s.responder.recv ct cts s.written_by_initiator
          s.read_by_responder o in
      inr (
        p,
        o'.pending,
        o'.account ∙ append_assoc s.read_by_responder (p ∷ []) o'.pending,
        rw (read, Secure.read) refl,
      )

  at_initiator :
      (s : State noise) (out cts : List Bytes)
      → IsOrdered noise Paired s.responder.send s.initiator.recv cts s.written_by_responder
          s.read_by_initiator
      → let n : Network = record { to_responder = out; to_initiator = cts } in
        IsDelivered cts s.written_by_responder s.read_by_initiator
          (Secure.read (end_conn End.initiator) noise s.initiator n).2
  unfolding Secure.read
  at_initiator s out [] o =
      inl (
        refl,
        settled s.responder.send s.initiator.recv s.written_by_responder s.read_by_initiator o,
      )
  at_initiator s out (ct ∷ cts) o =
      let (d, p, read, o') =
        received noise Paired s.responder.send s.initiator.recv ct cts s.written_by_responder
          s.read_by_initiator o in
      inr (
        p,
        o'.pending,
        o'.account ∙ append_assoc s.read_by_initiator (p ∷ []) o'.pending,
        rw (read, Secure.read) refl,
      )

  abbrev made :
      Session noise.Cipher → Result Secure.Error (Session noise.Cipher) → Session noise.Cipher
  made other (ok sess) = sess
  made other (err e) = other

  initiator_ciphers :
      (hs : noise.State) (c0 c1 : noise.Cipher) (sess : Session noise.Cipher)
      → session_of (end_conn End.initiator) noise true (ok (hs, some c0, some c1)) ≡ ok sess
      → (c0 ≡ sess.send) × (c1 ≡ sess.recv)
  unfolding session_of
  initiator_ciphers hs c0 c1 sess e =
      let same = ap (made sess) e in (ap (λ x. x.send) same, ap (λ x. x.recv) same)

  responder_ciphers :
      (hs : noise.State) (d0 d1 : noise.Cipher) (sess : Session noise.Cipher)
      → session_of (end_conn End.responder) noise false (ok (hs, some d0, some d1)) ≡ ok sess
      → (d1 ≡ sess.send) × (d0 ≡ sess.recv)
  unfolding session_of
  responder_ciphers hs d0 d1 sess e =
      let same = ap (made sess) e in (ap (λ x. x.send) same, ap (λ x. x.recv) same)

  -- Let two handshakes complete, of an initiator and of a responder, whose ciphers are paired in the
  -- order in which the Noise library returns them, and let what one cipher of a pair encrypts be
  -- decrypted by the other. Then after any writes and reads of the two sessions, on a network that
  -- keeps the order of each direction, it holds in both directions: either all that was written
  -- without an error has been read, in order, and nothing is on its way; or what has been read is the
  -- beginning of what was written, and the next read gives the next text.
  pub sessions-deliver :
      (hs hs' : noise.State) (c0 c1 d0 d1 : noise.Cipher) (i r : Session noise.Cipher)
      (calls : List (End × Call))
      → IsPairing noise Paired
      → Paired c0 d0
      → Paired d1 c1
      → session_of (end_conn End.initiator) noise true (ok (hs, some c0, some c1)) ≡ ok i
      → session_of (end_conn End.responder) noise false (ok (hs', some d0, some d1)) ≡ ok r
      → let s = run noise calls (opened noise i r) in
        IsDelivered s.network.to_responder s.written_by_initiator s.read_by_responder
          (Secure.read (end_conn End.responder) noise s.responder s.network).2
        × IsDelivered s.network.to_initiator s.written_by_responder s.read_by_initiator
            (Secure.read (end_conn End.initiator) noise s.initiator s.network).2
  sessions-deliver hs hs' c0 c1 d0 d1 i r calls law forth back made_i made_r =
      let (i_send, i_recv) = initiator_ciphers hs c0 c1 i made_i in
      let (r_send, r_recv) = responder_ciphers hs' d0 d1 r made_r in
      let s = run noise calls (opened noise i r) in
      let v = run-IsValid noise Paired calls (opened noise i r) law (
        opened-IsValid noise Paired i r (rw⁻¹ (i_send, r_recv) forth)
          (rw⁻¹ (r_send, i_recv) back)) in
      (
        at_responder s s.network.to_initiator s.network.to_responder v.forth,
        at_initiator s s.network.to_responder s.network.to_initiator v.back,
      )
