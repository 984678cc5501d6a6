-- ===== src/Secure/Channel/Order.antt =====
-- internal/secure/secure.go: each end reads what the other has written, in order.
use netso.Common.{List, [], ◌∷◌, ◌++◌, ◌≡◌, refl, sym, ap, ◌∙◌, append_assoc, inl, inr}
use netso.Common.Bytes.{Bytes}
use netso.Common.Result.{ok, Result-cases}
use netso.Secure
use netso.Secure.{MsgConn, Noise, Session, session_of}
use netso.Secure.Channel.{End, Call, State, step, run, opened}

module _ (noise : Noise) (Paired : noise.Cipher → noise.Cipher → Type 0) where
  -- The messages on their way decrypt to these texts, one after the other, and the ciphers are a pair
  -- again behind them.
  pub data InFlight : noise.Cipher → noise.Cipher → List Bytes → List Bytes → Type 0 where
    landed : {c d : noise.Cipher} → Paired c d → InFlight c d [] []
    flying :
        {c d d' : noise.Cipher} {ct p : Bytes} {cts ps : List Bytes}
        → noise.decrypt d ct ≡ ok (d', p)
        → InFlight c d' cts ps
        → InFlight c d (ct ∷ cts) (p ∷ ps)

  -- What one cipher of a pair encrypts the other decrypts, and they stay a pair.
  pub record IsPairing : Type 0 where
    pub agree :
        (c d c' : noise.Cipher) (p ct : Bytes)
        → Paired c d
        → noise.encrypt c p ≡ ok (c', ct)
        → (d' : noise.Cipher) × (noise.decrypt d ct ≡ ok (d', p)) × Paired c' d'

  InFlight-append :
      (c d c' : noise.Cipher) (p ct : Bytes) (cts ps : List Bytes)
      → IsPairing
      → noise.encrypt c p ≡ ok (c', ct)
      → InFlight c d cts ps
      → InFlight c' d (cts ++ ct ∷ []) (ps ++ p ∷ [])
  InFlight-append c d c' p ct cts ps law e (landed paired) =
      let (d', read, paired') = law.agree c d c' p ct paired e in flying read (landed paired')
  InFlight-append c d c' p ct _ _ law e (flying {d' = d'} {cts = cts} {ps = ps} read rest) =
      flying read (InFlight-append c d' c' p ct cts ps law e rest)

  -- One direction: what was written is what was read and what is on its way.
  pub record IsOrdered (c d : noise.Cipher) (cts written read : List Bytes) : Type 0 where
    pub pending : List Bytes
    pub flight : InFlight c d cts pending
    pub account : written ≡ read ++ pending

  pub record IsValid (s : State noise) : Type 0 where
    pub forth :
        IsOrdered s.initiator.send s.responder.recv s.network.to_responder s.written_by_initiator
          s.read_by_responder
    pub back :
        IsOrdered s.responder.send s.initiator.recv s.network.to_initiator s.written_by_responder
          s.read_by_initiator

  sent :
      {c d c' : noise.Cipher} {cts written read : List Bytes} (p ct : Bytes)
      → IsPairing
      → noise.encrypt c p ≡ ok (c', ct)
      → IsOrdered c d cts written read
      → IsOrdered c' d (cts ++ ct ∷ []) (written ++ p ∷ []) read
  sent {c} {d} {c'} {cts} {written} {read} p ct law e o = record {
    pending = o.pending ++ p ∷ [];
    flight = InFlight-append c d c' p ct cts o.pending law e o.flight;
    account = ap (λ l. l ++ p ∷ []) o.account ∙ append_assoc read o.pending (p ∷ []);
  }

  -- The next message on its way decrypts, and is the next text.
  pub received :
      (c d : noise.Cipher) (ct : Bytes) (cts written read : List Bytes)
      → IsOrdered c d (ct ∷ cts) written read
      → (d' : noise.Cipher) × (p : Bytes) × (noise.decrypt d ct ≡ ok (d', p))
        × IsOrdered c d' cts written (read ++ p ∷ [])
  received c d ct cts written read o = land o.flight o.account
    where
      land :
          {ps : List Bytes}
          → InFlight c d (ct ∷ cts) ps
          → written ≡ read ++ ps
          → (d' : noise.Cipher) × (p : Bytes) × (noise.decrypt d ct ≡ ok (d', p))
            × IsOrdered c d' cts written (read ++ p ∷ [])
      land (flying {d' = d'} {p = p} {ps = ps} e rest) account = (
        d',
        p,
        e,
        record {
          pending = ps;
          flight = rest;
          account = account ∙ sym (append_assoc read (p ∷ []) ps);
        },
      )

  read_initiator-IsValid :
      (s : State noise) (out cts : List Bytes)
      → let s' = record s { network = record { to_responder = out; to_initiator = cts } } in
        IsValid s' → IsValid (step noise End.initiator Call.read s')
  unfolding step Secure.read
  read_initiator-IsValid s out [] v = v
  read_initiator-IsValid s out (ct ∷ cts) v =
      let (d, p, read, o) =
        received s.responder.send s.initiator.recv ct cts s.written_by_responder s.read_by_initiator
          v.back in
      rw (read, Secure.read) (record { forth = v.forth; back = o })

  read_responder-IsValid :
      (s : State noise) (back cts : List Bytes)
      → let s' = record s { network = record { to_responder = cts; to_initiator = back } } in
        IsValid s' → IsValid (step noise End.responder Call.read s')
  unfolding step Secure.read
  read_responder-IsValid s back [] v = v
  read_responder-IsValid s back (ct ∷ cts) v =
      let (d, p, read, o) =
        received s.initiator.send s.responder.recv ct cts s.written_by_initiator s.read_by_responder
          v.forth in
      rw (read, Secure.read) (record { forth = o; back = v.back })

  step-IsValid :
      (e : End) (c : Call) (s : State noise) → IsPairing → IsValid s → IsValid (step noise e c s)
  unfolding step Secure.write Secure.read
  step-IsValid End.initiator (Call.write p) s law v =
      elim (Result-cases (noise.encrypt s.initiator.send p)) [
        | inl (e, failed) ↦ rw (failed, Secure.write) (record { forth = v.forth; back = v.back })
        | inr ((c, ct), done) ↦
            rw (done, Secure.write) (record { forth = sent p ct law done v.forth; back = v.back })
      ]
  step-IsValid End.responder (Call.write p) s law v =
      elim (Result-cases (noise.encrypt s.responder.send p)) [
        | inl (e, failed) ↦ rw (failed, Secure.write) (record { forth = v.forth; back = v.back })
        | inr ((c, ct), done) ↦
            rw (done, Secure.write) (record { forth = v.forth; back = sent p ct law done v.back })
      ]
  step-IsValid End.initiator Call.read s law v =
      read_initiator-IsValid s s.network.to_responder s.network.to_initiator v
  step-IsValid End.responder Call.read s law v =
      read_responder-IsValid s s.network.to_initiator s.network.to_responder v

  pub run-IsValid :
      (calls : List (End × Call)) (s : State noise)
      → IsPairing
      → IsValid s
      → IsValid (run noise calls s)
  unfolding run
  run-IsValid [] s law v = v
  run-IsValid ((e, c) ∷ calls) s law v =
      run-IsValid calls (step noise e c s) law (step-IsValid e c s law v)

  pub opened-IsValid :
      (i r : Session noise.Cipher)
      → Paired i.send r.recv
      → Paired r.send i.recv
      → IsValid (opened noise i r)
  opened-IsValid i r forth back = record {
    forth = record { pending = []; flight = landed forth; account = refl };
    back = record { pending = []; flight = landed back; account = refl };
  }
