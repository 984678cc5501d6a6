-- ===== src/Secure/Channel/Examples.antt =====
-- A Noise library that puts its count of messages before each text and refuses a text whose count is
-- not its own, and a run of two sessions over it.
use netso.Common.{
  ℕ, ◌==◌, ◌≡◌, refl, sym, ap, true, none, some, List, [], ◌∷◌, ◌∙◌, arith, if◌then◌else◌,
}
use netso.Common.Bytes.{Bytes, codes}
use netso.Common.Result.{Result, ok, err}
use netso.Secure
use netso.Secure.{Noise, Session, session_of}
use netso.Secure.Channel.{End, Call, State, step, run, opened, end_conn}
use netso.Secure.Channel.Order.{IsPairing}
use netso.Secure.Channel.Delivery.{IsDelivered, sessions-deliver}

abbrev open_counted : ℕ → Bytes → Result Bytes (ℕ × Bytes)
open_counted n [] = err (codes "short")
open_counted n (m ∷ p) = if n == m then ok (ℕ.suc n, p) else err (codes "count")

abbrev counted : Noise
counted = record {
  State = Bytes;
  Cipher = ℕ;
  new = λ cfg. ok cfg.peer_static;
  write_message = λ hs. ok (hs, codes "hello", some 0, some 100);
  read_message = λ hs m. ok (m, none, none);
  peer_static = λ hs. hs;
  encrypt = λ n p. ok (ℕ.suc n, n ∷ p);
  decrypt = open_counted;
}

abbrev next_of : ℕ → Result Bytes (ℕ × Bytes) → ℕ
next_of other (ok (n, ct)) = n
next_of other (err e) = other

abbrev text_of : Result Bytes (ℕ × Bytes) → Bytes
text_of (ok (n, ct)) = ct
text_of (err e) = []

same_count : (n : ℕ) → (n == n) ≡ true
same_count n = ground arith

counted-IsPairing : IsPairing counted (λ c d. c ≡ d)
counted-IsPairing = record {
  agree = λ c d c' p ct same e.
      let next : ℕ.suc c ≡ c' = ap (next_of c') e in
      let text : (c ∷ p) ≡ ct = ap text_of e in
      (ℕ.suc d, rw⁻¹ (text, same) (rw (same_count c) refl), sym next ∙ ap ℕ.suc same);
}

abbrev client_end : Session ℕ
client_end = record { send = 0; recv = 100; peer_static = codes "agent" }

abbrev agent_end : Session ℕ
agent_end = record { send = 100; recv = 0; peer_static = codes "client" }

abbrev calls : List (End × Call)
calls =
    (End.initiator, Call.write (codes "ls"))
    ∷ (End.initiator, Call.write (codes "exit"))
    ∷ (End.responder, Call.read)
    ∷ (End.responder, Call.write (codes "a.txt"))
    ∷ (End.initiator, Call.read)
    ∷ []

abbrev after : State counted
after = run counted calls (opened counted client_end agent_end)

test_after :
    (after.read_by_responder ≡ codes "ls" ∷ []) × (after.read_by_initiator ≡ codes "a.txt" ∷ [])
unfolding run step Secure.write Secure.read
test_after = (refl, refl)

sessions-deliver_example :
    IsDelivered after.network.to_responder after.written_by_initiator after.read_by_responder
      (Secure.read (end_conn End.responder) counted after.responder after.network).2
    × IsDelivered after.network.to_initiator after.written_by_responder after.read_by_initiator
        (Secure.read (end_conn End.initiator) counted after.initiator after.network).2
unfolding session_of
sessions-deliver_example =
    sessions-deliver counted (λ c d. c ≡ d) (codes "agent") (codes "client") 0 100 0 100 client_end
      agent_end calls counted-IsPairing refl refl refl refl
