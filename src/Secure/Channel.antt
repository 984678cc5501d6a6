-- ===== src/Secure/Channel.antt =====
-- internal/secure/secure.go: two sessions of one handshake, over a connection that keeps the order of
-- its messages, such as a relayed websocket.
pub mod Order
mod Delivery
mod Examples
use netso.Common.{ℕ, Bool, Option, none, some, List, [], ◌∷◌, ◌++◌}
use netso.Common.Bytes.{Bytes, codes}
use netso.Common.Result.{Result, ok, err}
use netso.Secure
use netso.Secure.{MsgConn, Noise, Session}

-- The two ends of the handshake.
pub data End : Type 0 where
  initiator : End
  responder : End

-- The messages on their way, in each direction.
pub record Network : Type 0 where
  pub to_responder : List Bytes
  pub to_initiator : List Bytes

-- A read with nothing on its way stands for one that waits: it changes nothing.
abbrev pub receive : List Bytes → (List Bytes → Network) → Network → Network × Result Bytes Bytes
receive [] put n = (n, err (codes "waiting"))
receive (m ∷ rest) put n = (put rest, ok m)

abbrev pub end_conn : End → MsgConn Network
end_conn End.initiator = record {
  write_msg = λ m n. (record n { to_responder = n.to_responder ++ m ∷ [] }, none);
  read_msg = λ n. receive n.to_initiator (λ rest. record n { to_initiator = rest }) n;
  close = λ n. n;
}
end_conn End.responder = record {
  write_msg = λ m n. (record n { to_initiator = n.to_initiator ++ m ∷ [] }, none);
  read_msg = λ n. receive n.to_responder (λ rest. record n { to_responder = rest }) n;
  close = λ n. n;
}

pub data Call : Type 0 where
  write : Bytes → Call
  read : Call

module _ (noise : Noise) where
  -- Both sessions, the network between them, and what each end has written and read without an error.
  pub record State : Type 0 where
    pub initiator : Session noise.Cipher
    pub responder : Session noise.Cipher
    pub network : Network
    pub written_by_initiator : List Bytes
    pub read_by_initiator : List Bytes
    pub written_by_responder : List Bytes
    pub read_by_responder : List Bytes

  abbrev pub log_write : Bytes → Option Bytes → List Bytes → List Bytes
  log_write p none l = l ++ p ∷ []
  log_write p (some e) l = l

  abbrev pub log_read : Result Bytes Bytes → List Bytes → List Bytes
  log_read (ok p) l = l ++ p ∷ []
  log_read (err e) l = l

  unfoldable pub step : End → Call → State → State
  step End.initiator (Call.write p) s =
      let (sess, n, e) = Secure.write (end_conn End.initiator) noise p s.initiator s.network in
      record s {
        initiator = sess;
        network = n;
        written_by_initiator = log_write p e s.written_by_initiator;
      }
  step End.responder (Call.write p) s =
      let (sess, n, e) = Secure.write (end_conn End.responder) noise p s.responder s.network in
      record s {
        responder = sess;
        network = n;
        written_by_responder = log_write p e s.written_by_responder;
      }
  step End.initiator Call.read s =
      let (sess, n, r) = Secure.read (end_conn End.initiator) noise s.initiator s.network in
      record s { initiator = sess; network = n; read_by_initiator = log_read r s.read_by_initiator }
  step End.responder Call.read s =
      let (sess, n, r) = Secure.read (end_conn End.responder) noise s.responder s.network in
      record s { responder = sess; network = n; read_by_responder = log_read r s.read_by_responder }

  unfoldable pub run : List (End × Call) → State → State
  run [] s = s
  run ((e, c) ∷ calls) s = run calls (step e c s)

  abbrev pub opened : Session noise.Cipher → Session noise.Cipher → State
  opened i r = record {
    initiator = i;
    responder = r;
    network = record { to_responder = []; to_initiator = [] };
    written_by_initiator = [];
    read_by_initiator = [];
    written_by_responder = [];
    read_by_responder = [];
  }
