-- ===== src/Secure.antt =====
-- internal/secure/secure.go: the list of authorized clients and the handshake with the session that
-- it leaves. The connection is an interface, as in internal/transport/transport.go. The Noise
-- library (github.com/flynn/noise) and the files are parameters.
pub mod Admission
pub mod Identity
pub mod KeyFile
pub mod Channel
pub mod Drain
pub mod Pinning
mod Examples
use netso.Common.{
  ℕ, zero, suc, ◌+◌, ◌==◌, ltb, leb, Bool, true, false, not, ◌&&◌, ◌||◌, Option, none, some, List,
  [], ◌∷◌, ◌++◌, length, if◌then◌else◌,
}
use netso.Common.Bytes.{Bytes, codes, str_eq, has_prefix}
use netso.Common.Trim.{is_space, trim_left, trim_right}
use netso.Base64.{decode_public}
use netso.Common.Result.{Result, ok, err}

-- What the code returns as an error. The text of a library's error is not told apart.
pub data Error : Type 0 where
  unauthorized : Bytes → Error
  no_peer_static : Error
  incomplete : Error
  invalid_key : ℕ → Error
  malformed : Bytes → Error
  invalid_base64 : Bytes → Error
  bad_private_key : Error
  bad_public_key : Error
  library : Bytes → Error

pub record Keypair : Type 0 where
  pub private : Bytes
  pub public : Bytes

-- `subtle.ConstantTimeCompare(a, peer) == 1` on slices of one length
unfoldable pub authorized_in : Bytes → List Bytes → Bool
authorized_in peer [] = false
authorized_in peer (a ∷ allowed) =
    let rest = authorized_in peer allowed in
    if length a == length peer && str_eq a peer then true else rest

unfoldable pub authorized : Bytes → List Bytes → Bool
authorized peer allowed = if length allowed == 0 then true else authorized_in peer allowed

unfoldable pub trim_space : Bytes → Bytes
trim_space s = trim_right is_space (trim_left is_space s)

abbrev pub until_space : Bytes → Bytes
until_space [] = []
until_space (c ∷ s) = let rest = until_space s in if is_space c then [] else c ∷ rest

-- `strings.Fields(text)[0]`, of a text with a field
unfoldable pub first_field : Bytes → Bytes
first_field s = until_space (trim_left is_space s)

-- What the scanner delivers: the lines, and how the reading ended.
pub record Scanned : Type 0 where
  pub lines : List Bytes
  pub failure : Option Error

-- The loop over the lines from a line number.
unfoldable pub scan_keys : ℕ → List Bytes → Result Error (List Bytes)
scan_keys line [] = ok []
scan_keys line (text ∷ lines) =
    let t = trim_space text in
    let rest = scan_keys (line + 1) lines in
    if str_eq t [] || has_prefix t (codes "#") then rest else elim (decode_public (first_field t)) [
      | none ↦ err (invalid_key (line + 1))
      | some k ↦ elim rest [ err e ↦ err e | ok keys ↦ ok (k ∷ keys) ]
    ]

-- The error of the file that does not open, or the scan of the one that does. A scan that fails
-- returns its keys with the error, which the one caller then drops.
unfoldable pub load_authorized_keys : Result Error Scanned → Result Error (List Bytes)
load_authorized_keys (err e) = err e
load_authorized_keys (ok f) = elim (scan_keys 0 f.lines) [
  | err e ↦ err e
  | ok keys ↦ elim f.failure [ none ↦ ok keys | some e ↦ err e ]
]

pub record Config : Type 0 where
  pub static_key : Keypair
  pub initiator : Bool
  pub peer_static : Bytes
  pub authorized : List Bytes

-- `transport.MsgConn`, with the state of the connection passed on.
pub record MsgConn (S : Type 0) : Type 0 where
  pub write_msg : Bytes → S → S × Option Bytes
  pub read_msg : S → S × Result Bytes Bytes
  pub close : S → S

-- The part of the Noise library that the code calls. The cipher states of a handshake are nil until
-- it completes.
pub record Noise : Type 1 where
  pub State : Type 0
  pub Cipher : Type 0
  pub new : Config → Result Bytes State
  pub write_message : State → Result Bytes (State × Bytes × Option Cipher × Option Cipher)
  pub read_message : State → Bytes → Result Bytes (State × Option Cipher × Option Cipher)
  pub peer_static : State → Bytes
  pub encrypt : Cipher → Bytes → Result Bytes (Cipher × Bytes)
  pub decrypt : Cipher → Bytes → Result Bytes (Cipher × Bytes)

pub record Session (Cipher : Type 0) : Type 0 where
  pub send : Cipher
  pub recv : Cipher
  pub peer_static : Bytes

module _ {S : Type 0} (conn : MsgConn S) (noise : Noise) where
  abbrev pub Completed : Type 0
  Completed = noise.State × Option noise.Cipher × Option noise.Cipher

  -- The initiator's branch.
  unfoldable pub initiate : noise.State → S → S × Result Error Completed
  initiate hs s = elim (noise.write_message hs) [
    | err e ↦ (s, err (library e))
    | ok (hs', out, _, _) ↦
        let (s', werr) = conn.write_msg out s in
        elim werr [
          | some e ↦ (s', err (library e))
          | none ↦
              let (s'', msg) = conn.read_msg s' in
              elim msg [
                | err e ↦ (s'', err (library e))
                | ok msg2 ↦ elim (noise.read_message hs' msg2) [
                  | err e ↦ (s'', err (library e))
                  | ok done ↦ (s'', ok done)
                ]
              ]
        ]
  ]

  -- The responder's branch after the first message, with the initiator's key known.
  unfoldable pub admit : Config → noise.State → S → S × Result Error Completed
  admit cfg hs s =
      let peer = noise.peer_static hs in
      if not (authorized peer cfg.authorized)
      then (conn.close s, err (unauthorized peer))
      else elim (noise.write_message hs) [
        | err e ↦ (s, err (library e))
        | ok (hs', out, c0, c1) ↦
            let (s', werr) = conn.write_msg out s in
            elim werr [ some e ↦ (s', err (library e)) | none ↦ (s', ok (hs', c0, c1)) ]
      ]

  unfoldable pub respond : Config → noise.State → S → S × Result Error Completed
  respond cfg hs s =
      let (s', msg) = conn.read_msg s in
      elim msg [
        | err e ↦ (s', err (library e))
        | ok msg1 ↦ elim (noise.read_message hs msg1) [
          | err e ↦ (s', err (library e))
          | ok (hs', _, _) ↦ admit cfg hs' s'
        ]
      ]

  -- The session of a completed handshake: the first cipher is the initiator's to send with.
  unfoldable pub session_of : Bool → Result Error Completed → Result Error (Session noise.Cipher)
  session_of initiator (err e) = err e
  session_of initiator (ok (hs, some c0, some c1)) =
      let peer = noise.peer_static hs in
      if initiator
      then ok (record { send = c0; recv = c1; peer_static = peer })
      else ok (record { send = c1; recv = c0; peer_static = peer })
  session_of initiator (ok (hs, _, _)) = err incomplete

  unfoldable pub handshake : Config → S → S × Result Error (Session noise.Cipher)
  handshake cfg s =
      if cfg.initiator && length cfg.peer_static == 0
      then (s, err no_peer_static)
      else elim (noise.new cfg) [
        | err e ↦ (s, err (library e))
        | ok hs ↦
            let (s', done) = if cfg.initiator then initiate hs s else respond cfg hs s in
            (s', session_of cfg.initiator done)
      ]

  -- `Session.Write` and `Session.Read`, which move the cipher on.
  unfoldable pub write : Bytes → Session noise.Cipher → S → Session noise.Cipher × S × Option Bytes
  write p sess s = elim (noise.encrypt sess.send p) [
    | err e ↦ (sess, s, some e)
    | ok (send, ct) ↦
        let (s', werr) = conn.write_msg ct s in (record sess { send = send }, s', werr)
  ]

  unfoldable pub read : Session noise.Cipher → S → Session noise.Cipher × S × Result Bytes Bytes
  read sess s =
      let (s', msg) = conn.read_msg s in
      elim msg [
        | err e ↦ (sess, s', err e)
        | ok ct ↦ elim (noise.decrypt sess.recv ct) [
          | err e ↦ (sess, s', err e)
          | ok (recv, p) ↦ (record sess { recv = recv }, s', ok p)
        ]
      ]
