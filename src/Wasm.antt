-- ===== src/Wasm.antt =====
-- cmd/netso-wasm/main.go: `netsoConnect` in the browser: the goroutine that opens the session, and the
-- one that hands over what arrives. The page's callbacks, each of which may be missing, the dial, the
-- connection and the generator of keys are parameters, with the state of the world passed on. A
-- status is told apart by its constructor; the text of an error in it is not modelled.
pub mod Outcome
pub mod Reading
pub mod Sending
mod Examples
use netso.Common.{ℕ, Bool, Option, none, some, [], if◌then◌else◌}
use netso.Common.Bytes.{Bytes, str_eq}
use netso.Common.Result.{Result, ok, err}
use netso.Base64.{encode_public, decode_public}
use netso.Secure.{Error, Keypair, MsgConn, Noise, Session, handshake}
use netso.Secure.Pinning.{pinning}
use netso.Secure.Drain.{drain}

pub data Status : Type 0 where
  key_required : Status
  bad_key : Status
  connecting : Status
  failed : Bytes → Status
  keygen_failed : Status
  handshaking : Status
  auth_failed : Error → Status
  connected : Bytes → Status
  session_closed : Status

-- `on_status`, `on_close` and `on_data` are nothing when the page gives no such callback.
pub record Page (W : Type 0) : Type 0 where
  pub on_status : Option (Status → W → W)
  pub on_close : Option (W → W)
  pub on_data : Option (Bytes → W → W)
  pub dial : Bytes → W → W × Option Bytes
  pub generate : W → W × Result Error Keypair
  pub conn : MsgConn W

module _ {W : Type 0} (page : Page W) (noise : Noise) where
  abbrev pub status : Status → W → W
  status st w = elim page.on_status [ none ↦ w | some f ↦ f st w ]

  abbrev pub closed : W → W
  closed w = elim page.on_close [ none ↦ w | some f ↦ f w ]

  abbrev pub data_of : Bytes → W → W
  data_of p w = elim page.on_data [ none ↦ w | some f ↦ f p w ]

  -- The page is told of an error and that the session is closed.
  abbrev pub give_up : Status → W → W × Option (Session noise.Cipher)
  give_up st w = (closed (status st w), none)

  -- From the key of the browser on.
  unfoldable pub establish : Bytes → W → W × Option (Session noise.Cipher)
  establish pin w =
      let (w', kp) = page.generate w in
      elim kp [
        | err e ↦ (closed (page.conn.close (status Status.keygen_failed w')), none)
        | ok kp ↦
            let (w'', sess) =
              handshake page.conn noise (pinning kp pin) (status Status.handshaking w') in
            elim sess [
              | err e ↦ (closed (page.conn.close (status (Status.auth_failed e) w'')), none)
              | ok s ↦ (status (Status.connected (encode_public s.peer_static)) w'', some s)
            ]
      ]

  unfoldable pub connect : Bytes → Bytes → W → W × Option (Session noise.Cipher)
  connect ws_url agent_pub w =
      if str_eq agent_pub []
      then give_up Status.key_required w
      else elim (decode_public agent_pub) [
        | none ↦ give_up Status.bad_key w
        | some pin ↦
            let (w', derr) = page.dial ws_url (status Status.connecting w) in
            elim derr [ some e ↦ give_up (Status.failed e) w' | none ↦ establish pin w' ]
      ]

  -- The reading goroutine on fuel: whether it has returned.
  unfoldable pub read_all : ℕ → Session noise.Cipher → W → Bool × W
  read_all fuel sess w =
      let (returned, w') = drain page.conn noise data_of fuel sess w in
      (returned, if returned then closed (status Status.session_closed w') else w')
