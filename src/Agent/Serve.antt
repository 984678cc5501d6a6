-- ===== src/Agent/Serve.antt =====
-- cmd/netso-agent/main.go: `serve` up to the start of its two loops, with `shell.Start` of
-- internal/shell/shell.go. The websocket library's dial, the connection and the start of a command in
-- a terminal are parameters, with the state of the world passed on.
pub mod Admits
pub mod Loops
mod Examples
use netso.Common.{false, Option, none, some, List, [], if◌then◌else◌}
use netso.Common.Bytes.{Bytes, codes, str_eq}
use netso.Common.Result.{Result, ok, err}
use netso.Secure.{Error, library, Keypair, Config, MsgConn, Noise, Session, handshake}

-- `websocket.DefaultDialer.Dial` and `pty.Start`, each with its error.
pub record Host (W : Type 0) : Type 0 where
  pub dial : Bytes → W → W × Option Bytes
  pub conn : MsgConn W
  pub start : Bytes → W → W × Option Bytes

abbrev pub shell_path : Bytes → Bytes
shell_path path = if str_eq path [] then codes "/bin/sh" else path

abbrev pub config : Keypair → List Bytes → Config
config kp allowed = record {
  static_key = kp;
  initiator = false;
  peer_static = [];
  authorized = allowed;
}

module _ {W : Type 0} (host : Host W) (noise : Noise) where
  -- `shell.Start`
  unfoldable pub shell_start : Bytes → W → W × Option Bytes
  shell_start path w = host.start (shell_path path) w

  -- The shell for a session that is established.
  unfoldable pub attach : Bytes → Session noise.Cipher → W → W × Result Error (Session noise.Cipher)
  attach path sess w =
      let (w', serr) = shell_start path w in
      elim serr [ some e ↦ (host.conn.close w', err (library e)) | none ↦ (w', ok sess) ]

  unfoldable pub serve :
      Bytes → Keypair → List Bytes → Bytes → W → W × Result Error (Session noise.Cipher)
  serve dial_url kp allowed path w =
      let (w', derr) = host.dial dial_url w in
      elim derr [
        | some e ↦ (w', err (library e))
        | none ↦
            let (w'', sess) = handshake host.conn noise (config kp allowed) w' in
            elim sess [ err e ↦ (host.conn.close w'', err e) | ok s ↦ attach path s w'' ]
      ]
