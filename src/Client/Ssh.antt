-- ===== src/Client/Ssh.antt =====
-- cmd/netso/main.go: `netso ssh` up to its session, and the one command of `-exec`. The files are a
-- map, as in the module Secure.Identity; the HTTP library's GET, the websocket library's dial, the
-- connection and the standard output are parameters, with the state of the world passed on.
pub mod Pinned
pub mod Exec
mod Examples
use netso.Common.{
  ℕ, zero, suc, Bool, true, false, not, Option, none, some, List, [], ◌∷◌, ◌++◌, length, ◌==◌,
  if◌then◌else◌,
}
use netso.Common.Bytes.{Bytes, codes, str_eq}
use netso.Common.Result.{Result, ok, err}
use netso.Map.{Map}
use netso.Base64.{decode_public}
use netso.Registry.{Peer}
use netso.HubClient
use netso.HubClient.{Response}
use netso.Secure.{Error, Keypair, MsgConn, Noise, Session, handshake}
use netso.Secure
use netso.Secure.Pinning.{pinning}
use netso.Secure.Drain.{drain}
use netso.Secure.Identity.{Faults, resolve_identity}
use netso.Client.{find_pin, connect_url}

pub record Flags : Type 0 where
  pub hub : Bytes
  pub network : Bytes
  pub peer : Bytes
  pub identity : Bytes
  pub priv : Bytes
  pub public : Bytes
  pub auth_agent : Bytes

-- The ends of the command by `log.Fatal`.
pub data Fatal : Type 0 where
  no_peer : Fatal
  bad_identity : Error → Fatal
  discovery : Bytes → Fatal
  not_found : Fatal
  bad_peer_key : Fatal
  connect : Bytes → Fatal
  auth_failed : Error → Fatal

pub record Host (W : Type 0) : Type 0 where
  pub get : Bytes → W → W × Result Bytes Response
  pub dial : Bytes → W → W × Option Bytes
  pub conn : MsgConn W
  pub print : Bytes → W → W

module _ {W : Type 0} (host : Host W) (noise : Noise) where
  -- The text of the key to pin: the one that was given, or the one of discovery.
  unfoldable pub look_up : Flags → W → W × Result Fatal Bytes
  look_up flags w =
      if not (str_eq flags.auth_agent [])
      then (w, ok flags.auth_agent)
      else let (w', found) = HubClient.peers host.get flags.hub flags.network w in
        elim found [
          | err e ↦ (w', err (Fatal.discovery e))
          | ok peers ↦
              let pin_b64 = find_pin flags.peer peers in
              (w', if str_eq pin_b64 [] then err Fatal.not_found else ok pin_b64)
        ]

  -- The dial and the handshake with the key that is pinned.
  unfoldable pub open_session :
      Flags → Keypair → Bytes → W → W × Result Fatal (Session noise.Cipher)
  open_session flags kp pin w =
      let (w', derr) = host.dial (connect_url flags.hub flags.network flags.peer) w in
      elim derr [
        | some e ↦ (w', err (Fatal.connect e))
        | none ↦
            let (w'', sess) = handshake host.conn noise (pinning kp pin) w' in
            elim sess [ err e ↦ (w'', err (Fatal.auth_failed e)) | ok s ↦ (w'', ok s) ]
      ]

  unfoldable pub ssh_with : Flags → Keypair → W → W × Result Fatal (Session noise.Cipher)
  ssh_with flags kp w =
      let (w', text) = look_up flags w in
      elim text [
        | err e ↦ (w', err e)
        | ok pin_b64 ↦ elim (decode_public pin_b64) [
          | none ↦ (w', err Fatal.bad_peer_key)
          | some pin ↦ open_session flags kp pin w'
        ]
      ]

  unfoldable pub ssh :
      Result Error Keypair
      → Faults
      → Flags
      → Map Bytes
      → W
      → Map Bytes × W × Result Fatal (Session noise.Cipher)
  ssh generated faults flags files w =
      if str_eq flags.peer []
      then (files, w, err Fatal.no_peer)
      else let (files', id) =
          resolve_identity generated flags.identity flags.priv flags.public faults files in
        elim id [
          | err e ↦ (files', w, err (Fatal.bad_identity e))
          | ok kp ↦ let (w', sess) = ssh_with flags kp w in (files', w', sess)
        ]

  -- Whether the loop has returned on its fuel, with the world that it leaves. The error is that
  -- of the write.
  unfoldable pub run_exec : ℕ → Session noise.Cipher → Bytes → W → Result Bytes (Bool × W)
  run_exec fuel sess cmd w =
      let (sess', w', werr) = Secure.write host.conn noise (cmd ++ codes "; exit\n") sess w in
      elim werr [ some e ↦ err e | none ↦ ok (drain host.conn noise host.print fuel sess' w') ]
