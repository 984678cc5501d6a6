-- ===== src/Client/Interactive.antt =====
-- cmd/netso/main.go: `runInteractive`, as steps of its goroutine, which reads the standard input, and of
-- its loop, which reads the session, in any order. The terminal, the connection and the standard output
-- are parameters, with the state of the world passed on. A blocked step, or one of a loop that has
-- ended, changes nothing.
pub mod Restored
mod Examples
use netso.Common.{Bool, true, false, not, ◌&&◌, Option, none, some, List, [], ◌∷◌, if◌then◌else◌}
use netso.Common.Bytes.{Bytes}
use netso.Common.Result.{Result, ok, err}
use netso.Secure
use netso.Secure.{MsgConn, Noise, Session}
use netso.Secure.Drain.{shown}

-- `term.IsTerminal`, `term.MakeRaw` with its error, `term.Restore`, and `os.Stdout.Write`.
pub record Console (W : Type 0) : Type 0 where
  pub is_terminal : W → Bool
  pub make_raw : W → W × Option Bytes
  pub restore : W → W
  pub print : Bytes → W → W
  pub conn : MsgConn W

-- `deferred` tells whether the terminal is to be restored on return.
pub record State (W Cipher : Type 0) : Type 0 where
  pub sess : Session Cipher
  pub world : W
  pub deferred : Bool
  pub typing : Bool
  pub returned : Bool

pub data Action : Type 0 where
  types : Bytes → Bool → Action
  reads : Action

module _ {W : Type 0} (console : Console W) (noise : Noise) where
  abbrev pub is_nil : Option Bytes → Bool
  is_nil none = true
  is_nil (some e) = false

  unfoldable pub enter : Session noise.Cipher → W → State W noise.Cipher
  enter sess w =
      let raw = console.make_raw w in
      record {
        sess = sess;
        world = if console.is_terminal w then raw.0 else w;
        deferred = console.is_terminal w && is_nil raw.1;
        typing = true;
        returned = false;
      }

  -- A read of the standard input gives some bytes, with an error at its end or without. Empty input is
  -- not written.
  abbrev pub type_in : Bytes → Bool → State W noise.Cipher → State W noise.Cipher
  type_in [] last s = record s { typing = not last }
  type_in (b ∷ input) last s =
      let (sess, w, werr) = Secure.write console.conn noise (b ∷ input) s.sess s.world in
      record s { sess = sess; world = w; typing = is_nil werr && not last }

  abbrev pub leave : Bool → W → W
  leave deferred w = if deferred then console.restore w else w

  abbrev pub after_read :
      Session noise.Cipher → W → Result Bytes Bytes → State W noise.Cipher → State W noise.Cipher
  after_read sess w (err e) s = record s {
    sess = sess;
    world = leave s.deferred w;
    returned = true;
  }
  after_read sess w (ok text) s = record s {
    sess = sess;
    world = shown console.conn noise console.print text w;
  }

  abbrev pub read_next : State W noise.Cipher → State W noise.Cipher
  read_next s =
      let (sess, w, text) = Secure.read console.conn noise s.sess s.world in
      after_read sess w text s

  unfoldable pub step : Action → State W noise.Cipher → State W noise.Cipher
  step (Action.types input last) s = if s.typing && not s.returned then type_in input last s else s
  step Action.reads s = if s.returned then s else read_next s

  unfoldable pub run : List Action → State W noise.Cipher → State W noise.Cipher
  run [] s = s
  run (a ∷ acts) s = run acts (step a s)
