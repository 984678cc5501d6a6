-- ===== src/Wasm/Sending.antt =====
-- cmd/netso-wasm/main.go: the two functions that `netsoConnect` gives the page, and the loop that
-- writes what the page sends. The page's calls come between any two steps of the goroutine.
pub mod Bound
use netso.Common.{
  ℕ, ltb, Bool, true, false, Option, none, some, List, [], ◌∷◌, ◌++◌, length, if◌then◌else◌,
}
use netso.Common.Bytes.{Bytes}
use netso.Secure
use netso.Secure.{Noise, Session}
use netso.Wasm.{Page, connect}

-- Where the goroutine stands: before the session, at the range over the channel, with a text that it
-- has taken, or at its end.
pub data Writer : Type 0 where
  opening : Writer
  ranging : Writer
  holding : Bytes → Writer
  returned : Writer

-- The capacity of the channel.
abbrev pub capacity : ℕ
capacity = 32

pub data Action : Type 0 where
  connects : Bytes → Bytes → Action
  sends : Option Bytes → Action
  takes : Action
  writes : Action
  closes : Action

-- `channel` is what waits in `sendCh`, and `taken` all that the goroutine has taken out of it.
pub record State (W : Type 0) (Cipher : Type 0) : Type 0 where
  pub channel : List Bytes
  pub taken : List Bytes
  pub sess : Option (Session Cipher)
  pub writer : Writer
  pub world : W

module _ {W : Type 0} (page : Page W) (noise : Noise) where
  abbrev pub start : W → State W noise.Cipher
  start w = record { channel = []; taken = []; sess = none; writer = Writer.opening; world = w }

  abbrev pub after_connect : Option (Session noise.Cipher) → Writer
  after_connect none = Writer.returned
  after_connect (some sess) = Writer.ranging

  abbrev pub opens : Writer → Bytes → Bytes → State W noise.Cipher → State W noise.Cipher
  opens Writer.opening ws_url agent_pub s =
      let (w, sess) = connect page noise ws_url agent_pub s.world in
      record s { world = w; sess = sess; writer = after_connect sess }
  opens _ ws_url agent_pub s = s

  -- The page's `send`, with its first argument if there is one. A full channel drops the text.
  abbrev pub send : Option Bytes → State W noise.Cipher → State W noise.Cipher
  send none s = s
  send (some b) s =
      if ltb (length s.channel) capacity then record s { channel = s.channel ++ b ∷ [] } else s

  abbrev pub take : Writer → List Bytes → State W noise.Cipher → State W noise.Cipher
  take Writer.ranging (b ∷ rest) s = record s {
    channel = rest;
    taken = s.taken ++ b ∷ [];
    writer = Writer.holding b;
  }
  take _ _ s = s

  abbrev pub after_write : Option Bytes → Writer
  after_write none = Writer.ranging
  after_write (some e) = Writer.returned

  abbrev pub write :
      Writer → Option (Session noise.Cipher) → State W noise.Cipher → State W noise.Cipher
  write (Writer.holding b) (some sess) s =
      let (sess', w, werr) = Secure.write page.conn noise b sess s.world in
      record s { sess = some sess'; world = w; writer = after_write werr }
  write _ _ s = s

  -- The page's `close`, which does nothing while there is no session.
  abbrev pub close : Option (Session noise.Cipher) → State W noise.Cipher → State W noise.Cipher
  close none s = s
  close (some sess) s = record s { world = page.conn.close s.world }

  unfoldable pub step : Action → State W noise.Cipher → State W noise.Cipher
  step (Action.connects ws_url agent_pub) s = opens s.writer ws_url agent_pub s
  step (Action.sends arg) s = send arg s
  step Action.takes s = take s.writer s.channel s
  step Action.writes s = write s.writer s.sess s
  step Action.closes s = close s.sess s

  unfoldable pub run : List Action → State W noise.Cipher → State W noise.Cipher
  run [] s = s
  run (a ∷ acts) s = run acts (step a s)
