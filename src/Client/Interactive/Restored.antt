-- ===== src/Client/Interactive/Restored.antt =====
-- cmd/netso/main.go: the terminal of an interactive session.
use netso.Common.{
  ◌==◌, ◌≡◌, refl, ◌∙◌, Bool, true, false, not, ◌&&◌, none, some, List, [], ◌∷◌, length, if_both,
  arith, inl, inr, Bool-cases, Option-cases,
}
use netso.Common.Bytes.{Bytes}
use netso.Common.Result.{Result, ok, err, Result-cases}
use netso.Secure
use netso.Secure.{MsgConn, Noise, Session}
use netso.Secure.Drain.{shown}
use netso.Client.Interactive.{
  Console, State, Action, enter, type_in, leave, after_read, read_next, step, run,
}

module _ {W : Type 0} (console : Console W) (noise : Noise) (raw : W → Bool) where
  -- A terminal is made raw unless there is an error, and is restored; nothing else changes its mode.
  pub record IsConsole : Type 0 where
    pub made : (w : W) → (console.make_raw w).1 ≡ none → raw (console.make_raw w).0 ≡ true
    pub not_made :
        (w : W) (e : Bytes) → (console.make_raw w).1 ≡ some e → raw (console.make_raw w).0 ≡ raw w
    pub restored : (w : W) → raw (console.restore w) ≡ false
    pub printed : (p : Bytes) (w : W) → raw (console.print p w) ≡ raw w
    pub sent : (m : Bytes) (w : W) → raw (console.conn.write_msg m w).0 ≡ raw w
    pub received : (w : W) → raw (console.conn.read_msg w).0 ≡ raw w

  module _ (c : IsConsole) where
    write-raw :
        (p : Bytes) (sess : Session noise.Cipher) (w : W)
        → raw (Secure.write console.conn noise p sess w).1 ≡ raw w
    unfolding Secure.write
    write-raw p sess w = elim (Result-cases (noise.encrypt sess.send p)) [
      | inl (e, failed) ↦ ground arith
      | inr (ct, done) ↦ ground (arith, c.sent ct.1 w)
    ]

    read-raw :
        (sess : Session noise.Cipher) (w : W)
        → raw (Secure.read console.conn noise sess w).1 ≡ raw w
    unfolding Secure.read
    read-raw sess w = elim (Result-cases (console.conn.read_msg w).1) [
      | inl (e, failed) ↦ ground (arith, c.received w)
      | inr (ct, got) ↦ elim (Result-cases (noise.decrypt sess.recv ct)) [
        | inl (e, failed) ↦ ground (arith, c.received w)
        | inr (d, opened) ↦ ground (arith, c.received w)
      ]
    ]

    shown-raw : (text : Bytes) (w : W) → raw (shown console.conn noise console.print text w) ≡ raw w
    shown-raw text w =
        if_both (λ w'. raw w' ≡ raw w) (length text == 0) w (console.print text w) (λ e. refl)
          (λ e. c.printed text w)

    -- The terminal is raw exactly while a session runs that has made it raw.
    abbrev pub IsRight : State W noise.Cipher → Type 0
    IsRight s = raw s.world ≡ (s.deferred && not s.returned)

    type_in-IsRight :
        (input : Bytes) (last : Bool) (s : State W noise.Cipher)
        → IsRight s
        → IsRight (type_in console noise input last s)
    type_in-IsRight [] last s h = h
    type_in-IsRight (b ∷ input) last s h = write-raw (b ∷ input) s.sess s.world ∙ h

    leave-raw :
        (deferred : Bool) (w : W) → raw w ≡ deferred → raw (leave console noise deferred w) ≡ false
    leave-raw true w h = c.restored w
    leave-raw false w h = h

    after_read-IsRight :
        (sess : Session noise.Cipher) (w : W) (text : Result Bytes Bytes) (s : State W noise.Cipher)
        → s.returned ≡ false
        → raw w ≡ raw s.world
        → IsRight s
        → IsRight (after_read console noise sess w text s)
    after_read-IsRight sess w (ok text) s runs same h = shown-raw text w ∙ same ∙ h
    after_read-IsRight sess w (err e) s runs same h =
        let mode : raw w ≡ s.deferred = ground (arith, same, h, runs) in
        let done = leave-raw s.deferred w mode in ground (arith, done)

    step-IsRight :
        (a : Action) (s : State W noise.Cipher) → IsRight s → IsRight (step console noise a s)
    unfolding step
    step-IsRight (Action.types input last) s h =
        if_both IsRight (s.typing && not s.returned) (type_in console noise input last s) s
          (λ e. type_in-IsRight input last s h) (λ e. h)
    step-IsRight Action.reads s h =
        if_both IsRight s.returned s (read_next console noise s) (λ e. h)
          (λ runs.
            after_read-IsRight (Secure.read console.conn noise s.sess s.world).0
              (Secure.read console.conn noise s.sess s.world).1
              (Secure.read console.conn noise s.sess s.world).2 s runs (read-raw s.sess s.world) h)

    run-IsRight :
        (acts : List Action) (s : State W noise.Cipher)
        → IsRight s
        → IsRight (run console noise acts s)
    unfolding run
    run-IsRight [] s h = h
    run-IsRight (a ∷ acts) s h = run-IsRight acts (step console noise a s) (step-IsRight a s h)

    enter-IsRight :
        (sess : Session noise.Cipher) (w : W) → raw w ≡ false → IsRight (enter console noise sess w)
    unfolding enter
    enter-IsRight sess w h = elim (Bool-cases (console.is_terminal w)) [
      | inr no_terminal ↦ rw no_terminal h
      | inl terminal ↦ elim (Option-cases (console.make_raw w).1) [
        | inl done ↦ rw (terminal, done) (c.made w done)
        | inr (e, failed) ↦ rw (terminal, failed) (c.not_made w e failed ∙ h)
      ]
    ]

    -- Whatever is typed, whatever comes and in whatever order the two loops run: the terminal is raw
    -- exactly while `runInteractive` runs and has made it raw, and is as it was when it has returned, if
    -- it was not raw before. Nothing but the two calls for it changes the terminal's mode.
    pub run-raw :
        (acts : List Action) (sess : Session noise.Cipher) (w : W)
        → raw w ≡ false
        → let s = run console noise acts (enter console noise sess w) in
          raw s.world ≡ (s.deferred && not s.returned)
    run-raw acts sess w h = run-IsRight acts (enter console noise sess w) (enter-IsRight sess w h)
