-- ===== src/Secure/Drain.antt =====
-- The loop that reads a session until it ends and hands every text on: of `runExec` in
-- cmd/netso/main.go, and of the browser client in cmd/netso-wasm/main.go.
use netso.Common.{
  ℕ, zero, suc, ◌+◌, ◌≤◌, ◌≡◌, refl, sym, ap, ◌∙◌, Bool, true, false, List, [], ◌∷◌, ◌++◌, length,
  ◌==◌, arith, append_assoc, append-[], if◌then◌else◌,
}
use netso.Common.Bytes.{Bytes}
use netso.Common.Result.{ok, err}
use netso.Secure
use netso.Secure.{MsgConn, Noise, Session}

-- The texts one after the other.
abbrev pub joined : List Bytes → Bytes
joined [] = []
joined (p ∷ ps) = p ++ joined ps

module _ {W : Type 0} (conn : MsgConn W) (noise : Noise) (put : Bytes → W → W) where
  -- Empty data is not handed on.
  abbrev pub shown : Bytes → W → W
  shown p w = if length p == 0 then w else put p w

  -- The loop on fuel: whether it has returned.
  unfoldable pub drain : ℕ → Session noise.Cipher → W → Bool × W
  drain zero sess w = (false, w)
  drain (suc fuel) sess w =
      let (sess', w', text) = Secure.read conn noise sess w in
      elim text [ err e ↦ (true, w') | ok p ↦ drain fuel sess' (shown p w') ]

  -- The session's reads give these texts and then an error, when each text is handed on before the
  -- next read.
  pub data Gives : Session noise.Cipher → W → List Bytes → Type 0 where
    ended :
        {sess : Session noise.Cipher} {w : W} (e : Bytes)
        → (Secure.read conn noise sess w).2 ≡ err e
        → Gives sess w []
    given :
        {sess : Session noise.Cipher} {w : W} {p : Bytes} {ps : List Bytes}
        → (Secure.read conn noise sess w).2 ≡ ok p
        → Gives (Secure.read conn noise sess w).0 (shown p (Secure.read conn noise sess w).1) ps
        → Gives sess w (p ∷ ps)

  -- What was handed on: a text adds itself, and a read nothing.
  pub record IsOutput (printed : W → Bytes) : Type 0 where
    pub prints : (p : Bytes) (w : W) → printed (put p w) ≡ printed w ++ p
    pub reads :
        (sess : Session noise.Cipher) (w : W)
        → printed (Secure.read conn noise sess w).1 ≡ printed w

  shown-prints :
      (printed : W → Bytes) (p : Bytes) (w : W)
      → IsOutput printed
      → printed (shown p w) ≡ printed w ++ p
  shown-prints printed [] w o = sym (append-[] (printed w))
  shown-prints printed (c ∷ p) w o = ground (arith, o.prints (c ∷ p) w)

  pub drain-Gives :
      (printed : W → Bytes) (fuel : ℕ) (sess : Session noise.Cipher) (w : W) (ps : List Bytes)
      → IsOutput printed
      → Gives sess w ps
      → length ps + 1 ≤ fuel
      → ((drain fuel sess w).0 ≡ true) × (printed (drain fuel sess w).1 ≡ printed w ++ joined ps)
  unfolding drain
  drain-Gives printed zero sess w ps o g enough = absurd (omega arith)
  drain-Gives printed (suc fuel) sess w _ o (ended e failed) enough =
      (rw (failed, drain) refl, rw (failed, drain) (o.reads sess w ∙ sym (append-[] (printed w))))
  drain-Gives printed (suc fuel) sess w _ o (given {p = p} {ps = ps} got rest) enough =
      let w' = (Secure.read conn noise sess w).1 in
      let (returned, output) =
        drain-Gives printed fuel (Secure.read conn noise sess w).0 (shown p w') ps o rest
          (omega arith) in
      (
        rw (got, drain) returned,
        rw (got, drain)
            (output
              ∙ ap (λ l. l ++ joined ps)
                  (shown-prints printed p w' o ∙ ap (λ l. l ++ p) (o.reads sess w))
              ∙ append_assoc (printed w) p (joined ps)),
      )
