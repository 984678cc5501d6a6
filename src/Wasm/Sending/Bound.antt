-- ===== src/Wasm/Sending/Bound.antt =====
-- cmd/netso-wasm/main.go: what becomes of the texts that the page sends.
use mathlib.Core.Path.{ap₂}
use netso.Common.{
  ltb, ◌≤◌, ◌<◌, ◌≡◌, ◌⊎◌, refl, sym, ap, ◌∙◌, subst, true, false, Option, none, some, List, [],
  ◌∷◌, ◌++◌, length, length-append, append_assoc, append-[], arith, inl, inr, Bool-cases,
}
use netso.Common.Bytes.{Bytes}
use netso.Secure.{Noise, Session}
use netso.Wasm.{Page}
use netso.Wasm.Sending.{
  Writer, capacity, Action, State, start, opens, send, take, write, close, step, run,
}

-- The texts that the page sends.
abbrev pub texts : List Action → List Bytes
texts [] = []
texts (Action.sends (some b) ∷ acts) = b ∷ texts acts
texts (_ ∷ acts) = texts acts

-- Some of a list, in its order.
abbrev pub IsSome : List Bytes → List Bytes → Type 0
IsSome [] ys = Unit
IsSome (x ∷ xs) [] = ⊥
IsSome (x ∷ xs) (y ∷ ys) = ((x ≡ y) × IsSome xs ys) ⊎ IsSome (x ∷ xs) ys

IsSome-drop : (xs : List Bytes) (y : Bytes) (ys : List Bytes) → IsSome xs ys → IsSome xs (y ∷ ys)
IsSome-drop [] y ys h = tt
IsSome-drop (x ∷ xs) y ys h = inr h

module _ {W : Type 0} (page : Page W) (noise : Noise) where
  abbrev kept : State W noise.Cipher → List Bytes
  kept s = s.taken ++ s.channel

  -- A send finds the channel full.
  abbrev pub Overflows : List Action → State W noise.Cipher → Type 0
  Overflows [] s = ⊥
  Overflows (Action.sends (some b) ∷ acts) s =
      (length s.channel ≡ capacity) ⊎ Overflows acts (step page noise (Action.sends (some b)) s)
  Overflows (a ∷ acts) s = Overflows acts (step page noise a s)

  take-kept :
      (writer : Writer) (channel : List Bytes) (s : State W noise.Cipher)
      → s.channel ≡ channel
      → (length (take page noise writer channel s).channel ≤ length s.channel)
        × (kept (take page noise writer channel s) ≡ kept s)
  take-kept Writer.ranging (b ∷ rest) s e = (
    omega (arith, ap length e),
    append_assoc s.taken (b ∷ []) rest ∙ ap (λ l. s.taken ++ l) (sym e),
  )
  take-kept Writer.ranging [] s e = (omega arith, refl)
  take-kept Writer.opening channel s e = (omega arith, refl)
  take-kept (Writer.holding b) channel s e = (omega arith, refl)
  take-kept Writer.returned channel s e = (omega arith, refl)

  -- The other steps leave the channel, and what was taken out of it.
  abbrev Leaves : State W noise.Cipher → State W noise.Cipher → Type 0
  Leaves s s' = (s'.channel ≡ s.channel) × (s'.taken ≡ s.taken)

  opens-kept :
      (writer : Writer) (ws_url agent_pub : Bytes) (s : State W noise.Cipher)
      → Leaves s (opens page noise writer ws_url agent_pub s)
  opens-kept Writer.opening ws_url agent_pub s = (refl, refl)
  opens-kept Writer.ranging ws_url agent_pub s = (refl, refl)
  opens-kept (Writer.holding b) ws_url agent_pub s = (refl, refl)
  opens-kept Writer.returned ws_url agent_pub s = (refl, refl)

  write-kept :
      (writer : Writer) (sess : Option (Session noise.Cipher)) (s : State W noise.Cipher)
      → Leaves s (write page noise writer sess s)
  write-kept (Writer.holding b) (some sess) s = (refl, refl)
  write-kept (Writer.holding b) none s = (refl, refl)
  write-kept Writer.opening sess s = (refl, refl)
  write-kept Writer.ranging sess s = (refl, refl)
  write-kept Writer.returned sess s = (refl, refl)

  close-kept :
      (sess : Option (Session noise.Cipher)) (s : State W noise.Cipher)
      → Leaves s (close page noise sess s)
  close-kept none s = (refl, refl)
  close-kept (some sess) s = (refl, refl)

  -- What actions make of a state whose channel is within its capacity.
  record IsCarried (acts : List Action) (s : State W noise.Cipher) : Type 0 where
    pub bounded : length (run page noise acts s).channel ≤ capacity
    pub more : List Bytes
    pub carried : kept (run page noise acts s) ≡ kept s ++ more
    pub some_texts : IsSome more (texts acts)
    pub whole : (more ≡ texts acts) ⊎ Overflows acts s

  -- An action that sends nothing keeps what there is.
  keeps-IsCarried :
      (a : Action) (acts : List Action) (s s' : State W noise.Cipher)
      → run page noise (a ∷ acts) s ≡ run page noise acts s'
      → texts (a ∷ acts) ≡ texts acts
      → (Overflows acts s' → Overflows (a ∷ acts) s)
      → kept s' ≡ kept s
      → IsCarried acts s'
      → IsCarried (a ∷ acts) s
  keeps-IsCarried a acts s s' e none_sent later same c = record {
    bounded = subst (λ r. length r.channel ≤ capacity) (sym e) c.bounded;
    more = c.more;
    carried = ap kept e ∙ c.carried ∙ ap (λ k. k ++ c.more) same;
    some_texts = subst (IsSome c.more) (sym none_sent) c.some_texts;
    whole = elim c.whole [ inl w ↦ inl (w ∙ sym none_sent) | inr o ↦ inr (later o) ];
  }

  send_room :
      (b : Bytes) (s : State W noise.Cipher)
      → length s.channel < capacity
      → send page noise (some b) s ≡ record s { channel = s.channel ++ b ∷ [] }
  send_room b s room = let e : ltb (length s.channel) capacity ≡ true = ground arith in rw e refl

  send_full :
      (b : Bytes) (s : State W noise.Cipher)
      → length s.channel ≡ capacity
      → send page noise (some b) s ≡ s
  send_full b s full = let e : ltb (length s.channel) capacity ≡ false = ground arith in rw e refl

  sent-IsCarried :
      (b : Bytes) (acts : List Action) (s : State W noise.Cipher)
      → length s.channel < capacity
      → IsCarried acts (record s { channel = s.channel ++ b ∷ [] })
      → IsCarried (Action.sends (some b) ∷ acts) s
  unfolding run step
  sent-IsCarried b acts s room c =
      let e = send_room b s room in
      record {
        bounded =
            subst (λ s'. length (run page noise acts s').channel ≤ capacity) (sym e) c.bounded;
        more = b ∷ c.more;
        carried =
            ap (λ s'. kept (run page noise acts s')) e
            ∙ c.carried
            ∙ ap (λ k. k ++ c.more) (sym (append_assoc s.taken s.channel (b ∷ [])))
            ∙ append_assoc (s.taken ++ s.channel) (b ∷ []) c.more;
        some_texts = inl (refl, c.some_texts);
        whole = elim c.whole [
          | inl w ↦ inl (ap (◌∷◌ b) w)
          | inr o ↦ inr (inr (subst (Overflows acts) (sym e) o))
        ];
      }

  dropped-IsCarried :
      (b : Bytes) (acts : List Action) (s : State W noise.Cipher)
      → length s.channel ≡ capacity
      → IsCarried acts s
      → IsCarried (Action.sends (some b) ∷ acts) s
  unfolding run step
  dropped-IsCarried b acts s full c =
      let e = send_full b s full in
      record {
        bounded =
            subst (λ s'. length (run page noise acts s').channel ≤ capacity) (sym e) c.bounded;
        more = c.more;
        carried = ap (λ s'. kept (run page noise acts s')) e ∙ c.carried;
        some_texts = IsSome-drop c.more b (texts acts) c.some_texts;
        whole = inr (inl full);
      }

  run-IsCarried :
      (acts : List Action) (s : State W noise.Cipher)
      → length s.channel ≤ capacity
      → IsCarried acts s
  unfolding run step
  run-IsCarried [] s h = record {
    bounded = h;
    more = [];
    carried = sym (append-[] (kept s));
    some_texts = tt;
    whole = inl refl;
  }
  run-IsCarried (Action.sends none ∷ acts) s h =
      keeps-IsCarried (Action.sends none) acts s s refl refl (λ o. o) refl (run-IsCarried acts s h)
  run-IsCarried (Action.sends (some b) ∷ acts) s h =
      elim (Bool-cases (ltb (length s.channel) capacity)) [
        | inl room ↦ sent-IsCarried b acts s (ground arith) (
            run-IsCarried acts (record s { channel = s.channel ++ b ∷ [] })
              (ground (arith, length-append s.channel (b ∷ []))))
        | inr full ↦ dropped-IsCarried b acts s (ground arith) (run-IsCarried acts s h)
      ]
  run-IsCarried (Action.takes ∷ acts) s h =
      let (shorter, same) = take-kept s.writer s.channel s refl in
      keeps-IsCarried Action.takes acts s (take page noise s.writer s.channel s) refl refl (λ o. o)
        same (run-IsCarried acts (take page noise s.writer s.channel s) (omega (arith, shorter, h)))
  run-IsCarried (Action.connects ws_url agent_pub ∷ acts) s h =
      let s' = opens page noise s.writer ws_url agent_pub s in
      let (channel, taken) = opens-kept s.writer ws_url agent_pub s in
      keeps-IsCarried (Action.connects ws_url agent_pub) acts s s' refl refl (λ o. o)
        (ap₂ (◌++◌) taken channel) (run-IsCarried acts s' (omega (arith, ap length channel, h)))
  run-IsCarried (Action.writes ∷ acts) s h =
      let s' = write page noise s.writer s.sess s in
      let (channel, taken) = write-kept s.writer s.sess s in
      keeps-IsCarried Action.writes acts s s' refl refl (λ o. o) (ap₂ (◌++◌) taken channel)
        (run-IsCarried acts s' (omega (arith, ap length channel, h)))
  run-IsCarried (Action.closes ∷ acts) s h =
      let s' = close page noise s.sess s in
      let (channel, taken) = close-kept s.sess s in
      keeps-IsCarried Action.closes acts s s' refl refl (λ o. o) (ap₂ (◌++◌) taken channel)
        (run-IsCarried acts s' (omega (arith, ap length channel, h)))

-- After any calls of the page and any steps of the goroutine, in any order: no more than 32 texts wait
-- in the channel; what was taken out of it to be written, and what waits, are in order some of the
-- texts that the page has sent; and they are all of them, unless some text was sent while 32 waited.
pub sends-bounded :
    {W : Type 0} (page : Page W) (noise : Noise) (acts : List Action) (w : W)
    → let s = run page noise acts (start page noise w) in
      (length s.channel ≤ capacity)
      × IsSome (s.taken ++ s.channel) (texts acts)
      × ((s.taken ++ s.channel ≡ texts acts) ⊎ Overflows page noise acts (start page noise w))
sends-bounded page noise acts w =
    let c = run-IsCarried page noise acts (start page noise w) (omega arith) in
    (
      c.bounded,
      subst (λ l. IsSome l (texts acts)) (sym c.carried) c.some_texts,
      elim c.whole [ inl e ↦ inl (c.carried ∙ e) | inr o ↦ inr o ],
    )
