-- ===== src/WsConn/Exclusive.antt =====
-- internal/transport/transport_ws.go: the websocket has one writer at a time.
use netso.Common.{
  get_elem?-set_hit, get_elem?-snoc, ℕ, zero, suc, ◌==◌, ==_iff, ◌≡◌, ◌≢◌, ◌⊎◌, refl, sym, ap, ◌∙◌,
  Option, none, some, List, [], ◌∷◌, get_elem?, set, arith, inl, inr, Bool-cases, Option-cases,
  get_elem?-set_other, get_elem?-append,
}
use mathlib.Core.Option.{some-injective}
use netso.Common.Bytes.{Bytes}
use netso.WsConn.{
  Websocket, Call, State, Action, start, write_msg, lock, finish, read_msg, close, step, run,
}

some_ne_none : {A : Type 0} {a : A} → some a ≢ none
some_ne_none e = ground arith

locking_ne_writing : (p q : Bytes) → Call.locking p ≢ Call.writing q
locking_ne_writing p q e = cc

returned_ne_writing : (e : Option Bytes) (q : Bytes) → Call.returned e ≢ Call.writing q
returned_ne_writing e q h = cc

-- The call that writes is the one that holds the mutex.
pub record IsHeld {W : Type 0} (s : State W) : Type 0 where
  pub held : (i : ℕ) (p : Bytes) → get_elem? s.calls i ≡ some (Call.writing p) → s.mutex ≡ some i
  pub holder :
      (i : ℕ) → s.mutex ≡ some i → (p : Bytes) × (get_elem? s.calls i ≡ some (Call.writing p))

module _ {W : Type 0} (ws : Websocket W) where
  write_msg-IsHeld : (p : Bytes) (s : State W) → IsHeld s → IsHeld (write_msg ws p s)
  write_msg-IsHeld p s h = record {
    held = λ i q at. elim (get_elem?-snoc s.calls (Call.locking p) i at) [
      | inl before ↦ h.held i q before
      | inr (_, new) ↦ absurd (locking_ne_writing p q new)
    ];
    holder = λ i e.
        let (q, at) = h.holder i e in (q, get_elem?-append s.calls (Call.locking p ∷ []) i at);
  }

  lock-IsHeld :
      (i : ℕ) (mutex : Option ℕ) (call : Option Call) (s : State W)
      → s.mutex ≡ mutex
      → get_elem? s.calls i ≡ call
      → IsHeld s
      → IsHeld (lock ws i mutex call s)
  lock-IsHeld i none (some (Call.locking p)) s free at h = record {
    held = λ j q at'. elim (Bool-cases (i == j)) [
      | inl same ↦ ap some ((==_iff i j).0 same)
      | inr other ↦
          let before : get_elem? s.calls j ≡ some (Call.writing q) =
            sym (get_elem?-set_other s.calls i j (Call.writing p) (λ e. ground arith)) ∙ at' in
          absurd (some_ne_none (sym (h.held j q before) ∙ free))
    ];
    holder = λ j e. (
      p,
      ap (get_elem? (set s.calls i (Call.writing p))) (sym (some-injective i j e))
          ∙ get_elem?-set_hit s.calls i (Call.writing p) at,
    );
  }
  lock-IsHeld i none (some (Call.writing p)) s free at h = h
  lock-IsHeld i none (some (Call.returned e)) s free at h = h
  lock-IsHeld i none none s free at h = h
  lock-IsHeld i (some j) call s free at h = h

  finish-IsHeld :
      (i : ℕ) (call : Option Call) (s : State W)
      → get_elem? s.calls i ≡ call
      → IsHeld s
      → IsHeld (finish ws i call s)
  finish-IsHeld i (some (Call.writing p)) s at h =
      let werr = (ws.write_message p s.world).1 in
      record {
        held = λ j q at'. elim (Bool-cases (i == j)) [
          | inl same ↦
              let hit =
                sym (get_elem?-set_hit s.calls i (Call.returned werr) at)
                ∙ ap (get_elem? (set s.calls i (Call.returned werr))) ((==_iff i j).0 same)
                ∙ at' in
              absurd (returned_ne_writing werr q (some-injective _ _ hit))
          | inr other ↦
              let before : get_elem? s.calls j ≡ some (Call.writing q) =
                sym (get_elem?-set_other s.calls i j (Call.returned werr) (λ e. ground arith))
                ∙ at' in
              let same : i ≡ j = some-injective i j (sym (h.held i p at) ∙ h.held j q before) in
              absurd (ground arith)
        ];
        holder = λ j e. absurd (some_ne_none (sym e));
      }
  finish-IsHeld i (some (Call.locking p)) s at h = h
  finish-IsHeld i (some (Call.returned e)) s at h = h
  finish-IsHeld i none s at h = h

  run-IsHeld : (acts : List Action) (s : State W) → IsHeld s → IsHeld (run ws acts s)
  unfolding run step
  run-IsHeld [] s h = h
  run-IsHeld (Action.call p ∷ acts) s h =
      run-IsHeld acts (write_msg ws p s) (write_msg-IsHeld p s h)
  run-IsHeld (Action.lock_at i ∷ acts) s h =
      run-IsHeld acts (lock ws i s.mutex (get_elem? s.calls i) s)
        (lock-IsHeld i s.mutex (get_elem? s.calls i) s refl refl h)
  run-IsHeld (Action.write_at i ∷ acts) s h =
      run-IsHeld acts (finish ws i (get_elem? s.calls i) s)
        (finish-IsHeld i (get_elem? s.calls i) s refl h)
  run-IsHeld (Action.read ∷ acts) s h =
      run-IsHeld acts (read_msg ws s).0 (record { held = h.held; holder = h.holder })
  run-IsHeld (Action.shut ∷ acts) s h =
      run-IsHeld acts (close ws s).0 (record { held = h.held; holder = h.holder })

  start-IsHeld : (w : W) → IsHeld (start w)
  start-IsHeld w = record {
    held = λ i p at. absurd (some_ne_none (sym at));
    holder = λ i e. absurd (some_ne_none (sym e));
  }

-- How many calls are inside the library's `WriteMessage`.
unfoldable pub writers : List Call → ℕ
writers [] = 0
writers (Call.writing p ∷ l) = suc (writers l)
writers (_ ∷ l) = writers l

writers_none :
    (l : List Call)
    → ((i : ℕ) (p : Bytes) → get_elem? l i ≡ some (Call.writing p) → ⊥)
    → writers l ≡ 0
unfolding writers
writers_none [] h = refl
writers_none (Call.writing p ∷ l) h = absurd (h 0 p refl)
writers_none (Call.locking p ∷ l) h = writers_none l (λ i. h (suc i))
writers_none (Call.returned e ∷ l) h = writers_none l (λ i. h (suc i))

writers_one :
    (l : List Call) (j : ℕ) (q : Bytes)
    → get_elem? l j ≡ some (Call.writing q)
    → ((i : ℕ) (p : Bytes) → get_elem? l i ≡ some (Call.writing p) → i ≡ j)
    → writers l ≡ 1
unfolding writers
writers_one [] j q at h = ground arith
writers_one (Call.writing p ∷ l) j q at h =
    let first : 0 ≡ j = h 0 p refl in
    ap suc (writers_none l (λ i p' at'. absurd (omega (arith, h (suc i) p' at', first))))
writers_one (Call.locking p ∷ l) zero q at h =
    absurd (locking_ne_writing p q (some-injective _ _ at))
writers_one (Call.returned e ∷ l) zero q at h =
    absurd (returned_ne_writing e q (some-injective _ _ at))
writers_one (Call.locking p ∷ l) (suc j) q at h =
    writers_one l j q at (λ i p' at'. omega (arith, h (suc i) p' at'))
writers_one (Call.returned e ∷ l) (suc j) q at h =
    writers_one l j q at (λ i p' at'. omega (arith, h (suc i) p' at'))

-- Whatever calls goroutines make of one connection, and in whatever order they run: either nobody holds
-- the mutex and no call is inside the library's `WriteMessage`, so that any call at `Lock` can go on, or
-- the call that holds the mutex is inside it and is the only one.
pub run-writers :
    {W : Type 0} (ws : Websocket W) (acts : List Action) (w : W)
    → let s = run ws acts (start w) in
      ((s.mutex ≡ none) × (writers s.calls ≡ 0))
      ⊎ ((j : ℕ) × (q : Bytes) × (s.mutex ≡ some j)
          × (get_elem? s.calls j ≡ some (Call.writing q))
          × (writers s.calls ≡ 1))
run-writers ws acts w =
    let s = run ws acts (start w) in
    let h = run-IsHeld ws acts (start w) (start-IsHeld ws w) in
    elim (Option-cases s.mutex) [
      | inl free ↦
          inl (free, writers_none s.calls (λ i p at. some_ne_none (sym (h.held i p at) ∙ free)))
      | inr (j, taken) ↦
          let (q, at) = h.holder j taken in
          inr (
            j,
            q,
            taken,
            at,
            writers_one s.calls j q at
                (λ i p at'. some-injective i j (sym (h.held i p at') ∙ taken)),
          )
    ]
