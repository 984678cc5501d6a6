-- ===== src/Hub/Threads/NoLeak.antt =====
-- cmd/netso-hub/main.go: no connection is lost while the handlers run at the same time.
use netso.Common.{
  ℕ, suc, ◌<◌, ◌==◌, ==_iff, ◌≡◌, refl, sym, ap, ◌∙◌, subst, not, ◌||◌, none, some, List, [], ◌∷◌,
  ◌++◌, length, get_elem?, All, arith, inl, inr, Bool-cases, Option-cases, get_elem?-append,
  get_elem?-last, if_both,
}
use netso.Common.Bytes.{str_eq}
use netso.Registry.{Conn}
use netso.Registry.Lookup.{find}
use netso.Hub.Threads.{
  Pc, State, Action, start, agent_arrives, client_arrives, move, advance, step, run,
}
use netso.Hub.Threads.Held.{IsKept}
use netso.Hub.Threads.Steps.{IsTimed, step-IsKept, start-IsKept}
use netso.Hub.Threads.Exclusive.{live}
use netso.Hub.Threads.Accounted.{IsIn, IsAccounted, advance-IsAccounted}

-- A new goroutine loses nothing.
spawned-IsAccounted :
    (s s' : State) (pc : Pc) (c : Conn)
    → s'.threads ≡ s.threads ++ pc ∷ []
    → s'.reg ≡ s.reg
    → s'.closed ≡ s.closed
    → IsAccounted s c
    → IsAccounted s' c
spawned-IsAccounted s s' pc c e same no_more (IsAccounted.registered network name rec found there) =
    IsAccounted.registered network name rec (ap (find network name) same ∙ found) there
spawned-IsAccounted s s' pc c e same no_more (IsAccounted.used i pc' at h) =
    IsAccounted.used i pc' (ap (λ l. get_elem? l i) e ∙ get_elem?-append s.threads (pc ∷ []) i at) h
spawned-IsAccounted s s' pc c e same no_more (IsAccounted.shut h) =
    IsAccounted.shut (subst (IsIn c) (sym no_more) h)

-- Every connection that there is so far.
abbrev AllAccounted : State → Type 0
AllAccounted s = (c : Conn) → c < s.next → IsAccounted s c

born-AllAccounted :
    (s s' : State) (pc : Pc)
    → s'.threads ≡ s.threads ++ pc ∷ []
    → s'.reg ≡ s.reg
    → s'.closed ≡ s.closed
    → s'.next ≡ suc s.next
    → IsIn s.next (live pc)
    → AllAccounted s
    → AllAccounted s'
born-AllAccounted s s' pc e same no_more more h acc c lt = elim (Bool-cases (s.next == c)) [
  | inl new ↦
      IsAccounted.used (length s.threads) pc
        (ap (λ l. get_elem? l (length s.threads)) e ∙ get_elem?-last s.threads pc)
        (subst (λ d. IsIn d (live pc)) ((==_iff s.next c).0 new) h)
  | inr old ↦ spawned-IsAccounted s s' pc c e same no_more (acc c (ground (arith, more)))
]

move_next : (i now : ℕ) (pc : Pc) (s : State) → (move i now pc s).next ≡ s.next
move_next i now (Pc.replacing network name none) s = refl
move_next i now (Pc.replacing network name (some p)) s = refl
move_next i now (Pc.registering network name pubkey c) s = refl
move_next i now (Pc.looking network name c) s = refl
move_next i now (Pc.rejecting c) s = refl
move_next i now (Pc.starting network name c a) s = refl
move_next i now (Pc.relaying network name c a h) s = refl
move_next i now (Pc.parting c a h) s = refl
move_next i now (Pc.draining h) s = refl
move_next i now (Pc.ending h) s = refl
move_next i now Pc.panicked s = refl
move_next i now Pc.finished s = refl

advance_next : (i now : ℕ) (s : State) → (advance i now s).next ≡ s.next
unfolding advance
advance_next i now s = elim (Option-cases (get_elem? s.threads i)) [
  | inl nobody ↦ rw (nobody, advance) refl
  | inr (pc, at) ↦ rw (at, advance) (move_next i now pc s)
]

step-AllAccounted : (a : Action) (s : State) → IsKept s → AllAccounted s → AllAccounted (step a s)
unfolding step agent_arrives client_arrives
step-AllAccounted (Action.agent network name pubkey upgrade) s k acc =
    if_both AllAccounted ((str_eq network [] || str_eq name []) || not upgrade) _ _ (λ refused. acc)
      (λ given.
        born-AllAccounted s _ (Pc.registering network name pubkey s.next) refl refl refl refl
          (inl refl) acc)
step-AllAccounted (Action.client network peer upgrade) s k acc =
    if_both AllAccounted ((str_eq network [] || str_eq peer []) || not upgrade) _ _ (λ refused. acc)
      (λ given.
        born-AllAccounted s _ (Pc.looking network peer s.next) refl refl refl refl (inl refl) acc)
step-AllAccounted (Action.goes i now) s k acc =
    λ c lt. advance-IsAccounted i now s c (acc c (omega (arith, lt, advance_next i now s))) k

run-AllAccounted :
    (acts : List Action) (s : State)
    → All IsTimed acts
    → IsKept s
    → AllAccounted s
    → AllAccounted (run acts s)
unfolding run
run-AllAccounted [] s t k acc = acc
run-AllAccounted (a ∷ acts) s t k acc =
    run-AllAccounted acts (step a s) t.1 (step-IsKept a s t.0 k) (step-AllAccounted a s k acc)

-- After any requests and any steps of their goroutines, in any order, no connection that was
-- upgraded is lost: it is registered, or a goroutine uses it from now on, or it is closed. The clock
-- does not read the zero time.
pub accounted-run :
    (acts : List Action) (c : Conn)
    → All IsTimed acts
    → c < (run acts start).next
    → IsAccounted (run acts start) c
unfolding start
accounted-run acts c t lt =
    run-AllAccounted acts start t start-IsKept (λ d none_yet. absurd (ground arith)) c lt
