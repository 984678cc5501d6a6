-- ===== src/Hub/Threads/Accounted.antt =====
-- cmd/netso-hub/main.go: where the connections are while the handlers run at the same time.
use netso.Common.{
  get_elem?-set_hit, ℕ, ◌==◌, ==_iff, ◌≡◌, ◌⊎◌, refl, sym, ap, ◌∙◌, subst, ◌&&◌, Option, none, some,
  List, [], ◌∷◌, get_elem?, set, arith, inl, inr, Bool-cases, Option-cases, get_elem?-set_other,
}
use mathlib.Core.Path.{ap₂}
use mathlib.Core.Option
use mathlib.Core.Option.{some-injective}
use netso.Common.Bytes.{Bytes, str_eq, str_eq_refl, str_eq_both}
use netso.Registry
use netso.Registry.{Record, Registry, Peer, Conn, Any}
use netso.Registry.Lookup.{find, find-add}
use netso.Registry.Methods.{conn_of, add_prev, take_result, take_miss, find-take}
use netso.Audit
use netso.Hub.Threads.{Pc, State, after_take, move, advance}
use netso.Hub.Threads.Held.{IsKept}
use netso.Hub.Threads.Exclusive.{live}

abbrev pub IsIn : Conn → List Conn → Type 0
IsIn c [] = ⊥
IsIn c (d ∷ l) = (d ≡ c) ⊎ IsIn c l

-- A connection is registered, or a goroutine uses it, or it is closed.
pub data IsAccounted (s : State) (c : Conn) : Type 0 where
  registered :
      (network name : Bytes) (rec : Record)
      → find network name s.reg ≡ some rec
      → rec.conn ≡ some c
      → IsAccounted s c
  used : (i : ℕ) (pc : Pc) → get_elem? s.threads i ≡ some pc → IsIn c (live pc) → IsAccounted s c
  shut : IsIn c s.closed → IsAccounted s c

-- Nothing is lost when one goroutine goes on, if what it used and what was registered is not.
goes-IsAccounted :
    (s s' : State) (i : ℕ) (pc pc' : Pc) (c : Conn)
    → get_elem? s.threads i ≡ some pc
    → s'.threads ≡ set s.threads i pc'
    → (IsIn c (live pc) → IsAccounted s' c)
    → ((network name : Bytes) (rec : Record)
        → find network name s.reg ≡ some rec
        → rec.conn ≡ some c
        → IsAccounted s' c)
    → (IsIn c s.closed → IsIn c s'.closed)
    → IsAccounted s c
    → IsAccounted s' c
goes-IsAccounted s s' i pc pc' c at e mine reg closed
      (IsAccounted.registered network name rec found there) =
    reg network name rec found there
goes-IsAccounted s s' i pc pc' c at e mine reg closed (IsAccounted.used j pcj at' h) =
    elim (Bool-cases (i == j)) [
      | inl same ↦
          let i_j = (==_iff i j).0 same in
          let hit : some pcj ≡ some pc = sym at' ∙ ap (get_elem? s.threads) (sym i_j) ∙ at in
          mine (subst (λ p. IsIn c (live p)) (some-injective pcj pc hit) h)
      | inr other ↦
          IsAccounted.used j pcj
            (ap (λ l. get_elem? l j) e
              ∙ get_elem?-set_other s.threads i j pc' (λ q. ground arith)
              ∙ at')
            h
    ]
goes-IsAccounted s s' i pc pc' c at e mine reg closed (IsAccounted.shut h) =
    IsAccounted.shut (closed h)

-- What the goroutine itself uses next.
here :
    (s s' : State) (i : ℕ) (pc pc' : Pc) (c : Conn)
    → get_elem? s.threads i ≡ some pc
    → s'.threads ≡ set s.threads i pc'
    → IsIn c (live pc')
    → IsAccounted s' c
here s s' i pc pc' c at e h =
    IsAccounted.used i pc' (ap (λ l. get_elem? l i) e ∙ get_elem?-set_hit s.threads i pc' at) h

take_found :
    (network name : Bytes) (r : Registry) (rec : Record) (c : Conn)
    → find network name r ≡ some rec
    → rec.conn ≡ some c
    → (Registry.take network name r).1 ≡ some (rec.peer, some c)
take_found network name r rec c found there =
    take_result network name r
    ∙ ap (Option.map (λ x. (x.peer, x.conn))) found
    ∙ ap (λ q. some (rec.peer, q)) there

only : (d c : Conn) (l : List Conn) → IsIn c (d ∷ []) → IsIn c (d ∷ l)
only d c l (inl e) = inl e
only d c l (inr h) = absurd h

module _ (i now : ℕ) (s : State) (c : Conn) (a : IsAccounted s c) where
  registering-IsAccounted :
      (network name pubkey : Bytes) (d : Conn)
      → get_elem? s.threads i ≡ some (Pc.registering network name pubkey d)
      → IsAccounted (move i now (Pc.registering network name pubkey d) s) c
  registering-IsAccounted network name pubkey d at =
      let pc = Pc.registering network name pubkey d in
      let s' = move i now pc s in
      let peer : Peer = record { network = network; name = name; pubkey = pubkey } in
      let prev = (Registry.add peer (some d) s.reg).1 in
      let found_after = find-add peer (some d) s.reg in
      goes-IsAccounted s s' i pc (Pc.replacing network name prev) c at refl
        (λ h. elim h [
          | inl e ↦
              IsAccounted.registered network name (record { peer = peer; conn = some d })
                (ground (arith, found_after network name, str_eq_refl network, str_eq_refl name))
                (ap some e)
          | inr h ↦ absurd h
        ])
        (λ network' name' rec found there.
          elim (Bool-cases (str_eq network network' && str_eq name name')) [
            | inl same ↦
                let (same_network, same_name) = str_eq_both network network' name name' same in
                let before : find network name s.reg ≡ some rec =
                  ap₂ (λ n m. find n m s.reg) same_network same_name ∙ found in
                let e : prev ≡ some c = add_prev peer (some d) s.reg ∙ ap conn_of before ∙ there in
                here s s' i pc (Pc.replacing network name (some c)) c at
                  (ap (λ q. set s.threads i (Pc.replacing network name q)) e) (inl refl)
            | inr other ↦
                IsAccounted.registered network' name' rec
                  (ground (arith, found_after network' name')) there
          ])
        (λ h. h) a

  looking-IsAccounted :
      (network name : Bytes) (d : Conn)
      → get_elem? s.threads i ≡ some (Pc.looking network name d)
      → IsKept s
      → IsAccounted (move i now (Pc.looking network name d) s) c
  looking-IsAccounted network name d at (role, server, v) =
      let pc = Pc.looking network name d in
      let s' = move i now pc s in
      let taken = (Registry.take network name s.reg).1 in
      let to : (o : Option (Peer × Any))
          → taken ≡ o
          → IsIn c (live (after_take network name d o))
          → IsAccounted s' c =
        λ o e h.
          here s s' i pc (after_take network name d o) c at
            (ap (λ q. set s.threads i (after_take network name d q)) e) h in
      goes-IsAccounted s s' i pc (after_take network name d taken) c at refl
        (λ h. elim h [
          | inr h ↦ absurd h
          | inl e ↦ elim (Option-cases (find network name s.reg)) [
            | inl nobody ↦ to none (ap (λ q. q.1) (take_miss network name s.reg nobody)) (inl e)
            | inr (rec, found) ↦
                let (b, there, _) = v.tracked.registered network name rec found in
                to (some (rec.peer, some b)) (take_found network name s.reg rec b found there)
                  (inl e)
          ]
        ])
        (λ network' name' rec found there.
          elim (Bool-cases (str_eq network network' && str_eq name name')) [
            | inl same ↦
                let (same_network, same_name) = str_eq_both network network' name name' same in
                let before : find network name s.reg ≡ some rec =
                  ap₂ (λ n m. find n m s.reg) same_network same_name ∙ found in
                to (some (rec.peer, some c)) (take_found network name s.reg rec c before there)
                  (inr (inl refl))
            | inr other ↦
                IsAccounted.registered network' name' rec
                  (ground (arith, find-take network name s.reg v.tracked.reg network' name')) there
          ])
        (λ h. h) a

  -- A step of the goroutine that leaves the registry as it is.
  stays :
      (pc pc' : Pc)
      → get_elem? s.threads i ≡ some pc
      → (s' : State) → s'.threads ≡ set s.threads i pc'
      → s'.reg ≡ s.reg
      → (IsIn c (live pc) → IsIn c (live pc') ⊎ IsIn c s'.closed)
      → (IsIn c s.closed → IsIn c s'.closed)
      → IsAccounted s' c
  stays pc pc' at s' e same mine closed =
      goes-IsAccounted s s' i pc pc' c at e
        (λ h. elim (mine h) [
          | inl next ↦ here s s' i pc pc' c at e next
          | inr done ↦ IsAccounted.shut done
        ])
        (λ network name rec found there.
          IsAccounted.registered network name rec (ap (find network name) same ∙ found) there)
        closed a

  move-IsAccounted :
      (pc : Pc) → get_elem? s.threads i ≡ some pc → IsKept s → IsAccounted (move i now pc s) c
  move-IsAccounted (Pc.registering network name pubkey d) at k =
      registering-IsAccounted network name pubkey d at
  move-IsAccounted (Pc.replacing network name none) at k =
      stays (Pc.replacing network name none) Pc.finished at _ refl refl (λ h. absurd h) (λ h. h)
  move-IsAccounted (Pc.replacing network name (some p)) at k =
      stays (Pc.replacing network name (some p)) Pc.finished at _ refl refl
        (λ h. inr (only p c s.closed h)) inr
  move-IsAccounted (Pc.looking network name d) at k = looking-IsAccounted network name d at k
  move-IsAccounted (Pc.rejecting d) at k =
      stays (Pc.rejecting d) Pc.finished at _ refl refl (λ h. inr (only d c s.closed h)) inr
  move-IsAccounted (Pc.starting network name d b) at k =
      stays (Pc.starting network name d b)
        (Pc.relaying network name d b (Audit.start now network name s.audit).1) at _ refl refl inl
        (λ h. h)
  move-IsAccounted (Pc.relaying network name d b h) at k =
      stays (Pc.relaying network name d b h) (Pc.parting d b h) at _ refl refl
        (λ h. elim h [ inl e ↦ inr (inl e) | inr rest ↦ inl rest ]) inr
  move-IsAccounted (Pc.parting d b h) at k =
      stays (Pc.parting d b h) (Pc.draining h) at _ refl refl (λ h. inr (only b c s.closed h)) inr
  move-IsAccounted (Pc.draining h) at k =
      stays (Pc.draining h) (Pc.ending h) at _ refl refl (λ h. absurd h) (λ h. h)
  move-IsAccounted (Pc.ending h) at k =
      stays (Pc.ending h) Pc.finished at _ refl refl (λ h. absurd h) (λ h. h)
  move-IsAccounted Pc.panicked at k = a
  move-IsAccounted Pc.finished at k = a

  pub advance-IsAccounted : IsKept s → IsAccounted (advance i now s) c
  unfolding advance
  advance-IsAccounted k = elim (Option-cases (get_elem? s.threads i)) [
    | inl nobody ↦ rw (nobody, advance) a
    | inr (pc, at) ↦ rw (at, advance) (move-IsAccounted pc at k)
  ]
