-- ===== src/Audit/Count.antt =====
-- internal/audit/audit.go: the live count against the sessions themselves, over any sequence of
-- calls.
use Prim.Native.Nat.{min}
use mathlib.Core.List.{reverse}
use netso.Common.{
  get_elem?-set_hit, ℕ, zero, suc, ◌+◌, ◌≡◌, ◌≢◌, refl, ◌∙◌, subst, true, false, Option, none, some,
  List, [], ◌∷◌, ◌++◌, take, get_elem?, set, All, if◌then◌else◌, arith, Option-cases, inl, inr,
}
use netso.Common.Bytes.{Bytes}
use netso.Common.Int.{ℤ, pos, negsuc}
use netso.Audit
use netso.Audit.{Session, Log, Handle, new_log, is_active, active, recent}
use netso.Audit.History.{
  IsRetained, new_log-IsRetained, start-IsRetained, end-IsRetained, end_frame, recent_newest,
}

-- How many sessions are not ended.
unfoldable pub open_count : List Session → ℕ
open_count [] = 0
open_count (s ∷ l) = if is_active s then suc (open_count l) else open_count l

pub record IsValid (l : Log) : Type 0 where
  pub retained : IsRetained l
  pub counted : l.active ≡ open_count l.sessions

open_count-snoc :
    (l : List Session) (s : Session)
    → is_active s ≡ true
    → open_count (l ++ s ∷ []) ≡ open_count l + 1
unfolding open_count
open_count-snoc [] s h = ground arith
open_count-snoc (x ∷ l) s h = ground (arith, open_count-snoc l s h)

open_count-set :
    (l : List Session) (h : ℕ) (s s' : Session)
    → get_elem? l h ≡ some s
    → is_active s ≡ true
    → is_active s' ≡ false
    → open_count (set l h s') + 1 ≡ open_count l
unfolding open_count
open_count-set [] h s s' at a b = ground arith
open_count-set (x ∷ l) zero s s' at a b = ground arith
open_count-set (x ∷ l) (suc h) s s' at a b = ground (arith, open_count-set l h s s' at a b)

pub start-IsValid :
    (now : ℕ) (network peer : Bytes) (l : Log)
    → IsValid l
    → IsValid (Audit.start now network peer l).0
unfolding Audit.start is_active
start-IsValid now network peer l v = record {
  retained = start-IsRetained now network peer l v.retained;
  counted = ground (
    arith,
    open_count-snoc l.sessions (record { network = network; peer = peer; started = now; ended = 0 })
        refl,
  );
}

-- On a valid log, ending an active session by a handle to it at a time after the zero time: that
-- session gets its end, every other stays as it was, and the live count falls by exactly one, so
-- the guard on zero never stops it.
pub end_once :
    (now : ℕ) (h : Handle) (l : Log) (s : Session)
    → IsValid l
    → now ≢ 0
    → get_elem? l.sessions h ≡ some s
    → is_active s ≡ true
    → ((Audit.end now (some h) l).sessions ≡ set l.sessions h (record s { ended = now }))
      × ((Audit.end now (some h) l).active + 1 ≡ l.active)
unfolding Audit.end is_active
end_once now h l s v nonzero at a =
    let count = open_count-set l.sessions h s (record s { ended = now }) at a (ground arith) in
    ground (arith, count)

end-counted :
    (now : ℕ) (h : Option Handle) (l : Log)
    → now ≢ 0
    → IsValid l
    → (Audit.end now h l).active ≡ open_count (Audit.end now h l).sessions
unfolding Audit.end is_active
end-counted now none l nonzero v = v.counted
end-counted now (some h) l nonzero v = elim (Option-cases (get_elem? l.sessions h)) [
  | inl e ↦ ground arith
  | inr (s, e) ↦ ground (arith, open_count-set l.sessions h s (record s { ended = now }) e)
]

pub end-IsValid :
    (now : ℕ) (h : Option Handle) (l : Log) → now ≢ 0 → IsValid l → IsValid (Audit.end now h l)
end-IsValid now h l nonzero v = record {
  retained = end-IsRetained now h l v.retained;
  counted = end-counted now h l nonzero v;
}

-- Ending a session again, or by the nil pointer, changes nothing, if the first end is not at the
-- zero time.
pub end_again :
    (now later : ℕ) (h : Option Handle) (l : Log)
    → now ≢ 0
    → Audit.end later h (Audit.end now h l) ≡ Audit.end now h l
unfolding Audit.end
end_again now later none l nonzero = refl
end_again now later (some h) l nonzero = elim (Option-cases (get_elem? l.sessions h)) [
  | inl e ↦ ground arith
  | inr (s, e) ↦ ground (arith, get_elem?-set_hit l.sessions h (record s { ended = now }) e)
]

-- What the log's callers do, with the readings of the clock.
pub data Call : Type 0 where
  start : ℕ → Bytes → Bytes → Call
  end : ℕ → Option Handle → Call

unfoldable pub run : List Call → Log → Log
run [] l = l
run (Call.start now network peer ∷ calls) l = run calls (Audit.start now network peer l).0
run (Call.end now h ∷ calls) l = run calls (Audit.end now h l)

-- The clock does not read the zero time.
abbrev pub IsTimed : Call → Type 0
IsTimed (Call.start now network peer) = Unit
IsTimed (Call.end now h) = now ≢ 0

pub run-IsValid :
    (calls : List Call) (l : Log) → All IsTimed calls → IsValid l → IsValid (run calls l)
unfolding run
run-IsValid [] l t v = v
run-IsValid (Call.start now network peer ∷ calls) l t v =
    run-IsValid calls (Audit.start now network peer l).0 t.1 (start-IsValid now network peer l v)
run-IsValid (Call.end now h ∷ calls) l t v =
    run-IsValid calls (Audit.end now h l) t.1 (end-IsValid now h l t.0 v)

pub new_log-IsValid : (max : ℤ) → IsValid (new_log max)
unfolding new_log open_count
new_log-IsValid (pos n) = record { retained = new_log-IsRetained (pos n); counted = refl }
new_log-IsValid (negsuc n) = record { retained = new_log-IsRetained (negsuc n); counted = refl }

run_max : (calls : List Call) (l : Log) → (run calls l).max ≡ l.max
unfolding run Audit.start
run_max [] l = refl
run_max (Call.start now network peer ∷ calls) l = run_max calls (Audit.start now network peer l).0
run_max (Call.end now h ∷ calls) l = run_max calls (Audit.end now h l) ∙ (end_frame now h l).0

-- After any calls on a new log, `Active` is the number of sessions started and not ended, and
-- `Recent(n)` returns the newest of all sessions started, newest first, n of them or as many as the
-- log retains, if no session ends at the zero time.
pub log_correct :
    (max : ℤ) (calls : List Call) (n : ℕ)
    → All IsTimed calls
    → let l = run calls (new_log max) in
      (active l ≡ open_count l.sessions)
      × (recent (pos n) l ≡ some (take (min n (new_log max).max) (reverse l.sessions)))
unfolding active
log_correct max calls n t =
    let v = run-IsValid calls (new_log max) t (new_log-IsValid max) in
    let l = run calls (new_log max) in
    (
      v.counted,
      subst (λ m. recent (pos n) l ≡ some (take (min n m) (reverse l.sessions)))
          (run_max calls (new_log max)) (recent_newest n l v.retained),
    )
