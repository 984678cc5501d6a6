-- ===== src/Audit.antt =====
-- internal/audit/audit.go: the bounded history of brokered sessions and the live count.
-- The log and its callers share `*Session` pointers: `sessions` is the memory that they point into,
-- oldest first, and a pointer is an index into it. A time is a number with 0 for the zero time, and
-- a reading of the clock `l.now()` is an argument of the method that makes it.
pub mod History
pub mod Count
mod Examples
use mathlib.Core.Option
use Prim.Native.Nat.{min}
use netso.Common.{
  ℕ, zero, suc, ◌+◌, ◌-◌, ltb, ◌==◌, Bool, true, false, not, Option, none, some, List, [], ◌∷◌,
  ◌++◌, length, drop, get_elem?, set, if◌then◌else◌,
}
use netso.Common.Bytes.{Bytes}
use netso.Common.Int.{ℤ, pos, negsuc}

pub record Session : Type 0 where
  pub network : Bytes
  pub peer : Bytes
  pub started : ℕ
  pub ended : ℕ

-- `time.Time.IsZero`
abbrev pub is_zero : ℕ → Bool
is_zero t = t == 0

unfoldable pub is_active : Session → Bool
is_active s = is_zero s.ended

-- The object that `MarshalJSON` writes: "ended" is left out while the session is active.
pub record SessionJson : Type 0 where
  pub network : Bytes
  pub peer : Bytes
  pub started : ℕ
  pub ended : Option ℕ
  pub active : Bool

unfoldable pub marshal_json : Session → SessionJson
unfolding is_active
marshal_json s = record {
  network = s.network;
  peer = s.peer;
  started = s.started;
  ended = if not (is_zero s.ended) then some s.ended else none;
  active = is_active s;
}

-- A `*Session` that is not nil.
abbrev pub Handle : Type 0
Handle = ℕ

pub record Log : Type 0 where
  pub max : ℕ
  pub entries : List Handle
  pub active : ℕ
  pub sessions : List Session

unfoldable pub new_log : ℤ → Log
new_log (pos n) = record { max = if ltb n 1 then 1 else n; entries = []; active = 0; sessions = [] }
new_log (negsuc n) = record { max = 1; entries = []; active = 0; sessions = [] }

-- `if len(l.entries) > l.max { l.entries = l.entries[len(l.entries)-l.max:] }`
abbrev pub trim : ℕ → List Handle → List Handle
trim max entries = if ltb max (length entries) then drop (length entries - max) entries else entries

unfoldable pub start : ℕ → Bytes → Bytes → Log → Log × Handle
start now network peer l =
    let s = length l.sessions in
    (
      record l {
        sessions =
            l.sessions ++ record { network = network; peer = peer; started = now; ended = 0 } ∷ [];
        entries = trim l.max (l.entries ++ s ∷ []);
        active = l.active + 1;
      },
      s,
    )

-- `none` is the nil pointer. A pointer comes from `start`, so it is in range.
unfoldable pub end : ℕ → Option Handle → Log → Log
end now none l = l
end now (some h) l = elim (get_elem? l.sessions h) [
  | none ↦ l
  | some s ↦
      if is_zero s.ended
      then record l {
        sessions = set l.sessions h (record s { ended = now });
        active = if ltb 0 l.active then l.active - 1 else l.active;
      }
      else l
]

unfoldable pub active : Log → ℕ
active l = l.active

-- `*l.entries[i]`; `none` is a panic
abbrev pub deref : Log → ℕ → Option Session
deref l i = elim (get_elem? l.entries i) [ none ↦ none | some h ↦ get_elem? l.sessions h ]

-- The loop of `Recent`, with `i + 1` for its counter.
unfoldable pub copy_back : ℕ → ℕ → Log → List Session → Option (List Session)
copy_back zero n l out = some out
copy_back (suc i) n l out = elim (ltb (length out) n) [
  | true ↦ elim (deref l i) [ none ↦ none | some s ↦ copy_back i n l (out ++ s ∷ []) ]
  | false ↦ some out
]

-- `make` panics on a negative capacity.
unfoldable pub recent : ℤ → Log → Option (List Session)
unfolding copy_back
recent (pos n) l =
    let n' = if ltb (length l.entries) n then length l.entries else n in
    copy_back (length l.entries) n' l []
recent (negsuc n) l = none
