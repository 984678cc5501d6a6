-- ===== src/Registry/Spec.antt =====
-- internal/registry/registry.go as a client sees it: a function from network and name to the live
-- registration. The nested map of the code, with its empty networks removed, implements it.
use mathlib.Core.Option
use mathlib.Core.Path.{ap₂}
use netso.Common.{◌≡◌, refl, ◌&&◌, Option, none, some, List, [], ◌∷◌, arith, if◌then◌else◌}
use netso.Common.Bytes.{Bytes, str_eq}
use netso.Map.{get}
use netso.Registry
use netso.Registry.{Peer, Any, Record, Registry}
use netso.Registry.Lookup.{find, IsValid, new-IsValid, add-IsValid, find-add}
use netso.Registry.Methods.{
  conn_of, holds, add_prev, take_result, take-IsValid, find-take, remove-IsValid, find-remove,
}

-- A call of a method, and what it returns.
pub data Call : Type 0 where
  add : Peer → Any → Call
  remove : Bytes → Bytes → Any → Call
  take : Bytes → Bytes → Call

pub data Reply : Type 0 where
  prev : Any → Reply
  done : Reply
  taken : Option (Peer × Any) → Reply

-- The registry, called.
unfoldable pub call : Call → Registry → Registry × Reply
call (Call.add p conn) r = let (r', c) = Registry.add p conn r in (r', prev c)
call (Call.remove network name conn) r = (Registry.remove network name conn r, done)
call (Call.take network name) r = let (r', t) = Registry.take network name r in (r', taken t)

unfoldable pub run : List Call → Registry → Registry × List Reply
unfolding call
run [] r = (r, [])
run (c ∷ cs) r =
    let (r', reply) = call c r in let (r'', replies) = run cs r' in (r'', reply ∷ replies)

-- The specification.
abbrev pub Directory : Type 0
Directory = Bytes → Bytes → Option Record

abbrev pub update : Bytes → Bytes → Option Record → Directory → Directory
update network name o d network' name' =
    if str_eq network network' && str_eq name name' then o else d network' name'

unfoldable pub spec_call : Call → Directory → Directory × Reply
spec_call (Call.add p conn) d = (
  update p.network p.name (some (record { peer = p; conn = conn })) d,
  prev (conn_of (d p.network p.name)),
)
spec_call (Call.remove network name conn) d =
    (if holds conn (d network name) then update network name none d else d, done)
spec_call (Call.take network name) d =
    (update network name none d, taken (Option.map (λ rec. (rec.peer, rec.conn)) (d network name)))

unfoldable pub spec_run : List Call → Directory → Directory × List Reply
unfolding spec_call
spec_run [] d = (d, [])
spec_run (c ∷ cs) d =
    let (d', reply) = spec_call c d in let (d'', replies) = spec_run cs d' in (d'', reply ∷ replies)

-- The registry stands for the directory.
pub record Implements (r : Registry) (d : Directory) : Type 0 where
  pub valid : IsValid r
  pub view : (network name : Bytes) → find network name r ≡ d network name

-- No peer is registered.
abbrev pub nobody : Directory
nobody network name = none

pub new-Implements : Implements Registry.new nobody
unfolding Registry.new find get
new-Implements = record { valid = new-IsValid; view = λ network name. refl }

pub call-Implements :
    (c : Call) (r : Registry) (d : Directory)
    → Implements r d
    → Implements (call c r).0 (spec_call c d).0 × ((call c r).1 ≡ (spec_call c d).1)
unfolding call spec_call
call-Implements (Call.add p conn) r d h = (
  record {
    valid = add-IsValid p conn r h.valid;
    view = λ network name. ground (arith, find-add p conn r network name, h.view network name);
  },
  ground (arith, add_prev p conn r, h.view p.network p.name),
)
call-Implements (Call.remove network name conn) r d h = (
  record {
    valid = remove-IsValid network name r h.valid conn;
    view = λ network' name'. ground (
      arith,
      find-remove network name r h.valid conn network' name',
      h.view network' name',
      h.view network name,
    );
  },
  refl,
)
call-Implements (Call.take network name) r d h = (
  record {
    valid = take-IsValid network name r h.valid;
    view = λ network' name'.
        ground (arith, find-take network name r h.valid network' name', h.view network' name');
  },
  ground (arith, take_result network name r, h.view network name),
)

-- After any sequence of calls on a registry that stands for a directory, the registry stands for
-- the directory after the same calls, and every call returned what the directory says.
pub run-Implements :
    (cs : List Call) (r : Registry) (d : Directory)
    → Implements r d
    → Implements (run cs r).0 (spec_run cs d).0 × ((run cs r).1 ≡ (spec_run cs d).1)
unfolding run spec_run
run-Implements [] r d h = (h, refl)
run-Implements (c ∷ cs) r d h =
    let step = call-Implements c r d h in
    let rest = run-Implements cs (call c r).0 (spec_call c d).0 step.0 in
    (rest.0, ap₂ (λ x xs. x ∷ xs) step.1 rest.1)
