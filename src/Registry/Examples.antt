-- ===== src/Registry/Examples.antt =====
-- A registry with two networks for the theorems on it.
use netso.Common.{◌≡◌, refl, some, List, [], ◌∷◌}
use netso.Common.Bytes.{Bytes, codes, str_eq}
use netso.Map.{get, put}
use netso.Registry
use netso.Registry.{Peer, Record, Registry, net_of, peers_of, peer_name, list, networks}
use netso.Registry.Lookup.{IsValid, find, find-named, new-IsValid, add-IsValid}
use netso.Registry.Spec.{Call, run, spec_run, Implements, nobody, new-Implements, run-Implements}

abbrev office : Bytes
office = codes "office"

abbrev dev : Peer
dev = record { network = office; name = codes "dev"; pubkey = codes "key" }

abbrev box : Peer
box = record { network = office; name = codes "box"; pubkey = codes "key" }

abbrev far : Peer
far = record { network = codes "site"; name = codes "box"; pubkey = codes "key" }

-- Two agents replace and leave one another, and one is taken.
abbrev calls : List Call
calls =
    Call.add dev (some 0)
    ∷ Call.add dev (some 1)
    ∷ Call.remove office (codes "dev") (some 0)
    ∷ Call.take office (codes "dev")
    ∷ Call.add far (some 2)
    ∷ []

run-Implements_example :
    Implements (run calls Registry.new).0 (spec_run calls nobody).0
    × ((run calls Registry.new).1 ≡ (spec_run calls nobody).1)
run-Implements_example = run-Implements calls Registry.new nobody new-Implements

abbrev peers : Registry
peers =
    (Registry.add far (some 2)
      (Registry.add box (some 1) (Registry.add dev (some 0) Registry.new).0).0).0

peers-IsValid : IsValid peers
peers-IsValid =
    add-IsValid far (some 2)
      (Registry.add box (some 1) (Registry.add dev (some 0) Registry.new).0).0
      (add-IsValid box (some 1) (Registry.add dev (some 0) Registry.new).0
        (add-IsValid dev (some 0) Registry.new new-IsValid))

dev_found : find office (codes "dev") peers ≡ some (record { peer = dev; conn = some 0 })
unfolding find get put str_eq Registry.new Registry.add
dev_found = refl

find-named_example : (dev.network ≡ office) × (dev.name ≡ codes "dev")
find-named_example =
    find-named office (codes "dev") peers (record { peer = dev; conn = some 0 }) peers-IsValid
      dev_found
