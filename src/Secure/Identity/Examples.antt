-- ===== src/Secure/Identity/Examples.antt =====
-- A device whose identity file is not there yet.
use netso.Common.{◌≡◌, refl, none, [], ◌∷◌, arith}
use netso.Common.Bytes.{Bytes, codes, str_eq}
use netso.Common.Result.{ok}
use netso.Map.{Map, get}
use netso.Secure.{Keypair}
use netso.Secure.Identity.{resolve_identity}
use netso.Secure.Identity.Persistence.{no_faults, identity-persists}

abbrev kp : Keypair
kp = record { private = 1 ∷ 0 ∷ []; public = 255 ∷ 7 ∷ 128 ∷ [] }

abbrev path : Bytes
path = codes "id"

abbrev files : Map Bytes
files = (codes "other", codes "text") ∷ []

absent : get path files ≡ none
unfolding get str_eq
absent = refl

identity-persists_example :
    let first = resolve_identity (ok kp) path [] [] no_faults files in
    (first.1 ≡ ok kp)
    × (resolve_identity (ok kp) path (codes "a") (codes "b") no_faults first.0 ≡ (first.0, ok kp))
identity-persists_example =
    identity-persists kp path [] [] (codes "a") (codes "b") files (ok kp) (omega arith)
      (omega arith) (λ e. ground arith) absent (λ e. ground arith) (λ e. ground arith)
