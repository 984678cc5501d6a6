-- ===== src/Client/Commands/Examples.antt =====
-- A device that makes its identity and shows its DID.
use netso.Common.{true, false, none, some, [], ◌∷◌, ◌≡◌, refl, arith}
use netso.Common.Bytes.{Bytes, codes, str_eq}
use netso.Common.Result.{ok}
use netso.Map.{Map, get}
use netso.Base64.{decode_public}
use netso.Secure.{Keypair}
use netso.Secure.Identity.Persistence.{no_faults}
use netso.Did.{Document, matches}
use netso.Client.Commands.{Command, command, cmd_keygen, cmd_did}
use netso.Client.Commands.Stable.{keygen-did}

test_command :
    command (codes "netso" ∷ codes "did" ∷ codes "-doc" ∷ []) ≡ Command.did (codes "-doc" ∷ [])
unfolding command str_eq
test_command = refl

abbrev pair : Keypair
pair = record { private = codes "private"; public = codes "0123456789abcdef0123456789abcdef" }

abbrev no_files : Map Bytes
no_files = []

id_absent : get (codes "id") no_files ≡ none
unfolding get
id_absent = refl

keygen-did_example :
    let first = cmd_keygen (ok pair) no_faults (codes "id") no_files in
    (text : Bytes) × (doc : Document) × (first.1 ≡ ok text)
    × (decode_public text ≡ some pair.public)
    × (cmd_did (ok pair) no_faults (codes "id") [] [] false first.0
        ≡ (first.0, ok (some doc.id, doc)))
    × (matches doc.id pair.public ≡ true)
keygen-did_example =
    keygen-did pair (codes "id") [] [] no_files (ok pair) false (omega arith) (omega arith)
      (λ e. ground arith) id_absent (λ e. ground arith) refl
