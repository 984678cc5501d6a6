-- ===== src/Client/Commands.antt =====
-- cmd/netso/main.go: the choice of the command, `netso keygen` and `netso did`. The files are a map, as in
-- the module Secure.Identity. What is printed is the result: of `did` the DID, unless only the document
-- is asked for, and the document, whose text in JSON is not modelled.
pub mod Stable
mod Examples
use netso.Common.{Bool, Option, none, some, List, [], ◌∷◌, if◌then◌else◌}
use netso.Common.Bytes.{Bytes, codes, str_eq}
use netso.Common.Result.{Result, ok, err}
use netso.Map.{Map}
use netso.Base64.{encode_public}
use netso.Secure
use netso.Secure.{Keypair}
use netso.Secure.Identity.{Faults, load_or_create_identity, resolve_identity}
use netso.Did
use netso.Did.{Document, from_x25519, new_document}

pub data Command : Type 0 where
  keygen : List Bytes → Command
  did : List Bytes → Command
  peers : List Bytes → Command
  ssh : List Bytes → Command
  usage : Command

-- The command of `os.Args`, with its own arguments.
unfoldable pub command : List Bytes → Command
command (program ∷ name ∷ args) =
    if str_eq name (codes "keygen")
    then Command.keygen args
    else if str_eq name (codes "did")
    then Command.did args
    else if str_eq name (codes "peers")
    then Command.peers args
    else if str_eq name (codes "ssh")
    then Command.ssh args
    else Command.usage
command _ = Command.usage

-- The ends by `log.Fatal`.
pub data Stop : Type 0 where
  identity_required : Stop
  bad_identity : Secure.Error → Stop
  bad_key : Did.Error → Stop

unfoldable pub cmd_keygen :
    Result Secure.Error Keypair → Faults → Bytes → Map Bytes → Map Bytes × Result Stop Bytes
cmd_keygen generated faults identity files =
    if str_eq identity []
    then (files, err Stop.identity_required)
    else let (files', id) = load_or_create_identity generated identity faults files in
      elim id [
        | err e ↦ (files', err (Stop.bad_identity e))
        | ok kp ↦ (files', ok (encode_public kp.public))
      ]

-- The DID and the document of a key.
unfoldable pub describe : Bool → Bytes → Result Stop (Option Bytes × Document)
describe doc_only public = elim (from_x25519 public) [
  | err e ↦ err (Stop.bad_key e)
  | ok id ↦ elim (new_document public) [
    | err e ↦ err (Stop.bad_key e)
    | ok doc ↦ ok (if doc_only then none else some id, doc)
  ]
]

unfoldable pub cmd_did :
    Result Secure.Error Keypair
    → Faults
    → Bytes
    → Bytes
    → Bytes
    → Bool
    → Map Bytes
    → Map Bytes × Result Stop (Option Bytes × Document)
cmd_did generated faults identity priv public doc_only files =
    let (files', id) = resolve_identity generated identity priv public faults files in
    elim id [
      | err e ↦ (files', err (Stop.bad_identity e))
      | ok kp ↦ (files', describe doc_only kp.public)
    ]
