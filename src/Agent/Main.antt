-- ===== src/Agent/Main.antt =====
-- cmd/netso-agent/main.go: `main`, from the parsed flags on: what it makes of them, and the loop that
-- serves one session after the other. The file of clients, as each round reads it, is an argument, as in
-- the module Agent, and so is what happens between two rounds: the session, whose loops are in
-- Agent/Serve/Loops, and the sleep.
pub mod Rounds
mod Examples
use netso.Common.{not, Bool, Option, none, some, List, [], ◌∷◌, if◌then◌else◌}
use netso.Common.Bytes.{Bytes, str_eq}
use netso.Common.Result.{Result, ok, err}
use netso.Map.{Map}
use netso.Base64.{decode_public}
use netso.Secure.{Error, Scanned, Keypair, Noise, Session}
use netso.Secure.Identity.{Faults, resolve_identity}
use netso.Agent.{allowlist, dial_url}
use netso.Agent.Serve.{Host, serve}

pub record Flags : Type 0 where
  pub hub : Bytes
  pub network : Bytes
  pub name : Bytes
  pub shell : Bytes
  pub identity : Bytes
  pub private : Bytes
  pub public : Bytes
  pub auth_client : Bytes
  pub auth_clients : Bytes
  pub once : Bool

-- The calls of `log.Fatal`.
pub data Fatal : Type 0 where
  name_required : Fatal
  no_identity : Error → Fatal
  bad_client : Fatal

-- The local variables that the loop uses.
pub record Ready : Type 0 where
  pub kp : Keypair
  pub static_allowed : List Bytes
  pub url : Bytes

-- `staticAllowed`; `none` is the fatal error.
abbrev pub static_of : Bytes → Option (List Bytes)
static_of auth_client =
    if not (str_eq auth_client [])
    then elim (decode_public auth_client) [ none ↦ none | some pk ↦ some (pk ∷ []) ]
    else some []

unfoldable pub prepare : Flags → Keypair → Result Fatal Ready
prepare flags kp = elim (static_of flags.auth_client) [
  | none ↦ err Fatal.bad_client
  | some static_allowed ↦ ok (record {
    kp = kp;
    static_allowed = static_allowed;
    url = dial_url flags.hub flags.network flags.name kp.public;
  })
]

-- `generated` is what a generator of keys would give.
unfoldable pub set_up :
    Flags → Result Error Keypair → Faults → Map Bytes → Map Bytes × Result Fatal Ready
set_up flags generated faults files =
    if str_eq flags.name []
    then (files, err Fatal.name_required)
    else let (files', identity) =
        resolve_identity generated flags.identity flags.private flags.public faults files in
      elim identity [
        | err e ↦ (files', err (Fatal.no_identity e))
        | ok kp ↦ (files', prepare flags kp)
      ]

module _ {W : Type 0} (host : Host W) (noise : Noise) (between : W → W) where
  -- A round of the loop: the file as it read it, and what `serve` came to.
  pub record Round : Type 0 where
    pub file : Result Error Scanned
    pub outcome : Result Error (Session noise.Cipher)

  -- As many rounds as there are readings of the file, or one.
  unfoldable pub rounds : Flags → Ready → List (Result Error Scanned) → W → List Round
  rounds flags ready [] w = []
  rounds flags ready (file ∷ files) w =
      let allowed = allowlist flags.auth_clients file ready.static_allowed in
      let (w', outcome) = serve host noise ready.url ready.kp allowed flags.shell w in
      let rest = rounds flags ready files (between w') in
      record { file = file; outcome = outcome } ∷ (if flags.once then [] else rest)
