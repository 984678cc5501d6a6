-- ===== src/Secure/Identity.antt =====
-- internal/secure/secure.go: a device's key, from a file, from the command line or fresh. A file's
-- content is ASCII text. What the generator of keys gives, and what the operating system answers beside
-- the files, are arguments.
pub mod Persistence
mod Examples
use netso.Common.{Bool, true, false, not, Option, none, some, List, [], ◌∷◌, ◌++◌, if◌then◌else◌}
use netso.Common.Bytes.{Bytes, codes, str_eq}
use netso.Common.Result.{Result, ok, err}
use netso.Base64.{encode_public, decode_public}
use netso.Map.{Map, get, put}
use netso.Common.Trim.{is_space}
use netso.Secure.{Error, Keypair}

abbrev pub begins_space : Bytes → Bool
begins_space [] = true
begins_space (c ∷ s) = is_space c

abbrev pub cons_head : Bytes → List Bytes → List Bytes
cons_head w [] = w ∷ []
cons_head w (f ∷ fs) = (w ++ f) ∷ fs

-- `strings.Fields`
unfoldable pub fields : Bytes → List Bytes
fields [] = []
fields (c ∷ s) =
    let rest = fields s in
    if is_space c then rest else if begins_space s then (c ∷ []) ∷ rest else cons_head (c ∷ []) rest

-- The errors of the three system calls, when they fail. A read fails as "not exist" when the file is
-- not there.
pub record Faults : Type 0 where
  pub read : Option Error
  pub mkdir : Option Error
  pub write : Option Error

module _ (generated : Result Error Keypair) where
  unfoldable pub load_keypair : Bytes → Bytes → Result Error Keypair
  load_keypair priv_b64 pub_b64 =
      if str_eq priv_b64 [] then generated else elim (decode_public priv_b64) [
        | none ↦ err Error.bad_private_key
        | some priv ↦ elim (decode_public pub_b64) [
          | none ↦ err Error.bad_public_key
          | some public ↦ ok (record { private = priv; public = public })
        ]
      ]

  -- The key of the file's first two fields.
  unfoldable pub parse_identity : Bytes → List Bytes → Result Error Keypair
  parse_identity path (f ∷ g ∷ rest) = elim (decode_public f) [
    | none ↦ err (Error.invalid_base64 path)
    | some priv ↦ elim (decode_public g) [
      | none ↦ err (Error.invalid_base64 path)
      | some public ↦ ok (record { private = priv; public = public })
    ]
  ]
  parse_identity path _ = err (Error.malformed path)

  abbrev pub contents_of : Keypair → Bytes
  contents_of kp =
      encode_public kp.private ++ (codes "\n" ++ (encode_public kp.public ++ codes "\n"))

  -- The fresh key, written to the file that was not there.
  unfoldable pub create_identity : Bytes → Faults → Map Bytes → Map Bytes × Result Error Keypair
  create_identity path faults files = elim generated [
    | err e ↦ (files, err e)
    | ok kp ↦ elim faults.mkdir [
      | some e ↦ (files, err e)
      | none ↦ elim faults.write [
        | some e ↦ (files, err e)
        | none ↦ (put path (contents_of kp) files, ok kp)
      ]
    ]
  ]

  unfoldable pub load_or_create_identity :
      Bytes → Faults → Map Bytes → Map Bytes × Result Error Keypair
  load_or_create_identity path faults files = elim faults.read [
    | some e ↦ (files, err e)
    | none ↦ elim (get path files) [
      | some content ↦ (files, parse_identity path (fields content))
      | none ↦ create_identity path faults files
    ]
  ]

  unfoldable pub resolve_identity :
      Bytes → Bytes → Bytes → Faults → Map Bytes → Map Bytes × Result Error Keypair
  resolve_identity identity_path priv_b64 pub_b64 faults files =
      if not (str_eq identity_path [])
      then load_or_create_identity identity_path faults files
      else (files, load_keypair priv_b64 pub_b64)
