-- ===== src/Did.antt =====
-- internal/did/did.go: a device's DID is its X25519 key, and a registry says whether it is revoked.
-- A registry behind `Resolver` is any function from a DID to a resolution or an error of its own.
pub mod Identity
pub mod Anchor
mod Examples
use netso.Common.{
  ℕ, ◌==◌, Bool, true, false, not, Option, none, some, List, [], ◌∷◌, ◌++◌, length, if◌then◌else◌,
}
use netso.Common.Bytes.{Bytes, codes, str_eq, trim_prefix}
use netso.Common.Result.{Result, ok, err, ◌>>=◌}
use netso.Map.{Map, get, put, delete}
use netso.Base58.{base58_encode}

pub data Error : Type 0 where
  key_length : ℕ → Error
  not_found : Error

abbrev pub x25519_multicodec : Bytes
x25519_multicodec = 0xEC ∷ 0x01 ∷ []

abbrev pub x25519_key_len : ℕ
x25519_key_len = 32

abbrev pub did_prefix : Bytes
did_prefix = codes "did:key:"

unfoldable pub multibase_key : Bytes → Bytes
multibase_key pubkey = b'z' ∷ base58_encode (x25519_multicodec ++ pubkey)

unfoldable pub from_x25519 : Bytes → Result Error Bytes
from_x25519 pubkey =
    if not (length pubkey == x25519_key_len)
    then err (key_length (length pubkey))
    else ok (did_prefix ++ multibase_key pubkey)

-- `presentedPub` is the key that the peer holds.
unfoldable pub matches : Bytes → Bytes → Bool
matches did presented = elim (from_x25519 presented) [ ok want ↦ str_eq want did | err _ ↦ false ]

pub record VerificationMethod : Type 0 where
  pub id : Bytes
  pub kind : Bytes
  pub controller : Bytes
  pub public_key_multibase : Bytes

pub record Document : Type 0 where
  pub context : List Bytes
  pub id : Bytes
  pub verification_method : List VerificationMethod
  pub key_agreement : List Bytes

-- The document literal of `NewDocument`.
abbrev pub document_of : Bytes → Bytes → Document
document_of id pubkey =
    let vm_id = id ++ codes "#key-agreement-1" in
    record {
      context = codes "https://www.w3.org/ns/did/v1" ∷ [];
      id = id;
      verification_method =
          record {
            id = vm_id;
            kind = codes "X25519KeyAgreementKey2020";
            controller = id;
            public_key_multibase = multibase_key pubkey;
          }
          ∷ [];
      key_agreement = vm_id ∷ [];
    }

unfoldable pub new_document : Bytes → Result Error Document
new_document pubkey = do id ← from_x25519 pubkey; ok (document_of id pubkey)

pub record Resolution : Type 0 where
  pub document : Document
  pub revoked : Bool

-- Every method of the anchor holds its mutex throughout.
pub record MemoryAnchor : Type 0 where
  pub docs : Map Document
  pub revoked : Map Bool

unfoldable pub new_memory_anchor : MemoryAnchor
new_memory_anchor = record { docs = []; revoked = [] }

unfoldable pub register : Document → MemoryAnchor → MemoryAnchor
register doc a = record { docs = put doc.id doc a.docs; revoked = delete doc.id a.revoked }

unfoldable pub revoke : Bytes → MemoryAnchor → MemoryAnchor
revoke did a = record a { revoked = put did true a.revoked }

-- A missing key of `revoked` reads as false.
abbrev pub flag_of : Option Bool → Bool
flag_of none = false
flag_of (some b) = b

unfoldable pub resolve : MemoryAnchor → Bytes → Result Error Resolution
resolve a did = elim (get did a.docs) [
  | none ↦ err not_found
  | some doc ↦ ok (record { document = doc; revoked = flag_of (get did a.revoked) })
]

unfoldable pub authorized :
    {E : Type 0} → (Bytes → Result E Resolution) → Bytes → Bytes → Result E Bool
authorized resolver did presented =
    if not (matches did presented) then ok false else (do res ← resolver did; ok (not res.revoked))

unfoldable pub method_id : Bytes → Bytes
method_id did = trim_prefix did did_prefix
