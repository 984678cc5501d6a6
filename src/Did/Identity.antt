-- ===== src/Did/Identity.antt =====
-- internal/did/did.go: what a DID commits to.
use netso.Common.{
  ◌≡◌, ◌↔◌, refl, ap, sym, ◌∙◌, true, false, [], ◌∷◌, ◌++◌, map, length, All, arith, inl, inr,
  Bool-cases,
}
use netso.Common.Bytes.{Bytes, IsByte, str_eq_iff, str_eq_sound, trim_prefix-append}
use netso.Common.Result.{Result, ok, Result-cases}
use netso.Base58.{base58_encode}
use netso.Base58.RoundTrip.{base58_decode, decode-encode}
use netso.Did.{
  x25519_multicodec, did_prefix, multibase_key, from_x25519, matches, Document, document_of,
  new_document, Resolution, authorized, method_id,
}

-- Keys of bytes with the same text are the same.
multibase_key-injective :
    (p q : Bytes) → All IsByte p → All IsByte q → multibase_key p ≡ multibase_key q → p ≡ q
unfolding multibase_key
multibase_key-injective p q hp hq e =
    let text : base58_encode (x25519_multicodec ++ p) ≡ base58_encode (x25519_multicodec ++ q) =
      cc in
    let tagged : x25519_multicodec ++ p ≡ x25519_multicodec ++ q =
      sym (decode-encode (x25519_multicodec ++ p) (omega arith, (omega arith, hp)))
      ∙ ap base58_decode text
      ∙ decode-encode (x25519_multicodec ++ q) (omega arith, (omega arith, hq)) in
    cc

pub matches_iff :
    (did presented : Bytes) → (matches did presented ≡ true) ↔ (from_x25519 presented ≡ ok did)
unfolding matches
matches_iff did presented = elim (Result-cases (from_x25519 presented)) [
  | inl (e, failed) ↦ rw (failed, matches) (ground arith)
  | inr (want, made) ↦ (
    λ h. made ∙ ap ok (str_eq_sound want did (rw (made, matches) at h)),
    λ h. ground (arith, str_eq_iff want did),
  )
]

from_x25519_ok :
    (pubkey : Bytes) {did : Bytes}
    → from_x25519 pubkey ≡ ok did
    → (length pubkey ≡ 32) × (did ≡ did_prefix ++ multibase_key pubkey)
unfolding from_x25519
from_x25519_ok pubkey h = ground arith

from_x25519_made :
    (pubkey : Bytes)
    → length pubkey ≡ 32
    → from_x25519 pubkey ≡ ok (did_prefix ++ multibase_key pubkey)
unfolding from_x25519
from_x25519_made pubkey h = ground arith

-- A DID commits to one key: two presented strings of bytes that both match it are the same.
pub matches_unique :
    (did p q : Bytes)
    → All IsByte p
    → All IsByte q
    → matches did p ≡ true
    → matches did q ≡ true
    → p ≡ q
matches_unique did p q hp hq mp mq =
    let ep = (from_x25519_ok p ((matches_iff did p).0 mp)).1 in
    let eq = (from_x25519_ok q ((matches_iff did q).0 mq)).1 in
    multibase_key-injective p q hp hq (cc)

pub method_id-from_x25519 :
    (pubkey : Bytes) {did : Bytes}
    → from_x25519 pubkey ≡ ok did
    → method_id did ≡ multibase_key pubkey
unfolding method_id
method_id-from_x25519 pubkey h =
    rw (from_x25519_ok pubkey h).1 (trim_prefix-append did_prefix (multibase_key pubkey))

-- The document that `NewDocument` builds for a key of 32 bytes is certified by itself: its key
-- matches its DID, the key stands in it as the DID's method id, and the one verification method is
-- controlled by the DID and is the one key agreement.
pub new_document-certified :
    (pubkey : Bytes)
    → length pubkey ≡ 32
    → (doc : Document) × (new_document pubkey ≡ ok doc)
      × (matches doc.id pubkey ≡ true)
      × (map (λ vm. vm.public_key_multibase) doc.verification_method ≡ method_id doc.id ∷ [])
      × (map (λ vm. vm.controller) doc.verification_method ≡ doc.id ∷ [])
      × (map (λ vm. vm.id) doc.verification_method ≡ doc.key_agreement)
unfolding new_document
new_document-certified pubkey h =
    let made : from_x25519 pubkey ≡ ok (did_prefix ++ multibase_key pubkey) =
      from_x25519_made pubkey h in
    (
      document_of (did_prefix ++ multibase_key pubkey) pubkey,
      rw made refl,
      (matches_iff (did_prefix ++ multibase_key pubkey) pubkey).1 made,
      ap (λ t. t ∷ []) (sym (method_id-from_x25519 pubkey made)),
      refl,
      refl,
    )

-- A peer is authorized exactly when the key that it holds makes the DID, and the registry resolves
-- the DID and does not show it revoked.
pub authorized_iff :
    {E : Type 0} (resolver : Bytes → Result E Resolution) (did presented : Bytes)
    → (authorized resolver did presented ≡ ok true) ↔ (
        (from_x25519 presented ≡ ok did)
        × (res : Resolution) × (resolver did ≡ ok res)
        × (res.revoked ≡ false))
unfolding authorized
authorized_iff resolver did presented = elim (Bool-cases (matches did presented)) [
  | inr no_match ↦
      (λ h. absurd (ground arith), λ h. absurd (ground (arith, (matches_iff did presented).1 h.0)))
  | inl match ↦
      let made = (matches_iff did presented).0 match in
      elim (Result-cases (resolver did)) [
        | inl (e, failed) ↦ (λ h. absurd (ground arith), λ h. absurd (ground arith))
        | inr (res, found) ↦ (λ h. (made, res, found, ground arith), λ h. ground arith)
      ]
]
