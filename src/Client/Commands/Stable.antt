-- ===== src/Client/Commands/Stable.antt =====
-- cmd/netso/main.go: `netso keygen` and then `netso did` on the same file.
use netso.Common.{
  All, Bool, true, none, some, [], ◌≡◌, ◌≢◌, refl, ap, ◌∙◌, length, arith, if◌then◌else◌,
}
use netso.Common.Bytes.{Bytes, IsByte, str_eq_ne}
use netso.Common.Result.{Result, ok}
use netso.Map.{Map, get}
use netso.Base64.{encode_public, decode_public}
use netso.Base64.RoundTrip.{decode_public-encode_public}
use netso.Secure
use netso.Secure.{Keypair}
use netso.Secure.Identity.{load_or_create_identity, resolve_identity}
use netso.Secure.Identity.Persistence.{no_faults, identity-persists}
use netso.Did.{Document, from_x25519, matches}
use netso.Did.Identity.{matches_iff, new_document-certified}
use netso.Client.Commands.{cmd_keygen, cmd_did, describe}

describe-made :
    (doc_only : Bool) (key : Bytes)
    → length key ≡ 32
    → (doc : Document) × (describe doc_only key ≡ ok (if doc_only then none else some doc.id, doc))
      × (matches doc.id key ≡ true)
unfolding describe
describe-made doc_only key long =
    let (doc, made, certified, _, _, _) = new_document-certified key long in
    let named : from_x25519 key ≡ ok doc.id = (matches_iff doc.id key).0 certified in
    (doc, rw (named, made, describe) refl, certified)

keygen-resolve :
    (generated : Result Secure.Error Keypair) (kp : Keypair) (path : Bytes) (files : Map Bytes)
    → path ≢ []
    → (resolve_identity generated path [] [] no_faults files).1 ≡ ok kp
    → cmd_keygen generated no_faults path files
      ≡ ((resolve_identity generated path [] [] no_faults files).0, ok (encode_public kp.public))
unfolding cmd_keygen resolve_identity
keygen-resolve generated kp path files given made =
    let named = str_eq_ne path [] given in
    let loaded : (load_or_create_identity generated path no_faults files).1 ≡ ok kp =
      ground arith in
    rw (named, loaded, cmd_keygen, resolve_identity) refl

did-describe :
    (generated : Result Secure.Error Keypair) (kp : Keypair) (path priv pub_key : Bytes)
    (doc_only : Bool) (files : Map Bytes)
    → resolve_identity generated path priv pub_key no_faults files ≡ (files, ok kp)
    → cmd_did generated no_faults path priv pub_key doc_only files
      ≡ (files, describe doc_only kp.public)
unfolding cmd_did
did-describe generated kp path priv pub_key doc_only files made =
    let loaded = ap (λ x. x.1) made in
    rw (loaded, cmd_did) (ap (λ x. (x.0, describe doc_only kp.public)) made)

-- `netso keygen` on an identity file that is not there prints a text that decodes to the public half of
-- a fresh key. From then on `netso did` on that file, whatever other keys it names and whatever the
-- generator would give, leaves the files as they are and prints a document whose DID matches that key,
-- behind that DID unless only the document is asked for. The system calls succeed, the halves of
-- the key are bytes, the private half is not empty, and the public half has 32 bytes.
pub keygen-did :
    (kp : Keypair) (path priv pub_key : Bytes) (files : Map Bytes)
    (generated : Result Secure.Error Keypair) (doc_only : Bool)
    → All IsByte kp.private
    → All IsByte kp.public
    → path ≢ []
    → get path files ≡ none
    → kp.private ≢ []
    → length kp.public ≡ 32
    → let first = cmd_keygen (ok kp) no_faults path files in
      (text : Bytes) × (doc : Document) × (first.1 ≡ ok text)
      × (decode_public text ≡ some kp.public)
      × (cmd_did generated no_faults path priv pub_key doc_only first.0
          ≡ (first.0, ok (if doc_only then none else some doc.id, doc)))
      × (matches doc.id kp.public ≡ true)
keygen-did kp path priv pub_key files generated doc_only bytes bytes' given absent private long =
    let some_public : kp.public ≢ [] = λ e. absurd (let l = rw e at long in ground arith) in
    let (made, again) =
      identity-persists kp path [] [] priv pub_key files generated bytes bytes' given absent private
        some_public in
    let files' = (resolve_identity (ok kp) path [] [] no_faults files).0 in
    let (doc, described, certified) = describe-made doc_only kp.public long in
    let printed : cmd_keygen (ok kp) no_faults path files ≡ (files', ok (encode_public kp.public)) =
      keygen-resolve (ok kp) kp path files given made in
    (
      encode_public kp.public,
      doc,
      ap (λ x. x.1) printed,
      decode_public-encode_public kp.public bytes',
      rw printed (
          did-describe generated kp path priv pub_key doc_only files' again
          ∙ ap (λ d. (files', d)) described),
      certified,
    )
