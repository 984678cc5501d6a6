-- ===== src/Did/Examples.antt =====
-- Keys of 32 bytes and an anchor with one device for the theorems on them.
use netso.Common.{ℕ, zero, suc, ◌≡◌, ◌≢◌, refl, true, List, [], ◌∷◌, ◌++◌, All, arith}
use netso.Common.Bytes.{Bytes, IsByte, codes}
use netso.Common.Result.{ok}
use netso.Base58.{base58_encode}
use netso.Base58.RoundTrip.{base58_decode, decode-encode}
use netso.Did
use netso.Did.{
  Error, Document, Resolution, MemoryAnchor, document_of, from_x25519, matches, new_document,
  method_id, authorized, resolve, new_memory_anchor, multibase_key, did_prefix,
}
use netso.Did.Identity.{matches_iff, matches_unique}
use netso.Did.Anchor.{
  Call, IsValid, Leaves, run, spec_run, new_memory_anchor-IsValid, register-IsValid, run-spec,
  revoked_stays_out,
}

abbrev text : Bytes
text = 0 ∷ 0 ∷ 255 ∷ 1 ∷ []

decode-encode_example : base58_decode (base58_encode text) ≡ text
decode-encode_example =
    decode-encode text (omega arith, (omega arith, (omega arith, (omega arith, tt))))

-- 32 bytes
abbrev repeat : ℕ → ℕ → Bytes
repeat zero b = []
repeat (suc n) b = b ∷ repeat n b

abbrev key : Bytes
key = repeat 32 7

repeat-IsByte : (n b : ℕ) → IsByte b → All IsByte (repeat n b)
repeat-IsByte zero b h = tt
repeat-IsByte (suc n) b h = (h, repeat-IsByte n b h)

abbrev did : Bytes
did = did_prefix ++ multibase_key key

made : from_x25519 key ≡ ok did
unfolding from_x25519
made = refl

key-matches : matches did key ≡ true
key-matches = (matches_iff did key).1 made

matches_unique_example : key ≡ key
matches_unique_example =
    matches_unique did key key (repeat-IsByte 32 7 (omega arith)) (repeat-IsByte 32 7 (omega arith))
      key-matches key-matches

abbrev anchor : MemoryAnchor
anchor = Did.register (document_of did key) new_memory_anchor

anchor-IsValid : IsValid anchor
anchor-IsValid = register-IsValid (document_of did key) new_memory_anchor new_memory_anchor-IsValid

abbrev other : Bytes
other = codes "did:web:device"

abbrev calls : List Call
calls = Call.register (document_of other []) ∷ Call.revoke other ∷ []

other-Leaves : All (Leaves did) calls
other-Leaves = ((λ e. ground arith), (tt, tt))

run-spec_example : resolve (run calls anchor) ≡ spec_run calls (resolve anchor)
run-spec_example = run-spec calls anchor anchor-IsValid

revoked_stays_out_example :
    authorized (resolve (run calls (Did.revoke did anchor))) did key ≢ ok true
revoked_stays_out_example = revoked_stays_out did key anchor calls anchor-IsValid other-Leaves
