-- ===== src/Did/Anchor.antt =====
-- internal/did/did.go: the in-memory registry, over any sequence of registrations and revocations.
use mathlib.Core.Path.{fun_ext}
use netso.Common.{
  ◌≡◌, ◌≢◌, refl, ap, ◌∙◌, true, false, some, List, [], ◌∷◌, All, arith, if◌then◌else◌, inl, inr,
  Bool-cases,
}
use netso.Common.Bytes.{Bytes, str_eq, str_eq_iff, str_eq_ne, str_eq_refl}
use netso.Common.Result.{Result, ok, err}
use netso.Did.Identity.{authorized_iff}
use netso.Map.{get, IsMap, get-put, get-delete, put-IsMap, delete-IsMap}
use netso.Did
use netso.Did.{
  Error, not_found, Document, Resolution, MemoryAnchor, new_memory_anchor, flag_of, resolve,
  matches, authorized,
}

-- The maps are maps, and a document stands under its own DID.
pub record IsValid (a : MemoryAnchor) : Type 0 where
  pub docs : IsMap a.docs
  pub revoked : IsMap a.revoked
  pub named : (did : Bytes) (doc : Document) → get did a.docs ≡ some doc → doc.id ≡ did

pub new_memory_anchor-IsValid : IsValid new_memory_anchor
unfolding new_memory_anchor get
new_memory_anchor-IsValid = record { docs = tt; revoked = tt; named = λ did doc h. ground arith }

pub register-IsValid :
    (doc : Document) (a : MemoryAnchor) → IsValid a → IsValid (Did.register doc a)
unfolding Did.register
register-IsValid doc a v = record {
  docs = put-IsMap doc.id doc a.docs v.docs;
  revoked = delete-IsMap doc.id a.revoked v.revoked;
  named = λ did doc' h.
      ground (arith, get-put doc.id did doc a.docs, str_eq_iff doc.id did, v.named did doc');
}

pub revoke-IsValid : (did : Bytes) (a : MemoryAnchor) → IsValid a → IsValid (Did.revoke did a)
unfolding Did.revoke
revoke-IsValid did a v = record {
  docs = v.docs;
  revoked = put-IsMap did true a.revoked v.revoked;
  named = v.named;
}

-- Registering a document makes its DID resolve to it, not revoked, and leaves every other DID.
pub resolve-register :
    (doc : Document) (did : Bytes) (a : MemoryAnchor)
    → IsValid a
    → resolve (Did.register doc a) did ≡ (
        if str_eq doc.id did
        then ok (record { document = doc; revoked = false })
        else resolve a did)
unfolding resolve Did.register
resolve-register doc did a v =
    ground (arith, get-put doc.id did doc a.docs, get-delete doc.id did a.revoked v.revoked)

-- The resolution with the revocation set, where there is one.
abbrev pub as_revoked : Result Error Resolution → Result Error Resolution
as_revoked (ok res) = ok (record res { revoked = true })
as_revoked (err e) = err e

pub resolve-revoke :
    (did did' : Bytes) (a : MemoryAnchor)
    → resolve (Did.revoke did a) did'
      ≡ (if str_eq did did' then as_revoked (resolve a did') else resolve a did')
unfolding resolve Did.revoke
resolve-revoke did did' a = ground (arith, get-put did did' true a.revoked)

pub data Call : Type 0 where
  register : Document → Call
  revoke : Bytes → Call

unfoldable pub call : Call → MemoryAnchor → MemoryAnchor
call (Call.register doc) a = Did.register doc a
call (Call.revoke did) a = Did.revoke did a

unfoldable pub run : List Call → MemoryAnchor → MemoryAnchor
run [] a = a
run (c ∷ cs) a = run cs (call c a)

-- The specification: what each DID resolves to. A revocation of a DID that is not registered has no
-- effect, and a new registration ends a revocation.
abbrev pub Ledger : Type 0
Ledger = Bytes → Result Error Resolution

unfoldable pub spec_call : Call → Ledger → Ledger
spec_call (Call.register doc) d did =
    if str_eq doc.id did then ok (record { document = doc; revoked = false }) else d did
spec_call (Call.revoke did') d did = if str_eq did' did then as_revoked (d did) else d did

unfoldable pub spec_run : List Call → Ledger → Ledger
spec_run [] d = d
spec_run (c ∷ cs) d = spec_run cs (spec_call c d)

call-IsValid : (c : Call) (a : MemoryAnchor) → IsValid a → IsValid (call c a)
unfolding call
call-IsValid (Call.register doc) a v = register-IsValid doc a v
call-IsValid (Call.revoke did) a v = revoke-IsValid did a v

call-spec : (c : Call) (a : MemoryAnchor) → IsValid a → resolve (call c a) ≡ spec_call c (resolve a)
unfolding call spec_call
call-spec (Call.register doc) a v = fun_ext λ did. resolve-register doc did a v
call-spec (Call.revoke did) a v = fun_ext λ did'. resolve-revoke did did' a

-- After any registrations and revocations on a valid anchor every DID resolves as the specification
-- says.
pub run-spec :
    (cs : List Call) (a : MemoryAnchor) → IsValid a → resolve (run cs a) ≡ spec_run cs (resolve a)
unfolding run spec_run
run-spec [] a v = refl
run-spec (c ∷ cs) a v =
    run-spec cs (call c a) (call-IsValid c a v) ∙ ap (spec_run cs) (call-spec c a v)

pub run-IsValid : (cs : List Call) (a : MemoryAnchor) → IsValid a → IsValid (run cs a)
unfolding run
run-IsValid [] a v = v
run-IsValid (c ∷ cs) a v = run-IsValid cs (call c a) (call-IsValid c a v)

-- The call does not register this DID again.
abbrev pub Leaves : Bytes → Call → Type 0
Leaves did (Call.register doc) = doc.id ≢ did
Leaves did (Call.revoke did') = Unit

-- No resolution that is not revoked.
abbrev IsOut : Result Error Resolution → Type 0
IsOut (ok res) = res.revoked ≡ true
IsOut (err e) = Unit

as_revoked-IsOut : (r : Result Error Resolution) → IsOut (as_revoked r)
as_revoked-IsOut (ok res) = refl
as_revoked-IsOut (err e) = tt

spec_call-IsOut :
    (did : Bytes) (c : Call) (d : Ledger) → Leaves did c → IsOut (d did) → IsOut (spec_call c d did)
unfolding spec_call
spec_call-IsOut did (Call.register doc) d l out = rw (str_eq_ne doc.id did l) out
spec_call-IsOut did (Call.revoke did') d l out = elim (Bool-cases (str_eq did' did)) [
  | inl same ↦ rw same (as_revoked-IsOut (d did))
  | inr other ↦ rw other out
]

spec_run-IsOut :
    (did : Bytes) (cs : List Call) (d : Ledger)
    → All (Leaves did) cs
    → IsOut (d did)
    → IsOut (spec_run cs d did)
unfolding spec_run
spec_run-IsOut did [] d l out = out
spec_run-IsOut did (c ∷ cs) d l out =
    spec_run-IsOut did cs (spec_call c d) l.1 (spec_call-IsOut did c d l.0 out)

not_live :
    (r : Result Error Resolution) (res : Resolution) → IsOut r → r ≡ ok res → res.revoked ≢ false
not_live (ok res') res out e = ground arith
not_live (err x) res out e = ground arith

-- A revoked device stays out: on a valid anchor, whatever is registered and revoked afterwards, as
-- long as its own DID is not registered again, no key is authorized for the DID.
pub revoked_stays_out :
    (did presented : Bytes) (a : MemoryAnchor) (cs : List Call)
    → IsValid a
    → All (Leaves did) cs
    → authorized (resolve (run cs (Did.revoke did a))) did presented ≢ ok true
revoked_stays_out did presented a cs v l h =
    let (_, res, found, live) =
      (authorized_iff (resolve (run cs (Did.revoke did a))) did presented).0 h in
    let a' = Did.revoke did a in
    let out : IsOut (resolve a' did) =
      rw (resolve-revoke did did a, str_eq_refl did) (as_revoked-IsOut (resolve a did)) in
    let still : IsOut (resolve (run cs a') did) =
      rw (run-spec cs a' (revoke-IsValid did a v)) (spec_run-IsOut did cs (resolve a') l out) in
    not_live (resolve (run cs a') did) res still found live
