-- ===== src/Agent.antt =====
-- cmd/netso-agent/main.go: the URL that the agent dials, and the list of clients that
-- it passes to the handshake. The file at the
-- path is an argument, as in the module Secure.
pub mod Serve
pub mod Main
use netso.Common.{
  append-[], not, Option, List, [], ◌∷◌, ◌++◌, ◌≡◌, ◌≢◌, ◌↔◌, ◌⊎◌, refl, sym, ap, ◌∙◌, inl, inr,
  if◌then◌else◌, arith, true,
}
use netso.Common.Bytes.{Bytes, codes, str_eq, str_eq_ne}
use netso.Common.Result.{Result, ok, err, Result-cases}
use netso.Base64.{encode_public}
use netso.Url.{query_escape}
use netso.HubClient.{ws_base}
use netso.Secure.{Error, Scanned, load_authorized_keys, authorized}
use netso.Secure.Admission.{IsListed, authorized_iff_listed}

-- The `allowlist` closure: a file that cannot be read is logged and adds nothing.
unfoldable pub allowlist : Bytes → Result Error Scanned → List Bytes → List Bytes
allowlist auth_clients file static_allowed =
    if not (str_eq auth_clients [])
    then elim (load_authorized_keys file) [
      | err e ↦ static_allowed
      | ok file_keys ↦ static_allowed ++ file_keys
    ]
    else static_allowed

-- The URL that the agent dials.
unfoldable pub dial_url : Bytes → Bytes → Bytes → Bytes → Bytes
dial_url hub network name public =
    ws_base hub
    ++ (codes "/agent?network="
        ++ (query_escape network
            ++ (codes "&name="
                ++ (query_escape name
                    ++ (codes "&pubkey=" ++ query_escape (encode_public public))))))

-- The keys that a file gives, none when it cannot be read.
abbrev pub keys_of : Result Error (List Bytes) → List Bytes
keys_of (err e) = []
keys_of (ok keys) = keys

pub IsListed-append :
    (peer : Bytes) (l m : List Bytes) → IsListed peer (l ++ m) ↔ (IsListed peer l ⊎ IsListed peer m)
IsListed-append peer [] m = ((λ h. inr h), (λ h. elim h [ inl e ↦ absurd e | inr e ↦ e ]))
IsListed-append peer (a ∷ l) m =
    let rest = IsListed-append peer l m in
    (
      (λ h. elim h [
        | inl e ↦ inl (inl e)
        | inr e ↦ elim (rest.0 e) [ inl x ↦ inl (inr x) | inr x ↦ inr x ]
      ]),
      (λ h. elim h [
        | inl e ↦ elim e [ inl x ↦ inl x | inr x ↦ inr (rest.1 (inl x)) ]
        | inr e ↦ inr (rest.1 (inr e))
      ]),
    )

append-empty {ℓ} : {A : Type ℓ} (l m : List A) → l ++ m ≡ [] ↔ ((l ≡ []) × (m ≡ []))
append-empty [] m = ((λ h. (refl, h)), (λ h. h.1))
append-empty (a ∷ l) m = ((λ h. absurd (ground arith)), (λ h. absurd (ground arith)))

allowlist_lem :
    (path : Bytes) (file : Result Error Scanned) (static : List Bytes)
    → path ≢ []
    → allowlist path file static ≡ static ++ keys_of (load_authorized_keys file)
unfolding allowlist
allowlist_lem path file static given =
    let named = str_eq_ne path [] given in
    elim (Result-cases (load_authorized_keys file)) [
      | inl (e, unread) ↦ rw (named, unread) (sym (append-[] static))
      | inr (keys, read) ↦ rw (named, read) refl
    ]

-- An agent that is told a file of clients admits exactly the static client and the clients of the
-- file, and everyone when neither lists a client: when no static client is set, a file that cannot
-- be read and a file without keys admit everyone.
pub allowlist_iff :
    (path : Bytes) (file : Result Error Scanned) (static : List Bytes) (peer : Bytes)
    → path ≢ []
    → let keys = keys_of (load_authorized_keys file) in
      (authorized peer (allowlist path file static) ≡ true)
      ↔ (((static ≡ []) × (keys ≡ [])) ⊎ (IsListed peer static ⊎ IsListed peer keys))
allowlist_iff path file static peer given =
    let keys = keys_of (load_authorized_keys file) in
    let same = allowlist_lem path file static given in
    let (to, from) = authorized_iff_listed peer (static ++ keys) in
    (
      (λ h. elim (to (ap (authorized peer) (sym same) ∙ h)) [
        | inl e ↦ inl ((append-empty static keys).0 e)
        | inr e ↦ inr ((IsListed-append peer static keys).0 e)
      ]),
      (λ h.
          ap (authorized peer) same
          ∙ from (elim h [
            | inl e ↦ inl ((append-empty static keys).1 e)
            | inr e ↦ inr ((IsListed-append peer static keys).1 e)
          ])),
    )
