-- ===== src/Hub/Flags.antt =====
-- cmd/netso-hub/main.go: the flags of `main`, and the port at which the server listens. Of the forms of
-- arguments that Go's package flag takes, "-name" with the value behind it is modelled, which is how
-- operator/controllers.go passes them.
use mathlib.Core.List.{reverse}
use netso.Common.{ℕ, ◌+◌, Option, none, some, List, [], ◌∷◌, ◌++◌, map, if◌then◌else◌, ◌==◌, ◌≡◌}
use netso.Common.Bytes.{Bytes, codes, str_eq}
use netso.Digits.{to_digits}

pub record Flags : Type 0 where
  pub addr : Bytes
  pub webdir : Bytes

unfoldable pub default_flags : Flags
default_flags = record { addr = codes ":8443"; webdir = [] }

-- `none` is the exit on a flag that there is not.
unfoldable pub set_flag : Bytes → Bytes → Flags → Option Flags
set_flag name value f =
    if str_eq name (codes "-addr")
    then some (record f { addr = value })
    else if str_eq name (codes "-webdir")
    then some (record f { webdir = value })
    else none

unfoldable pub parse_flags : List Bytes → Flags → Option Flags
parse_flags [] f = some f
parse_flags (name ∷ []) f = none
parse_flags (name ∷ value ∷ args) f = elim (set_flag name value f) [
  | none ↦ none
  | some f' ↦ parse_flags args f'
]

unfoldable pub decimal : ℕ → Bytes
decimal n = if n == 0 then codes "0" else reverse (map (λ d. 48 + d) (to_digits 10 n n))

-- A server that listens at an address without a host takes connections at the port behind the colon.
abbrev pub IsOpen : Bytes → ℕ → Type 0
IsOpen addr port = addr ≡ codes ":" ++ decimal port
