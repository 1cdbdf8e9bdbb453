-- ===== src/Base/Address.antt =====
-- net.JoinHostPort and net.SplitHostPort of the standard library.
use Prim.Native.Nat.{ℕ, ◌+◌}
use mathlib.Core.Path.{◌≡◌, refl, ◌∙◌}
use mathlib.Core.Logic.{◌≢◌, ◌⊎◌, inl, inr}
use mathlib.Core.Bool.{Bool, true, false, ◌&&◌, ◌||◌, not}
use mathlib.Core.Option.{Option, none, some}
use mathlib.Core.List.{[], ◌∷◌, ◌++◌}
use native.Mathlib.Omega.{arith}
use stabsight.Base.Tests.{◌==◌, if◌then◌else◌, Bool-cases}
use stabsight.Base.Strings.{Text}

abbrev pub contains : ℕ → Text → Bool
contains c [] = false
contains c (d ∷ s) = d == c || contains c s

-- How often a byte stands in a text.
abbrev pub count : ℕ → Text → ℕ
count c [] = 0
count c (d ∷ s) = (if d == c then 1 else 0) + count c s

-- The text before and behind the first, and the last, such byte.
unfoldable pub split_first : ℕ → Text → Option (Text × Text)
split_first c [] = none
split_first c (d ∷ s) =
    if d == c
    then some ([], s)
    else elim (split_first c s) [ none ↦ none | some (a, b) ↦ some (d ∷ a, b) ]

unfoldable pub split_last : ℕ → Text → Option (Text × Text)
split_last c [] = none
split_last c (d ∷ s) = elim (split_last c s) [
  | some (a, b) ↦ some (d ∷ a, b)
  | none ↦ if d == c then some ([], s) else none
]

unfoldable pub join_host_port : Text → Text → Text
join_host_port host port =
    if contains b':' host then b'[' ∷ (host ++ b']' ∷ b':' ∷ port) else host ++ b':' ∷ port

-- What follows the closing bracket: a colon, and a port without colon or bracket.
abbrev bracket_port : Text → Text → Option (Text × Text)
bracket_port host [] = none
bracket_port host (d ∷ port) =
    if d == b':' && not (contains b':' port || (contains b'[' (host ++ port) || contains b']' port))
    then some (host, port)
    else none

abbrev plain_port : Text → Text → Option (Text × Text)
plain_port host port =
    if contains b':' host || (contains b'[' (host ++ port) || contains b']' (host ++ port))
    then none
    else some (host, port)

-- SplitHostPort; `none` is an error.
unfoldable pub split_host_port : Text → Option (Text × Text)
unfolding split_first split_last
split_host_port [] = none
split_host_port (d ∷ s) =
    if d == b'['
    then elim (split_first b']' s) [ none ↦ none | some (host, rest) ↦ bracket_port host rest ]
    else elim (split_last b':' (d ∷ s)) [ none ↦ none | some (host, port) ↦ plain_port host port ]

contains-append : (c : ℕ) (s t : Text) → contains c (s ++ t) ≡ (contains c s || contains c t)
contains-append c [] t = refl
contains-append c (d ∷ s) t = ground (arith, contains-append c s t)

split_first-append :
    (c : ℕ) (s t : Text) → contains c s ≡ false → split_first c (s ++ c ∷ t) ≡ some (s, t)
unfolding split_first
split_first-append c [] t n = ground arith
split_first-append c (d ∷ s) t n = ground (arith, split_first-append c s t)

split_last-none : (c : ℕ) (s : Text) → contains c s ≡ false → split_last c s ≡ none
unfolding split_last
split_last-none c [] n = refl
split_last-none c (d ∷ s) n = ground (arith, split_last-none c s)

split_last-append :
    (c : ℕ) (s t : Text) → contains c t ≡ false → split_last c (s ++ c ∷ t) ≡ some (s, t)
unfolding split_last
split_last-append c [] t n = ground (arith, split_last-none c t)
split_last-append c (d ∷ s) t n = ground (arith, split_last-append c s t)

-- Brackets stand in neither text, and no colon in the port.
pub record IsPlain (host port : Text) : Type 0 where
  pub no_open : contains b'[' host ≡ false
  pub no_close : contains b']' host ≡ false
  pub port_no_open : contains b'[' port ≡ false
  pub port_no_close : contains b']' port ≡ false
  pub port_no_colon : contains b':' port ≡ false

-- A text that does not start with a bracket is split at its last colon.
split_host_port-plain :
    (s host port : Text)
    → contains b'[' s ≡ false
    → split_last b':' s ≡ some (host, port)
    → split_host_port s ≡ plain_port host port
unfolding split_host_port
split_host_port-plain [] host port n e = absurd (nothing (e))
  where
    nothing : split_last b':' [] ≡ some (host, port) → ⊥
    nothing h = cc
split_host_port-plain (d ∷ s) host port n e =
    let t : (d == b'[') ≡ false = ground arith in rw t (rw e)

join_host_port-bracketed :
    (host port : Text)
    → contains b':' host ≡ true
    → join_host_port host port ≡ b'[' ∷ (host ++ b']' ∷ b':' ∷ port)
unfolding join_host_port
join_host_port-bracketed host port h = rw h

join_host_port-plain :
    (host port : Text) → contains b':' host ≡ false → join_host_port host port ≡ host ++ b':' ∷ port
unfolding join_host_port
join_host_port-plain host port h = rw h

split_host_port-bracketed :
    (host port : Text)
    → IsPlain host port
    → split_host_port (b'[' ∷ (host ++ b']' ∷ b':' ∷ port)) ≡ some (host, port)
unfolding split_host_port
split_host_port-bracketed host port p =
    rw (split_first-append b']' host (b':' ∷ port) p.no_close)
      (ground (arith, contains-append b'[' host port))

-- SplitHostPort takes apart what JoinHostPort has put together.
pub split_host_port-join_host_port :
    (host port : Text)
    → IsPlain host port
    → split_host_port (join_host_port host port) ≡ some (host, port)
split_host_port-join_host_port host port p = elim (Bool-cases (contains b':' host)) [
  | inl h ↦ rw (join_host_port-bracketed host port h) (split_host_port-bracketed host port p)
  | inr h ↦ rw (join_host_port-plain host port h) (
      split_host_port-plain (host ++ b':' ∷ port) host port
        (ground (arith, contains-append b'[' host (b':' ∷ port)))
        (split_last-append b':' host port p.port_no_colon)
      ∙ ground (arith, contains-append b'[' host port, contains-append b']' host port))
]

split_last-cases :
    (c : ℕ) (s : Text)
    → ((split_last c s ≡ none) × (count c s ≡ 0))
      ⊎ ((host : Text) × (port : Text) × (split_last c s ≡ some (host, port))
          × (count c s ≡ count c host + 1))
unfolding split_last
split_last-cases c [] = inl (refl, refl)
split_last-cases c (d ∷ s) = elim (split_last-cases c s) [
  | inr (host, port, e, n) ↦ inr (d ∷ host, port, rw e, omega (arith, n))
  | inl (e, n) ↦ elim (Bool-cases (d == c)) [
    | inl q ↦ inr ([], s, rw (e, q), rw q (omega (arith, n)))
    | inr q ↦ inl (rw (e, q), rw q (omega (arith, n)))
  ]
]

contains-count : (c : ℕ) (s : Text) → contains c s ≡ false → count c s ≡ 0
contains-count c [] h = refl
contains-count c (d ∷ s) h = ground (arith, contains-count c s)

split_host_port-no_last :
    (s : Text) → contains b'[' s ≡ false → split_last b':' s ≡ none → split_host_port s ≡ none
unfolding split_host_port
split_host_port-no_last [] n e = refl
split_host_port-no_last (d ∷ s) n e = let t : (d == b'[') ≡ false = ground arith in rw t (rw e)

-- A text without brackets has a port to split off only if it has exactly one colon.
pub split_host_port-none :
    (s : Text) → contains b'[' s ≡ false → count b':' s ≢ 1 → split_host_port s ≡ none
split_host_port-none s n c = elim (split_last-cases b':' s) [
  | inl (e, z) ↦ split_host_port-no_last s n e
  | inr (host, port, e, z) ↦ elim (Bool-cases (contains b':' host)) [
    | inl h ↦ rw (split_host_port-plain s host port n e) (rw h)
    | inr h ↦ absurd (c (omega (arith, z, contains-count b':' host h)))
  ]
]
