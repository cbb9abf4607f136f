-- ===== src/Base/Text.antt =====
-- Formatted text, and text as its code points.
use Prim.Native.Char.{code}
use Prim.Native.String.{String}
use Prim.Native.Nat.{ℕ, ◌+◌, ◌-◌, ◌*◌, ◌<◌}
use mathlib.Core.Bool.{Bool, true, false, ◌&&◌, ◌||◌}
use mathlib.Core.List.{List, [], ◌∷◌}
use mathlib.Core.Option.{Option, none, some}
use mathlib.Core.Path.{◌≡◌}
use mathlib.Core.Logic.{inl, inr}
use native.Mathlib.Omega.{arith}
use nexus_core_devops_engine.Base.Tests.{Option-cases, ltb, leb, ◌==◌, if◌then◌else◌}

-- A piece of a formatted string: text, a number in decimal, or a text that is repeated.
pub data Piece : Type 0 where
  lit : String → Piece
  num : ℕ → Piece
  repeated : String → ℕ → Piece

abbrev pub Text : Type 0
Text = List Piece

abbrev pub codes : String → List ℕ
codes String.[] = []
codes (String.◌∷◌ c s) = code c ∷ codes s

-- `s.starts_with(prefix)` and `s.contains(part)`.
unfoldable pub starts_with : List ℕ → List ℕ → Bool
starts_with s [] = true
starts_with [] (p ∷ ps) = false
starts_with (c ∷ s) (p ∷ ps) = c == p && starts_with s ps

unfoldable pub contains_text : List ℕ → List ℕ → Bool
unfolding starts_with
contains_text [] part = starts_with [] part
contains_text (c ∷ s) part = starts_with (c ∷ s) part || contains_text s part

-- The digits of a number, from the value of those before; a number of `bound` or more is an error.
unfoldable pub parse_digits : ℕ → ℕ → List ℕ → Option ℕ
parse_digits bound value [] = some value
parse_digits bound value (c ∷ cs) =
    let next = value * 10 + (c - b'0') in
    let rest = parse_digits bound next cs in
    if leb b'0' c && (leb c b'9' && ltb next bound) then rest else none

-- `parse` of an unsigned integer: digits, with a plus sign before them or not.
unfoldable pub parse_uint : ℕ → List ℕ → Option ℕ
unfolding parse_digits
parse_uint bound [] = none
parse_uint bound (c ∷ []) = parse_digits bound 0 (c ∷ [])
parse_uint bound (c ∷ d ∷ cs) =
    if c == b'+' then parse_digits bound 0 (d ∷ cs) else parse_digits bound 0 (c ∷ d ∷ cs)

parse_digits-lt :
    (bound value : ℕ) (s : List ℕ) (n : ℕ)
    → value < bound
    → parse_digits bound value s ≡ some n
    → n < bound
unfolding parse_digits
parse_digits-lt bound value [] n small e = let same : value ≡ n = cc in omega (arith, same)
parse_digits-lt bound value (c ∷ cs) n small e =
    let next = value * 10 + (c - b'0') in ground (arith, parse_digits-lt bound next cs n)

-- A number that is parsed fits.
parse_uint-lt :
    (bound : ℕ) (s : List ℕ) (n : ℕ) → 0 < bound → parse_uint bound s ≡ some n → n < bound
unfolding parse_uint
parse_uint-lt bound [] n pos e = absurd cc
parse_uint-lt bound (c ∷ []) n pos e = parse_digits-lt bound 0 (c ∷ []) n pos e
parse_uint-lt bound (c ∷ d ∷ cs) n pos e =
    ground (arith, parse_digits-lt bound 0 (d ∷ cs) n, parse_digits-lt bound 0 (c ∷ d ∷ cs) n)

-- `var(…).ok().and_then(|s| s.parse().ok()).unwrap_or(default)`
unfoldable pub number_or : ℕ → ℕ → Option (List ℕ) → ℕ
number_or bound default none = default
number_or bound default (some s) = elim (parse_uint bound s) [ none ↦ default | some n ↦ n ]

unfoldable pub path_or : List ℕ → Option (List ℕ) → List ℕ
path_or default none = default
path_or default (some s) = s

-- A number of the environment fits, if the default does.
pub number_or-lt :
    (bound default : ℕ) (var : Option (List ℕ))
    → default < bound
    → number_or bound default var < bound
unfolding number_or
number_or-lt bound default none small = small
number_or-lt bound default (some s) small = elim (Option-cases (parse_uint bound s)) [
  | inl e ↦ rw (number_or, e) small
  | inr (n, e) ↦ rw (number_or, e) (parse_uint-lt bound s n (omega arith) e)
]
