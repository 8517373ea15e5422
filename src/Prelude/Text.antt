-- ===== src/Prelude/Text.antt =====
-- Texts as lists of bytes, and what the code takes from Go's `strings`, `strconv` and `fmt`. Texts
-- are ASCII: case and white space of other characters are not modelled.
mod Decimal
mod Fields
mod Paths
unfoldable pub use Decimal.*
unfoldable pub use Fields.*
unfoldable pub use Paths.*
use Prim.Native.Char.{code}
use Prim.Native.String.{String}
use Prim.Native.Nat.{ℕ, ◌+◌}
use mathlib.Core.Bool.{Bool, true, false, ◌&&◌, ◌||◌}
use mathlib.Core.List.{List, [], ◌∷◌, map, reverse}
use center_agent.Prelude.Booleans.{leb, if◌then◌else◌}
use center_agent.Prelude.Equality.{◌==◌, nat_eq, list_eq}

abbrev pub Text : Type 0
Text = List ℕ

-- The bytes of an ASCII literal.
abbrev pub codes : String → Text
codes String.[] = []
codes (String.◌∷◌ c s) = code c ∷ codes s

-- `strings.ToLower` and `strings.ToUpper`
abbrev pub lower_code : ℕ → ℕ
lower_code c = if leb b'A' c && leb c b'Z' then c + 32 else c

abbrev pub to_lower : Text → Text
to_lower = map lower_code

-- `strings.EqualFold`
abbrev pub equal_fold : Text → Text → Bool
equal_fold s t = to_lower s == to_lower t

abbrev pub is_space : ℕ → Bool
is_space c = leb 9 c && leb c 13 || c == 32

abbrev pub trim_left : Text → Text
trim_left [] = []
trim_left (c ∷ s) = let rest = trim_left s in if is_space c then rest else c ∷ s

-- `strings.TrimSpace`
unfoldable pub trim_space : Text → Text
trim_space s = reverse (trim_left (reverse (trim_left s)))

-- `strings.HasPrefix` and `strings.HasSuffix`, the affix second
abbrev pub has_prefix : Text → Text → Bool
has_prefix s [] = true
has_prefix [] (c ∷ p) = false
has_prefix (d ∷ s) (c ∷ p) = d == c && has_prefix s p

abbrev pub has_suffix : Text → Text → Bool
has_suffix [] [] = true
has_suffix [] (c ∷ p) = false
has_suffix (d ∷ s) p = (d ∷ s) == p || has_suffix s p

-- `strings.Contains`
abbrev pub has_infix : Text → Text → Bool
has_infix [] p = has_prefix [] p
has_infix (d ∷ s) p = has_prefix (d ∷ s) p || has_infix s p

-- `strings.TrimPrefix` of a text that has the prefix, and `strings.TrimSuffix`
abbrev pub trim_suffix : Text → Text → Text
trim_suffix [] p = []
trim_suffix (d ∷ s) p = let rest = trim_suffix s p in if (d ∷ s) == p then [] else d ∷ rest
