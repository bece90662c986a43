-- ===== src/Prelude/Text.antt =====
-- Go strings and byte slices: both are the list of their bytes, so that `string(b)` and `[]byte(s)`
-- are the identity. The texts that the source spells out are ASCII.
use Prim.Native.Nat.{ℕ, zero, suc, ◌+◌, ◌/◌, ◌%◌}
use Prim.Native.Char.{code}
use Prim.Native.String.{String}
use mathlib.Core.Path.{◌≡◌, refl}
use mathlib.Core.Bool.{Bool, true, false, ◌&&◌, ◌||◌}
use mathlib.Core.List.{List, [], ◌∷◌, ◌++◌, reverse}
use mathlib.Core.Option.{Option, none, some}
use native.Mathlib.Decide.{ℕ_discrete}
use native.Mathlib.Omega.{arith}
use llm_d_inference_payload.Prelude.Tests.{leb, ◌==◌, if◌then◌else◌}

abbrev pub Bytes : Type 0
Bytes = List ℕ

-- a string that may be missing, which Go reads as the empty one
abbrev pub text_or_empty : Option Bytes → Bytes
text_or_empty none = []
text_or_empty (some s) = s

abbrev pub codes : String → Bytes
codes String.[] = []
codes (String.◌∷◌ c s) = code c ∷ codes s

unfoldable pub bytes_dec : Discrete Bytes
unfolding ℕ_discrete
bytes_dec = hlevel ℕ_discrete

-- `strings.ToLower` on a byte of an ASCII text
abbrev pub lower_byte : ℕ → ℕ
lower_byte c = if leb b'A' c && leb c b'Z' then c + 32 else c

-- `strings.ToLower`, for ASCII texts, which HTTP header names are
unfoldable pub to_lower : Bytes → Bytes
to_lower [] = []
to_lower (c ∷ s) = lower_byte c ∷ to_lower s

pub to_lower-to_lower : (s : Bytes) → to_lower (to_lower s) ≡ to_lower s
unfolding to_lower
to_lower-to_lower [] = refl
to_lower-to_lower (c ∷ s) = ground (arith, to_lower-to_lower s)

-- the white space of an ASCII text, as `unicode.IsSpace` has it
abbrev pub is_space : ℕ → Bool
is_space c = leb 9 c && leb c 13 || c == 32

unfoldable pub trim_left : Bytes → Bytes
trim_left [] = []
trim_left (c ∷ s) = let rest = trim_left s in if is_space c then rest else c ∷ s

-- `strings.TrimSpace` and `bytes.TrimSpace`, for ASCII texts
unfoldable pub trim_space : Bytes → Bytes
unfolding trim_left
trim_space s = reverse (trim_left (reverse (trim_left s)))

-- `strings.TrimPrefix` and `strings.HasPrefix`: the rest behind the prefix, if the text has it
unfoldable pub strip_prefix : Bytes → Bytes → Option Bytes
strip_prefix [] s = some s
strip_prefix (p ∷ ps) [] = none
strip_prefix (p ∷ ps) (c ∷ s) = let rest = strip_prefix ps s in if p == c then rest else none

pub strip_prefix-append : (p s : Bytes) → strip_prefix p (p ++ s) ≡ some s
unfolding strip_prefix
strip_prefix-append [] s = refl
strip_prefix-append (c ∷ p) s = ground (arith, strip_prefix-append p s)

-- `strconv.Itoa` of a number: its decimal digits. The number itself is fuel enough.
unfoldable pub digits : ℕ → ℕ → Bytes → Bytes
digits zero n acc = acc
digits (suc fuel) n acc = elim (leb 10 n) [
  | true ↦ digits fuel (n / 10) ((48 + n % 10) ∷ acc)
  | false ↦ (48 + n) ∷ acc
]

unfoldable pub itoa : ℕ → Bytes
unfolding digits
itoa n = digits (suc n) n []
