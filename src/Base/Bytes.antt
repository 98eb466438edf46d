-- ===== src/Base/Bytes.antt =====
-- Texts as lists of bytes, with the functions of Go's `strings` package that the program calls.
-- Case mapping and white space are those of ASCII.
use Prim.Native.Char.{code}
use Prim.Native.String.{String}
use Prim.Native.Nat.{ℕ, zero, suc, ◌+◌, ◌-◌}
use mathlib.Core.Path.{◌≡◌, refl}
use mathlib.Core.Logic.{◌↔◌}
use mathlib.Core.Bool.{Bool, true, false, ◌&&◌, ◌||◌}
use mathlib.Core.List.{List, [], ◌∷◌, ◌++◌, map, reverse}
use native.Mathlib.Omega.{arith}
use money_miner.Base.Tests.{leb, ltb, ◌==◌, if◌then◌else◌}
use money_miner.Base.Lists.{drop, length}

abbrev pub Text : Type 0
Text = List ℕ

-- The bytes of an ASCII literal.
abbrev pub codes : String → Text
codes String.[] = []
codes (String.◌∷◌ c s) = code c ∷ codes s

abbrev pub text_eq : Text → Text → Bool
text_eq [] [] = true
text_eq [] (_ ∷ _) = false
text_eq (_ ∷ _) [] = false
text_eq (a ∷ s) (b ∷ t) = a == b && text_eq s t

pub text_eq_iff : (s t : Text) → (text_eq s t ≡ true) ↔ (s ≡ t)
text_eq_iff [] [] = ground arith
text_eq_iff [] (b ∷ t) = ground arith
text_eq_iff (a ∷ s) [] = ground arith
text_eq_iff (a ∷ s) (b ∷ t) = ground (arith, text_eq_iff s t)

pub text_eq_refl : (s : Text) → text_eq s s ≡ true
text_eq_refl s = (text_eq_iff s s).1 refl

-- the order of `ORDER BY` on texts
abbrev pub text_leb : Text → Text → Bool
text_leb [] t = true
text_leb (_ ∷ _) [] = false
text_leb (a ∷ s) (b ∷ t) = ltb a b || (a == b && text_leb s t)

abbrev pub is_empty : Text → Bool
is_empty [] = true
is_empty (_ ∷ _) = false

-- `strings.ToUpper` and `strings.ToLower` on one byte
abbrev pub upper : ℕ → ℕ
upper c = if leb b'a' c && leb c b'z' then c - 32 else c

abbrev pub lower : ℕ → ℕ
lower c = if leb b'A' c && leb c b'Z' then c + 32 else c

unfoldable pub to_upper : Text → Text
to_upper s = map upper s

unfoldable pub to_lower : Text → Text
to_lower s = map lower s

-- `unicode.IsSpace` on ASCII
abbrev is_space : ℕ → Bool
is_space c = c == 32 || (leb 9 c && leb c 13)

unfoldable trim_left : Text → Text
trim_left [] = []
trim_left (c ∷ s) = let rest = trim_left s in if is_space c then rest else c ∷ s

-- `strings.TrimSpace`
unfoldable pub trim_space : Text → Text
unfolding trim_left
trim_space s = reverse (trim_left (reverse (trim_left s)))

-- `strings.HasPrefix`
abbrev pub has_prefix : Text → Text → Bool
has_prefix s [] = true
has_prefix [] (_ ∷ _) = false
has_prefix (a ∷ s) (b ∷ p) = a == b && has_prefix s p

-- `strings.TrimPrefix`
unfoldable pub trim_prefix : Text → Text → Text
trim_prefix s p = if has_prefix s p then drop (length p) s else s

-- `strings.TrimSuffix` with one byte
unfoldable pub trim_last : ℕ → Text → Text
trim_last b [] = []
trim_last b (c ∷ []) = if c == b then [] else c ∷ []
trim_last b (c ∷ d ∷ s) = c ∷ trim_last b (d ∷ s)

-- `strings.Contains`
unfoldable pub contains : Text → Text → Bool
contains [] p = is_empty p
contains (c ∷ s) p = has_prefix (c ∷ s) p || contains s p

-- `strings.ReplaceAll` for a pattern that is not empty; the first argument counts the bytes of a
-- match that are still to be passed over.
unfoldable pub replace_from : ℕ → Text → Text → Text → Text
replace_from skip [] old new = []
replace_from (suc k) (c ∷ s) old new = replace_from k s old new
replace_from zero (c ∷ s) old new =
    let hit = new ++ replace_from (length old - 1) s old new in
    let miss = c ∷ replace_from zero s old new in if has_prefix (c ∷ s) old then hit else miss

unfoldable pub replace_all : Text → Text → Text → Text
unfolding replace_from
replace_all s old new = replace_from 0 s old new

replace_all_test :
    replace_all (codes "a/{address}/b{address}") (codes "{address}") (codes "XY") ≡ codes "a/XY/bXY"
unfolding replace_all
replace_all_test = refl

trim_space_test : trim_space (codes "  a b ") ≡ codes "a b"
unfolding trim_space
trim_space_test = refl
