-- ===== src/Base/Text.antt =====
-- Texts: equality, prefixes, and the order of Go's `<` on strings, which compares code by code.
use Prim.Native.Nat.{ℕ}
use Prim.Native.Char.{code}
use Prim.Native.String.{String, [], ◌∷◌}
use mathlib.Core.Path.{◌≡◌, refl, ap₂}
use mathlib.Core.Logic.{◌≢◌}
use mathlib.Core.Bool.{Bool, true, false, ◌&&◌, ◌||◌}
use native.Mathlib.Omega.{arith}
use text.Mathlib.Text.{◌==◌ as str_eq}
use text.Mathlib.TextEquality.{Char-path, eq_iff}
use arko.Base.Tests.{ltb, leb, eqb, if◌then◌else◌}

infix 50 ◌==◌
abbrev pub ◌==◌ : String → String → Bool
s == t = str_eq s t

-- a < b
unfoldable pub str_lt : String → String → Bool
str_lt [] [] = false
str_lt [] (d ∷ t) = true
str_lt (c ∷ s) [] = false
str_lt (c ∷ s) (d ∷ t) =
    if ltb (code c) (code d) then true else if ltb (code d) (code c) then false else str_lt s t

pub str_lt_irrefl : (s : String) → str_lt s s ≡ false
unfolding str_lt
str_lt_irrefl [] = refl
str_lt_irrefl (c ∷ s) = ground (arith, str_lt_irrefl s)

pub str_lt_trans : (s t u : String) → str_lt s t ≡ true → str_lt t u ≡ true → str_lt s u ≡ true
unfolding str_lt
str_lt_trans [] [] u p q = q
str_lt_trans [] (d ∷ t) [] p q = q
str_lt_trans [] (d ∷ t) (e ∷ u) p q = refl
str_lt_trans (c ∷ s) [] u p q = ground arith
str_lt_trans (c ∷ s) (d ∷ t) [] p q = q
str_lt_trans (c ∷ s) (d ∷ t) (e ∷ u) p q = ground (arith, str_lt_trans s t u)

pub str_lt_asym : (s t : String) → str_lt s t ≡ true → str_lt t s ≡ false
unfolding str_lt
str_lt_asym [] [] p = refl
str_lt_asym [] (d ∷ t) p = refl
str_lt_asym (c ∷ s) [] p = ground arith
str_lt_asym (c ∷ s) (d ∷ t) p = ground (arith, str_lt_asym s t)

pub str_lt_connex : (s t : String) → str_lt s t ≡ false → str_lt t s ≡ false → s ≡ t
unfolding str_lt
str_lt_connex [] [] p q = refl
str_lt_connex [] (d ∷ t) p q = ground arith
str_lt_connex (c ∷ s) [] p q = ground arith
str_lt_connex (c ∷ s) (d ∷ t) p q =
    ap₂ ◌∷◌ (Char-path c d (ground arith)) (str_lt_connex s t (ground arith) (ground arith))

-- strings.HasPrefix s p
unfoldable pub has_prefix : String → String → Bool
has_prefix s [] = true
has_prefix [] (d ∷ p) = false
has_prefix (c ∷ s) (d ∷ p) = if eqb (code c) (code d) then has_prefix s p else false

-- unicode.IsSpace
unfoldable pub is_space : ℕ → Bool
is_space n =
    (leb 9 n && leb n 13)
    || eqb n 32
    || eqb n 0x85
    || eqb n 0xa0
    || eqb n 0x1680
    || (leb 0x2000 n && leb n 0x200a)
    || eqb n 0x2028
    || eqb n 0x2029
    || eqb n 0x202f
    || eqb n 0x205f
    || eqb n 0x3000

-- strings.TrimSpace s == ""
unfoldable pub is_blank : String → Bool
unfolding is_space
is_blank [] = true
is_blank (c ∷ s) = is_space (code c) && is_blank s

-- Two texts that the test tells apart.
pub ne_of-test : (s t : String) → (s == t) ≡ false → s ≢ t
ne_of-test s t h e = ground (arith, eq_iff s t)
