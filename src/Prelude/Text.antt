-- ===== src/Prelude/Text.antt =====
-- Go strings as lists of code points, with what the program uses of the strings package.
use Prim.Native.Char.{code}
use Prim.Native.String.{String}
use Prim.Native.Nat.{ℕ, ◌≤◌}
use mathlib.Core.Path.{◌≡◌, refl}
use mathlib.Core.Bool.{Bool, true, false, ◌&&◌, ◌||◌}
use mathlib.Core.List.{List, [], ◌∷◌, ◌++◌}
use native.Mathlib.Omega.{arith}
use xktmcp.Prelude.Tests.{leb, if◌then◌else◌}
use xktmcp.Prelude.Lists.{length}
use xktmcp.Prelude.Tests.{Bool-cases}
use mathlib.Core.Path.{ap, sym, ◌∙◌}
use mathlib.Core.Logic.{inl, inr}
use xktmcp.Prelude.Keys.{◌==◌, nat_eq}

abbrev pub Text : Type 0
Text = List ℕ

-- The code points of a literal. `String` has its own `[]` and `∷`.
abbrev pub codes : String → Text
codes String.[] = []
codes (String.◌∷◌ c s) = code c ∷ codes s

-- strings.HasPrefix(s, prefix)
unfoldable pub has_prefix : Text → Text → Bool
has_prefix s [] = true
has_prefix [] (p ∷ prefix) = false
has_prefix (c ∷ s) (p ∷ prefix) = c == p && has_prefix s prefix

-- unicode.IsSpace
unfoldable pub is_space : ℕ → Bool
is_space c =
    leb 9 c && leb c 13
    || c == 32
    || c == 0x85
    || c == 0xa0
    || c == 0x1680
    || leb 0x2000 c && leb c 0x200a
    || c == 0x2028
    || c == 0x2029
    || c == 0x202f
    || c == 0x205f
    || c == 0x3000

unfoldable pub trim_left : Text → Text
unfolding is_space
trim_left [] = []
trim_left (c ∷ s) = let rest = trim_left s in if is_space c then rest else c ∷ s

unfoldable pub trim_right : Text → Text
unfolding is_space
trim_right [] = []
trim_right (c ∷ s) = elim (trim_right s) [
  | [] ↦ if is_space c then [] else c ∷ []
  | d ∷ r ↦ c ∷ d ∷ r
]

-- strings.TrimSpace
unfoldable pub trim_space : Text → Text
unfolding trim_left trim_right
trim_space s = trim_right (trim_left s)

pub has_prefix-append : (p s : Text) → has_prefix (p ++ s) p ≡ true
unfolding has_prefix
has_prefix-append [] s = refl
has_prefix-append (c ∷ p) s = ground (arith, has_prefix-append p s)

trim_left_idem : (s : Text) → trim_left (trim_left s) ≡ trim_left s
unfolding trim_left
trim_left_idem [] = refl
trim_left_idem (c ∷ s) = ground (arith, trim_left_idem s)

trim_right_idem : (s : Text) → trim_right (trim_right s) ≡ trim_right s
unfolding trim_right
trim_right_idem [] = refl
trim_right_idem (c ∷ s) = ground (arith, trim_right_idem s)

length-trim_left-le : (s : Text) → length (trim_left s) ≤ length s
unfolding trim_left
length-trim_left-le [] = omega arith
length-trim_left-le (c ∷ s) = elim (Bool-cases (is_space c)) [
  | inl p ↦ rw p (omega (arith, length-trim_left-le s))
  | inr p ↦ rw p (omega arith)
]

not_space : (c : ℕ) (s : Text) → trim_left (c ∷ s) ≡ c ∷ s → is_space c ≡ false
unfolding trim_left
not_space c s h = elim (Bool-cases (is_space c)) [
  | inl p ↦ absurd (omega (arith, ap length (rw p at h), length-trim_left-le s))
  | inr p ↦ p
]

trim_left_front : (c : ℕ) (r : Text) → is_space c ≡ false → trim_left (c ∷ r) ≡ c ∷ r
unfolding trim_left
trim_left_front c r p = rw p

trim_right_front :
    (c : ℕ) (s : Text) → is_space c ≡ false → (r : Text) × (trim_right (c ∷ s) ≡ c ∷ r)
unfolding trim_right
trim_right_front c s p = go (trim_right s) refl
  where
    go : (t : Text) → trim_right s ≡ t → (r : Text) × (trim_right (c ∷ s) ≡ c ∷ r)
    go [] e = ([], rw (e, trim_right) (rw p))
    go (d ∷ r) e = (d ∷ r, rw (e, trim_right))

-- What `trim_left` leaves does not begin with a space, also after `trim_right`.
trim_left-trim_right : (s : Text) → trim_left s ≡ s → trim_left (trim_right s) ≡ trim_right s
unfolding trim_left trim_right
trim_left-trim_right [] h = refl
trim_left-trim_right (c ∷ s) h =
    let p = not_space c s h in
    let (r, e) = trim_right_front c s p in ap trim_left e ∙ trim_left_front c r p ∙ sym e

pub trim_space_idem : (s : Text) → trim_space (trim_space s) ≡ trim_space s
unfolding trim_space
trim_space_idem s =
    ap trim_right (trim_left-trim_right (trim_left s) (trim_left_idem s))
    ∙ trim_right_idem (trim_left s)
