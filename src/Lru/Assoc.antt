-- ===== src/Lru/Assoc.antt =====
-- Association lists with keys compared by an `Eq` instance: Go's `map[K]V`.
use xktmcp.Prelude.{
  Bool, true, false, ◌+◌, ◌≡◌, refl, Option, none, some, List, [], ◌∷◌, arith, Eq, ◌==◌,
  if◌then◌else◌, length,
}

module _ {K V : Type 0} ⦃e : Eq K⦄ where
  abbrev pub lookup : K → List (K × V) → Option V
  lookup k [] = none
  lookup k ((j, v) ∷ m) = if j == k then some v else lookup k m

  -- _, ok := m[k]
  abbrev pub has : K → List (K × V) → Bool
  has k m = elim (lookup k m) [ none ↦ false | some _ ↦ true ]

  -- delete(m, k)
  abbrev pub without : K → List (K × V) → List (K × V)
  without k [] = []
  without k ((j, v) ∷ m) = if j == k then m else (j, v) ∷ without k m

  -- Each key stands once.
  abbrev pub IsMap : List (K × V) → Type 0
  IsMap [] = Unit
  IsMap ((k, v) ∷ m) = (lookup k m ≡ none) × IsMap m

  pub lookup-without_absent :
      (k j : K) (m : List (K × V)) → lookup j m ≡ none → lookup j (without k m) ≡ none
  lookup-without_absent k j [] h = refl
  lookup-without_absent k j ((i, v) ∷ m) h =
      ground (arith, lookup-without_absent k j m, e.same_iff i j, e.same_iff i k)

  pub lookup-without :
      (k j : K) (m : List (K × V))
      → IsMap m
      → lookup j (without k m) ≡ (if k == j then none else lookup j m)
  lookup-without k j [] h = ground arith
  lookup-without k j ((i, v) ∷ m) h =
      ground (arith, lookup-without k j m, e.same_iff i j, e.same_iff i k, e.same_iff k j)

  pub without-IsMap : (k : K) (m : List (K × V)) → IsMap m → IsMap (without k m)
  without-IsMap k [] h = tt
  without-IsMap k ((i, v) ∷ m) h =
      ground (arith, lookup-without_absent k i m h.0, without-IsMap k m h.1)

  pub length-without :
      (k : K) (v : V) (m : List (K × V)) → lookup k m ≡ some v → length (without k m) + 1 ≡ length m
  length-without k v [] h = cc
  length-without k v ((i, w) ∷ m) h = ground (arith, length-without k v m)

  pub without_absent : (k : K) (m : List (K × V)) → lookup k m ≡ none → without k m ≡ m
  without_absent k [] h = refl
  without_absent k ((i, v) ∷ m) h = ground (arith, without_absent k m)
