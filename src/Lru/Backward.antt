-- ===== src/Lru/Backward.antt =====
-- The elements of the list from the back to the front, as `el = el.Prev()` visits them.
use xktmcp.Prelude.{
  inr, inl, Option-cases, ℕ, ◌≡◌, ◌∙◌, refl, none, some, List, [], ◌∷◌, ◌++◌, arith, Eq, ◌==◌,
  if◌then◌else◌,
}
use xktmcp.Lru.Assoc.{lookup, IsMap}
use xktmcp.Lru.Nodes.{Node, address_of, Distinct}

abbrev pub backward : {K V : Type 0} → List (Node K V) → List (K × ℕ)
backward [] = []
backward ((a, k, v) ∷ l) = backward l ++ ((k, a) ∷ [])

module _ {K B : Type 0} ⦃e : Eq K⦄ where
  lookup-snoc :
      (k j : K) (b : B) (m : List (K × B))
      → lookup j m ≡ none
      → lookup j (m ++ ((k, b) ∷ [])) ≡ (if k == j then some b else none)
  lookup-snoc k j b [] h = refl
  lookup-snoc k j b ((i, c) ∷ m) h = ground (arith, lookup-snoc k j b m)

  lookup-snoc_some :
      (k j : K) (b c : B) (m : List (K × B))
      → lookup j m ≡ some c
      → lookup j (m ++ ((k, b) ∷ [])) ≡ some c
  lookup-snoc_some k j b c [] h = cc
  lookup-snoc_some k j b c ((i, d) ∷ m) h = ground (arith, lookup-snoc_some k j b c m)

  snoc-IsMap :
      (k : K) (b : B) (m : List (K × B)) → IsMap m → lookup k m ≡ none → IsMap (m ++ ((k, b) ∷ []))
  snoc-IsMap k b [] h n = (refl, tt)
  snoc-IsMap k b ((i, c) ∷ m) h n = (
    ground (arith, lookup-snoc k i b m h.0, e.same_iff i k, e.same_iff k i),
    snoc-IsMap k b m h.1 (ground (arith, n)),
  )

module _ {K V : Type 0} ⦃e : Eq K⦄ where
  pub lookup-backward :
      (k : K) (l : List (Node K V)) → Distinct l → lookup k (backward l) ≡ address_of k l
  lookup-backward k [] d = refl
  lookup-backward k ((a, j, v) ∷ l) d = elim (Option-cases (address_of k l)) [
    | inl p ↦ ground (arith, p, lookup-snoc j k a (backward l) (lookup-backward k l d.2 ∙ p))
    | inr (b, p) ↦ ground (
      arith,
      p,
      d.1,
      e.same_iff j k,
      lookup-snoc_some j k a b (backward l) (lookup-backward k l d.2 ∙ p),
    )
  ]

  pub backward-IsMap : (l : List (Node K V)) → Distinct l → IsMap (backward l)
  backward-IsMap [] d = tt
  backward-IsMap ((a, j, v) ∷ l) d =
      snoc-IsMap j a (backward l) (backward-IsMap l d.2) (lookup-backward j l d.2 ∙ d.1)
