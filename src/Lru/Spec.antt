-- ===== src/Lru/Spec.antt =====
-- Lists of entries in order of use, the most recent first: what a bounded map promises.
use xktmcp.Prelude.{
  ◌==◌, ℕ, zero, suc, ◌≤◌, ◌≡◌, refl, Bool, none, some, List, [], ◌∷◌, arith, Eq, ==-refl,
  if◌then◌else◌, length, take, keep,
}
use xktmcp.Lru.Assoc.{without-IsMap, lookup, without, IsMap, lookup-without, length-without}

module _ {K V : Type 0} ⦃e : Eq K⦄ where
  -- The entry at the front, and no other with its key.
  abbrev pub touch : K → V → List (K × V) → List (K × V)
  touch k v es = (k, v) ∷ without k es

  pub length-touch_present :
      (k : K) (v w : V) (es : List (K × V))
      → lookup k es ≡ some w
      → length (touch k v es) ≡ length es
  length-touch_present k v w es h = omega (arith, length-without k w es h)

  pub length-without-le : (k : K) (es : List (K × V)) → length (without k es) ≤ length es
  length-without-le k [] = omega arith
  length-without-le k ((j, v) ∷ es) = ground (arith, length-without-le k es)

  pub lookup-take-some :
      (n : ℕ) (j : K) (v : V) (es : List (K × V))
      → lookup j (take n es) ≡ some v
      → lookup j es ≡ some v
  lookup-take-some zero j v es h = cc
  lookup-take-some (suc n) j v [] h = cc
  lookup-take-some (suc n) j v ((i, w) ∷ es) h = ground (arith, lookup-take-some n j v es)

  pub lookup-keep-none :
      (p : K × V → Bool) (j : K) (es : List (K × V))
      → lookup j es ≡ none
      → lookup j (keep p es) ≡ none
  lookup-keep-none p j [] h = refl
  lookup-keep-none p j ((i, w) ∷ es) h = ground (arith, lookup-keep-none p j es)

  -- A filter keeps a key's entry exactly if it passes.
  pub lookup-keep :
      (p : K × V → Bool) (j : K) (v : V) (es : List (K × V))
      → IsMap es
      → lookup j es ≡ some v
      → lookup j (keep p es) ≡ (if p (j, v) then some v else none)
  lookup-keep p j v [] m h = cc
  lookup-keep p j v ((i, w) ∷ es) m h =
      ground (arith, lookup-keep p j v es, lookup-keep-none p j es, e.same_iff i j)

  pub keep-IsMap : (p : K × V → Bool) (es : List (K × V)) → IsMap es → IsMap (keep p es)
  keep-IsMap p [] m = tt
  keep-IsMap p ((i, w) ∷ es) m = ground (arith, keep-IsMap p es m.1, lookup-keep-none p i es m.0)

  -- What a touched, filtered and cut list still holds was put there or was there before.
  pub lookup-touch :
      (k j : K) (v : V) (es : List (K × V))
      → IsMap es
      → lookup j (touch k v es) ≡ (if k == j then some v else lookup j es)
  lookup-touch k j v es m = ground (arith, lookup-without k j es m, e.same_iff k j)

  pub lookup-keep-some :
      (p : K × V → Bool) (j : K) (v : V) (es : List (K × V))
      → IsMap es
      → lookup j (keep p es) ≡ some v
      → lookup j es ≡ some v
  lookup-keep-some p j v [] m h = cc
  lookup-keep-some p j v ((i, w) ∷ es) m h =
      ground (arith, lookup-keep-some p j v es, lookup-keep-none p j es, e.same_iff i j)

  pub touch-IsMap : (k : K) (v : V) (es : List (K × V)) → IsMap es → IsMap (touch k v es)
  touch-IsMap k v es m = (ground (arith, lookup-without k k es m, ==-refl k), without-IsMap k es m)
