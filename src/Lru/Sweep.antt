-- ===== src/Lru/Sweep.antt =====
-- The loop that removes what is stale, in whatever order the range visits the elements.
use xktmcp.Prelude.{
  ℕ, ◌≡◌, ◌≢◌, ◌∙◌, sym, ap, refl, inl, inr, none, some, List, [], ◌∷◌, arith, Eq, ==-refl,
  if◌then◌else◌, true, false, Bool-cases, Bool, not, keep, ◌&&◌,
}
use mathlib.Core.Path.{subst}
use xktmcp.Lru.Assoc.{lookup, without, IsMap, has}
use xktmcp.Lru.Nodes.{deref, entries-IsMap, address_of-none, address_of, address_of-unlink}
use xktmcp.Lru.Backward.{backward, lookup-backward, backward-IsMap}
use xktmcp.Lru.Table.{Table, entries, remove, Linked}
use xktmcp.Lru.Laws.{Found, find-cases, entries-remove, remove-Linked}

module _ {K V : Type 0} ⦃e : Eq K⦄ where
  module _ (stale : K → V → Bool) where
    -- One round of `for _, el := range items { if stale(el.Value) { remove(el) } }`.
    abbrev drop_stale : ℕ → Table K V → Table K V
    drop_stale a t = elim (deref a t.lru) [
      | none ↦ t
      | some n ↦ if stale n.0 n.1 then remove n.0 a t else t
    ]

    -- The loop over the elements that the range visits.
    unfoldable pub sweep : List (K × ℕ) → Table K V → Table K V
    sweep [] t = t
    sweep ((k, a) ∷ s) t = sweep s (drop_stale a t)

    abbrev pub live : K × V → Bool
    live n = not (stale n.0 n.1)

    abbrev spared : {B : Type 0} → List (K × B) → K × V → Bool
    spared s n = not (stale n.0 n.1 && has n.0 s)

    -- The snapshot's pointers are the table's.
    abbrev IsSnapshot : List (K × ℕ) → Table K V → Type 0
    IsSnapshot [] t = Unit
    IsSnapshot ((k, a) ∷ s) t = (address_of k t.lru ≡ some a) × IsSnapshot s t

    keep-spared_absent :
        (k : K) (a : ℕ) (s : List (K × ℕ)) (es : List (K × V))
        → lookup k es ≡ none
        → keep (spared ((k, a) ∷ s)) es ≡ keep (spared s) es
    keep-spared_absent k a s [] h = refl
    keep-spared_absent k a s ((j, u) ∷ es) h =
        ground (arith, keep-spared_absent k a s es, e.same_iff j k, e.same_iff k j)

    keep-spared_stale :
        (k : K) (a : ℕ) (v : V) (s : List (K × ℕ)) (es : List (K × V))
        → IsMap es
        → lookup k es ≡ some v
        → stale k v ≡ true
        → keep (spared ((k, a) ∷ s)) es ≡ keep (spared s) (without k es)
    keep-spared_stale k a v s [] m h d = cc
    keep-spared_stale k a v s ((j, u) ∷ es) m h d = ground (
      arith,
      keep-spared_stale k a v s es,
      keep-spared_absent k a s es,
      e.same_iff j k,
      e.same_iff k j,
    )

    keep-spared_live :
        (k : K) (a : ℕ) (v : V) (s : List (K × ℕ)) (es : List (K × V))
        → IsMap es
        → lookup k es ≡ some v
        → stale k v ≡ false
        → keep (spared ((k, a) ∷ s)) es ≡ keep (spared s) es
    keep-spared_live k a v s [] m h d = refl
    keep-spared_live k a v s ((j, u) ∷ es) m h d = ground (
      arith,
      keep-spared_live k a v s es,
      keep-spared_absent k a s es,
      e.same_iff j k,
      e.same_iff k j,
    )

    keep-spared_nil : (es : List (K × V)) → keep (spared {B = ℕ} []) es ≡ es
    keep-spared_nil [] = refl
    keep-spared_nil ((j, u) ∷ es) = ground (arith, keep-spared_nil es)

    remove-IsSnapshot :
        (k : K) (a : ℕ) (v : V) (s : List (K × ℕ)) (t : Table K V)
        → Linked t
        → Found k t a v
        → lookup k s ≡ none
        → IsSnapshot s t
        → IsSnapshot s (remove k a t)
    unfolding remove
    remove-IsSnapshot k a v [] t h f n i = tt
    remove-IsSnapshot k a v ((j, b) ∷ s) t h f n i = ground (
      arith,
      remove-IsSnapshot k a v s t h f,
      address_of-unlink k j a t.lru h.distinct f.at,
      e.same_iff j k,
      e.same_iff k j,
    )

    entries-sweep_snapshot :
        (s : List (K × ℕ)) (t : Table K V)
        → Linked t
        → IsMap s
        → IsSnapshot s t
        → Linked (sweep s t) × (entries (sweep s t) ≡ keep (spared s) (entries t))
    unfolding sweep
    entries-sweep_snapshot [] t h m i = (h, sym (keep-spared_nil (entries t)))
    entries-sweep_snapshot ((k, a) ∷ s) t h m i = elim (find-cases k t h) [
      | inl gone ↦ absurd (ground (arith, gone.no_address))
      | inr (b, v, g) ↦
          let same : b ≡ a = ground (arith, g.at) in
          let f : Found k t a v = subst (λ (x : ℕ). Found k t x v) same g in
          let Swept : Table K V → Type 0 = λ u.
            Linked (sweep s u) × (entries (sweep s u) ≡ keep (spared ((k, a) ∷ s)) (entries t)) in
          elim (Bool-cases (stale k v)) [
            | inl old ↦
                let step : drop_stale a t ≡ remove k a t = ground (arith, f.pointer) in
                let (linked, rest) =
                  entries-sweep_snapshot s (remove k a t) (remove-Linked k a v t h f) m.1
                    (remove-IsSnapshot k a v s t h f m.0 i.1) in
                subst Swept (sym step) (
                  linked,
                  rest
                      ∙ ap (keep (spared s)) (entries-remove k a v t h f)
                      ∙ sym (
                          keep-spared_stale k a v s (entries t) (entries-IsMap t.lru h.distinct)
                            f.entry old),
                )
            | inr fresh ↦
                let step : drop_stale a t ≡ t = ground (arith, f.pointer) in
                let (linked, rest) = entries-sweep_snapshot s t h m.1 i.1 in
                subst Swept (sym step) (
                  linked,
                  rest
                      ∙ sym (
                          keep-spared_live k a v s (entries t) (entries-IsMap t.lru h.distinct)
                            f.entry fresh),
                )
          ]
    ]

    -- A snapshot that holds every key of the entries spares no stale one.
    keep-spared_all :
        (s : List (K × ℕ)) (es : List (K × V))
        → ((j : K) → lookup j es ≢ none → lookup j s ≢ none)
        → keep (spared s) es ≡ keep live es
    keep-spared_all s [] h = refl
    keep-spared_all s ((j, u) ∷ es) h =
        ground (arith, h j, ==-refl j, keep-spared_all s es (λ i p. h i (ground arith)))

    all_IsSnapshot :
        (s : List (K × ℕ)) (t : Table K V)
        → IsMap s
        → ((k : K) (a : ℕ) → lookup k s ≡ some a → address_of k t.lru ≡ some a)
        → IsSnapshot s t
    all_IsSnapshot [] t m h = tt
    all_IsSnapshot ((k, a) ∷ s) t m h = (
      h k a (ground (arith, ==-refl k)),
      all_IsSnapshot s t m.1 (λ j b p. h j b (ground (arith, e.same_iff k j, m.0))),
    )

    -- Ranging over the map's items removes exactly the stale entries and keeps the order.
    pub entries-sweep :
        (t : Table K V)
        → Linked t
        → Linked (sweep t.items t) × (entries (sweep t.items t) ≡ keep live (entries t))
    entries-sweep t h =
        let (linked, rest) =
          entries-sweep_snapshot t.items t h h.is_map
            (all_IsSnapshot t.items t h.is_map (λ k a p. sym (h.agree k) ∙ p)) in
        (
          linked,
          rest
              ∙ keep-spared_all t.items (entries t)
                  (λ j p q. p (address_of-none j t.lru (sym (h.agree j) ∙ q))),
        )

    -- So does a walk over the list from its back, which reads the previous element before it removes
    -- one.
    pub entries-sweep-backward :
        (t : Table K V)
        → Linked t
        → Linked (sweep (backward t.lru) t)
          × (entries (sweep (backward t.lru) t) ≡ keep live (entries t))
    entries-sweep-backward t h =
        let at : (k : K) → lookup k (backward t.lru) ≡ address_of k t.lru =
          λ k. lookup-backward k t.lru h.distinct in
        let m = backward-IsMap t.lru h.distinct in
        let (linked, rest) =
          entries-sweep_snapshot (backward t.lru) t h m
            (all_IsSnapshot (backward t.lru) t m (λ k a p. sym (at k) ∙ p)) in
        (
          linked,
          rest
              ∙ keep-spared_all (backward t.lru) (entries t)
                  (λ j p q. p (address_of-none j t.lru (sym (at j) ∙ q))),
        )
