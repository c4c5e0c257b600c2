-- ===== src/Lru/Evict.antt =====
-- The loop that evicts the least recently used entries down to a bound.
use xktmcp.Prelude.{
  ℕ, zero, suc, ◌+◌, ◌-◌, ◌≤◌, ◌≡◌, ◌∙◌, sym, ap, refl, inl, inr, List, [], ◌∷◌, arith, Eq, length,
  take, ltb, Bool-cases, take_of_length-le, length-take,
}
use mathlib.Core.Path.{subst₂}
use xktmcp.Lru.Nodes.{IsOldest, back_IsOldest, length-entries}
use xktmcp.Lru.Table.{Table, entries, len, remove_oldest, evict, Linked}
use xktmcp.Lru.Laws.{Found, find-cases, entries-remove, remove-Linked}

module _ {K V : Type 0} ⦃e : Eq K⦄ where
  oldest_Found :
      (n : ℕ) (a : ℕ) (k : K) (v : V) (t : Table K V)
      → Linked t
      → IsOldest n t.lru a k v
      → Found k t a v
  oldest_Found n a k v t h o = elim (find-cases k t h) [
    | inl m ↦ absurd (ground (arith, m.no_address, o.at))
    | inr (b, u, f) ↦
        let p : b ≡ a = ground (arith, f.at, o.at) in
        let q : u ≡ v = ground (arith, f.entry, o.entry) in
        subst₂ (λ (x : ℕ) (y : V). Found k t x y) p q f
  ]

  -- Removing the back drops the last entry.
  pub entries-remove_oldest :
      (n : ℕ) (t : Table K V)
      → Linked t
      → len t ≡ suc n
      → Linked (remove_oldest t) × (entries (remove_oldest t) ≡ take n (entries t))
  unfolding remove_oldest
  entries-remove_oldest n t h p =
      let (a, k, v, o) = back_IsOldest n t.lru h.distinct p in
      let f : Found k t a v = oldest_Found n a k v t h o in
      rw (o.last, remove_oldest) (remove-Linked k a v t h f, entries-remove k a v t h f ∙ o.rest)

  len-remove_oldest : (n : ℕ) (t : Table K V) → Linked t → len t ≡ suc n → len (remove_oldest t) ≡ n
  len-remove_oldest n t h p =
      let (_, same) = entries-remove_oldest n t h p in
      omega (
        arith,
        length-entries (remove_oldest t).lru,
        length-entries t.lru,
        ap length same,
        length-take n (entries t),
      )

take-take {ℓ} : {A : Type ℓ} (m n : ℕ) (l : List A) → m ≤ n → take m (take n l) ≡ take m l
take-take zero n l h = refl
take-take (suc m) zero l h = absurd (omega arith)
take-take (suc m) (suc n) [] h = refl
take-take (suc m) (suc n) (x ∷ l) h = ap (◌∷◌ x) (take-take m n l (omega arith))

module _ {K V : Type 0} ⦃e : Eq K⦄ where
  -- With enough fuel the loop keeps exactly the `bound` most recently used entries.
  pub entries-evict :
      (fuel bound : ℕ) (t : Table K V)
      → Linked t
      → len t ≤ bound + fuel
      → Linked (evict fuel bound t) × (entries (evict fuel bound t) ≡ take bound (entries t))
  unfolding evict
  entries-evict zero bound t h p =
      (h, sym (take_of_length-le bound (entries t) (omega (arith, length-entries t.lru))))
  entries-evict (suc fuel) bound t h p = elim (Bool-cases (ltb bound (len t))) [
    | inr small ↦
        rw small
          (h, sym (take_of_length-le bound (entries t) (ground (arith, length-entries t.lru))))
    | inl big ↦
        let n = len t - 1 in
        let (linked, drop_last) = entries-remove_oldest n t h (ground arith) in
        let (done, kept) =
          entries-evict fuel bound (remove_oldest t) linked
            (ground (arith, len-remove_oldest n t h)) in
        rw big
          (done, kept ∙ ap (take bound) drop_last ∙ take-take bound n (entries t) (ground arith))
  ]
