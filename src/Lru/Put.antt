-- ===== src/Lru/Put.antt =====
-- Writing an entry: update it and move it to the front if the key is there, else push it to the
-- front and evict down to the bound, if there is one.
use xktmcp.Prelude.{
  ℕ, ◌≤◌, ◌≡◌, ◌∙◌, sym, ap, refl, inl, inr, Option, none, some, List, ◌∷◌, arith, Eq, length, take,
  take_of_length-le,
}
use mathlib.Core.Path.{subst}
use xktmcp.Lru.Assoc.{without_absent}
use xktmcp.Lru.Table.{Table, entries, len, find, assign, move_to_front, push_front, evict, Linked}
use xktmcp.Lru.Laws.{
  Found, Missing, find-cases, entries-move_assign, move_assign-Linked, push_front-Linked,
  entries-push_front,
}
use xktmcp.Lru.Evict.{entries-evict}
use xktmcp.Lru.Spec.{touch, length-touch_present}

-- The most recent entries, as many as the bound allows.
abbrev pub limit {ℓ} : {A : Type ℓ} → Option ℕ → List A → List A
limit none es = es
limit (some bound) es = take bound es

abbrev pub Within : Option ℕ → ℕ → Type 0
Within none n = Unit
Within (some bound) n = n ≤ bound

pub Within-mono : (bound : Option ℕ) (m n : ℕ) → m ≤ n → Within bound n → Within bound m
Within-mono none m n p w = tt
Within-mono (some b) m n p w = omega arith

module _ {K V : Type 0} ⦃e : Eq K⦄ where
  unfoldable pub put : Option ℕ → K → V → Table K V → Table K V
  put bound k v t = elim (find k t) [
    | some el ↦ move_to_front el.0 (assign el.0 v t)
    | none ↦
        let pushed : Table K V = push_front k v t in
        elim bound [ none ↦ pushed | some b ↦ evict (len pushed) b pushed ]
  ]

  limit_of_length :
      (bound : Option ℕ) (es : List (K × V)) → Within bound (length es) → limit bound es ≡ es
  limit_of_length none es h = refl
  limit_of_length (some b) es h = take_of_length-le b es h

  put_present :
      (bound : Option ℕ) (k : K) (a : ℕ) (u v : V) (t : Table K V)
      → Found k t a u
      → put bound k v t ≡ move_to_front a (assign a v t)
  unfolding put
  put_present bound k a u v t f = ground (arith, f.found)

  put_absent :
      (k : K) (v : V) (t : Table K V)
      → Missing k t
      → (put none k v t ≡ push_front k v t)
        × ((b : ℕ) → put (some b) k v t ≡ evict (len (push_front k v t)) b (push_front k v t))
  unfolding put
  put_absent k v t m = (ground (arith, m.missed), λ b. ground (arith, m.missed))

  abbrev pub PutLaw : Option ℕ → K → V → Table K V → Table K V → Type 0
  PutLaw bound k v t u = Linked u × (entries u ≡ limit bound (touch k v (entries t)))

  put-Missing :
      (bound : Option ℕ) (k : K) (v : V) (t : Table K V)
      → Linked t
      → Missing k t
      → PutLaw bound k v t (put bound k v t)
  put-Missing none k v t h m = subst (PutLaw none k v t) (sym (put_absent k v t m).0) (
    push_front-Linked k v t h m,
    entries-push_front k v t ∙ ap (◌∷◌ (k, v)) (sym (without_absent k (entries t) m.no_entry)),
  )
  put-Missing (some b) k v t h m =
      let p : Table K V = push_front k v t in
      let (linked, kept) = entries-evict (len p) b p (push_front-Linked k v t h m) (omega arith) in
      subst (PutLaw (some b) k v t) (sym ((put_absent k v t m).1 b)) (
        linked,
        kept
            ∙ ap (take b) (
                entries-push_front k v t
                ∙ ap (◌∷◌ (k, v)) (sym (without_absent k (entries t) m.no_entry))),
      )

  -- The entries after a write: the key first, the rest in order, cut off at the bound.
  pub put-touch :
      (bound : Option ℕ) (k : K) (v : V) (t : Table K V)
      → Linked t
      → Within bound (length (entries t))
      → PutLaw bound k v t (put bound k v t)
  put-touch bound k v t h w = elim (find-cases k t h) [
    | inl m ↦ put-Missing bound k v t h m
    | inr (a, u, f) ↦ subst (PutLaw bound k v t) (sym (put_present bound k a u v t f)) (
      move_assign-Linked k a u v t h f,
      entries-move_assign k a u v t h f
          ∙ sym (
              limit_of_length bound (touch k v (entries t))
                (subst (Within bound) (sym (length-touch_present k v u (entries t) f.entry)) w)),
    )
  ]
