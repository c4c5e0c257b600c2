-- ===== src/Lru/Laws.antt =====
-- What each step of the map and list does to the entries in order of use.
use xktmcp.Prelude.{
  ℕ, suc, ◌≡◌, ◌∙◌, sym, ap, refl, ◌⊎◌, inl, inr, none, some, ◌∷◌, arith, Eq, ==-refl, Option-cases,
}
use xktmcp.Lru.Assoc.{
  lookup, without, lookup-without, without-IsMap, length-without, without_absent,
}
use xktmcp.Lru.Nodes.{
  deref, address_of, deref-Below_fresh, unlink-Below, Below-suc, deref-lookup, entries-unlink,
  address_of-unlink, unlink-Distinct, length-unlink, address_of-none, address_of-some, deref-unlink,
  deref-Below, deref-write, lookup-write, address_of-write, write-Distinct, write-Below,
  length-write, without-write,
}
use xktmcp.Lru.Table.{Table, entries, find, assign, move_to_front, remove, push_front, Linked}

module _ {K V : Type 0} ⦃e : Eq K⦄ where
  -- A pointer `a` that the map holds for the key `k`, and the value behind it.
  pub record Found (k : K) (t : Table K V) (a : ℕ) (v : V) : Type 0 where
    pub found : find k t ≡ some (a, v)
    pub entry : lookup k (entries t) ≡ some v
    pub at : address_of k t.lru ≡ some a
    pub pointer : deref a t.lru ≡ some (k, v)

  -- A key that the map does not hold.
  pub record Missing (k : K) (t : Table K V) : Type 0 where
    pub missed : find k t ≡ none
    pub no_entry : lookup k (entries t) ≡ none
    pub no_address : address_of k t.lru ≡ none

  pub find-cases :
      (k : K) (t : Table K V) → Linked t → Missing k t ⊎ ((a : ℕ) × (v : V) × Found k t a v)
  unfolding find
  find-cases k t h = elim (Option-cases (address_of k t.lru)) [
    | inl p ↦ inl (record {
      missed = ground (arith, h.agree k, p);
      no_entry = address_of-none k t.lru p;
      no_address = p;
    })
    | inr (a, p) ↦
        let (v, q) = address_of-some k a t.lru p in
        let d = deref-lookup k a v t.lru h.distinct p q in
        inr
          (a, v, record { found = ground (arith, h.agree k, p, d); entry = q; at = p; pointer = d })
  ]

  module _ (k : K) (a : ℕ) (v : V) (t : Table K V) (h : Linked t) (f : Found k t a v) where
    pub entries-remove : entries (remove k a t) ≡ without k (entries t)
    unfolding remove
    entries-remove = entries-unlink k a t.lru h.distinct f.at

    pub remove-Linked : Linked (remove k a t)
    unfolding remove
    remove-Linked = record {
      agree = λ j. ground (
        arith,
        lookup-without k j t.items h.is_map,
        address_of-unlink k j a t.lru h.distinct f.at,
        h.agree j,
      );
      distinct = unlink-Distinct a t.lru h.distinct;
      below = unlink-Below t.fresh a t.lru h.below;
      is_map = without-IsMap k t.items h.is_map;
      size = omega (
        arith,
        length-without k a t.items (h.agree k ∙ f.at),
        length-unlink k a t.lru f.at,
        h.size,
      );
    }

    pub entries-move_to_front : entries (move_to_front a t) ≡ (k, v) ∷ without k (entries t)
    unfolding move_to_front
    entries-move_to_front =
        rw (f.pointer, move_to_front) (ap (◌∷◌ (k, v)) (entries-unlink k a t.lru h.distinct f.at))

    pub move_to_front-Linked : Linked (move_to_front a t)
    unfolding move_to_front
    move_to_front-Linked =
        rw (f.pointer, move_to_front)
          (record {
            agree = λ j. ground (
              arith,
              h.agree j,
              f.at,
              address_of-unlink k j a t.lru h.distinct f.at,
              e.same_iff k j,
            );
            distinct = (
              deref-unlink a t.lru h.distinct,
              ground (arith, address_of-unlink k k a t.lru h.distinct f.at, ==-refl k),
              unlink-Distinct a t.lru h.distinct,
            );
            below = (
              deref-Below t.fresh a t.lru f.pointer h.below,
              unlink-Below t.fresh a t.lru h.below,
            );
            is_map = h.is_map;
            size = omega (arith, length-unlink k a t.lru f.at, h.size);
          })

    module _ (w : V) where
      pub assign-Found : Found k (assign a w t) a w
      unfolding assign find
      assign-Found = record {
        found = ground (arith, h.agree k, f.at, deref-write k a v w t.lru f.pointer);
        entry = lookup-write k a w t.lru h.distinct f.at;
        at = address_of-write k a w t.lru ∙ f.at;
        pointer = deref-write k a v w t.lru f.pointer;
      }

      pub assign-Linked : Linked (assign a w t)
      unfolding assign
      assign-Linked = record {
        agree = λ j. h.agree j ∙ sym (address_of-write j a w t.lru);
        distinct = write-Distinct a w t.lru h.distinct;
        below = write-Below t.fresh a w t.lru h.below;
        is_map = h.is_map;
        size = h.size ∙ sym (length-write a w t.lru);
      }

      without-assign : without k (entries (assign a w t)) ≡ without k (entries t)
      unfolding assign
      without-assign = without-write k a w t.lru h.distinct f.at

  -- The two ways in which the program updates a value and marks it as used.
  module _ (k : K) (a : ℕ) (v w : V) (t : Table K V) (h : Linked t) (f : Found k t a v) where
    pub entries-move_assign :
        entries (move_to_front a (assign a w t)) ≡ (k, w) ∷ without k (entries t)
    entries-move_assign =
        entries-move_to_front k a w (assign a w t) (assign-Linked k a v t h f w)
          (assign-Found k a v t h f w)
        ∙ ap (◌∷◌ (k, w)) (without-assign k a v t h f w)

    pub move_assign-Linked : Linked (move_to_front a (assign a w t))
    move_assign-Linked =
        move_to_front-Linked k a w (assign a w t) (assign-Linked k a v t h f w)
          (assign-Found k a v t h f w)

    pub move_to_front-Found : Found k (move_to_front a t) a v
    unfolding find move_to_front
    move_to_front-Found = record {
      found = ground (arith, h.agree k, f.at, f.pointer);
      entry = rw (f.pointer, move_to_front) (ground (arith, ==-refl k));
      at = rw (f.pointer, move_to_front) (ground (arith, ==-refl k));
      pointer = rw (f.pointer, move_to_front) (ground arith);
    }

    pub entries-assign_move :
        entries (assign a w (move_to_front a t)) ≡ (k, w) ∷ without k (entries t)
    unfolding assign move_to_front
    entries-assign_move = ground (arith, f.pointer, entries-unlink k a t.lru h.distinct f.at)

    pub assign_move-Linked : Linked (assign a w (move_to_front a t))
    assign_move-Linked =
        assign-Linked k a v (move_to_front a t) (move_to_front-Linked k a v t h f)
          move_to_front-Found w

  pub push_front-Linked :
      (k : K) (v : V) (t : Table K V) → Linked t → Missing k t → Linked (push_front k v t)
  unfolding push_front
  push_front-Linked k v t h m =
      let gone : lookup k t.items ≡ none = h.agree k ∙ m.no_address in
      rw (without_absent k t.items gone) (record {
        agree = λ j. ground (arith, h.agree j);
        distinct = (deref-Below_fresh t.fresh t.lru h.below, m.no_address, h.distinct);
        below = (omega arith, Below-suc t.fresh t.lru h.below);
        is_map = (gone, h.is_map);
        size = ap suc h.size;
      })

  pub entries-push_front :
      (k : K) (v : V) (t : Table K V) → entries (push_front k v t) ≡ (k, v) ∷ entries t
  unfolding push_front
  entries-push_front k v t = refl
