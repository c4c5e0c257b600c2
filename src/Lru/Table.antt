-- ===== src/Lru/Table.antt =====
-- The map and the list together: `items map[K]*list.Element` and `lru *list.List`.
use xktmcp.Prelude.{
  ℕ, zero, suc, ◌+◌, ◌≡◌, refl, Option, none, some, List, [], ◌∷◌, Eq, length, ltb, if◌then◌else◌,
}
use xktmcp.Lru.Assoc.{lookup, without, IsMap}
use xktmcp.Lru.Nodes.{Node, deref, unlink, back, write, entries_of, Below, address_of, Distinct}

-- `fresh` is the address of the next element that the program allocates.
pub record Table (K V : Type 0) : Type 0 where
  pub items : List (K × ℕ)
  pub lru : List (Node K V)
  pub fresh : ℕ

module _ {K V : Type 0} where
  abbrev pub empty : Table K V
  empty = record { items = []; lru = []; fresh = 0 }

  abbrev pub entries : Table K V → List (K × V)
  entries t = entries_of t.lru

  -- lru.Len()
  abbrev pub len : Table K V → ℕ
  len t = length t.lru

  -- el.Value.field = w
  unfoldable pub assign : ℕ → V → Table K V → Table K V
  assign a w t = record t { lru = write a w t.lru }

  -- lru.MoveToFront(el)
  unfoldable pub move_to_front : ℕ → Table K V → Table K V
  move_to_front a t = elim (deref a t.lru) [
    | none ↦ t
    | some n ↦ record t { lru = (a, n.0, n.1) ∷ unlink a t.lru }
  ]

module _ {K V : Type 0} ⦃e : Eq K⦄ where
  -- el, ok := items[k], with the value that el points to
  unfoldable pub find : K → Table K V → Option (ℕ × V)
  find k t = elim (lookup k t.items) [
    | none ↦ none
    | some a ↦ elim (deref a t.lru) [ none ↦ none | some n ↦ some (a, n.1) ]
  ]

  -- delete(items, k); lru.Remove(el)
  unfoldable pub remove : K → ℕ → Table K V → Table K V
  remove k a t = record t { items = without k t.items; lru = unlink a t.lru }

  -- items[k] = lru.PushFront(v)
  unfoldable pub push_front : K → V → Table K V → Table K V
  push_front k v t = record {
    items = (k, t.fresh) ∷ without k t.items;
    lru = (t.fresh, k, v) ∷ t.lru;
    fresh = t.fresh + 1;
  }

  -- Removes the element at the back of the list, if there is one.
  unfoldable pub remove_oldest : Table K V → Table K V
  remove_oldest t = elim (back t.lru) [ none ↦ t | some n ↦ remove n.1 n.0 t ]

  -- for lru.Len() > max { remove the back }, with fuel for the rounds
  unfoldable pub evict : ℕ → ℕ → Table K V → Table K V
  evict zero bound t = t
  evict (suc fuel) bound t =
      let rest = evict fuel bound (remove_oldest t) in if ltb bound (len t) then rest else t

  -- The map and the list agree.
  pub record Linked (t : Table K V) : Type 0 where
    pub agree : (k : K) → lookup k t.items ≡ address_of k t.lru
    pub distinct : Distinct t.lru
    pub below : Below t.fresh t.lru
    pub is_map : IsMap t.items
    pub size : length t.items ≡ length t.lru

pub empty-Linked : {K V : Type 0} ⦃e : Eq K⦄ → Linked (empty {K = K} {V = V})
empty-Linked = record { agree = λ k. refl; distinct = tt; below = tt; is_map = tt; size = refl }
