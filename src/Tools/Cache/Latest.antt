-- ===== src/Tools/Cache/Latest.antt =====
-- What a read of the memory cache returns after a sequence of calls: the latest write that still holds.
use xktmcp.Prelude.{
  ◌&&◌, ◌||◌, Bool-cases, ◌∙◌, zero, suc, Option-cases, list_beq_iff, ℕ, ◌≤◌, ◌≡◌, sym, refl, inl,
  inr, Bool, false, not, Option, none, some, List, [], ◌∷◌, arith, ◌==◌, nat_eq, list_eq,
  if◌then◌else◌, length,
}
use xktmcp.Prelude.Int.{negsuc, pos, ℤ}
use xktmcp.Prelude.Text.{Text, has_prefix}
use xktmcp.Lru.Assoc.{lookup, IsMap}
use mathlib.Core.Path.{ap, subst}
use xktmcp.Lru.Nodes.{entries-IsMap, length-entries}
use xktmcp.Lru.Table.{empty-Linked}
use xktmcp.Lru.Assoc.{lookup-without}
use xktmcp.Lru.Spec.{lookup-touch, lookup-keep, lookup-keep-some, lookup-take-some, touch}
use xktmcp.Lru.Put.{limit, Within}
use xktmcp.Tools.Cache
use xktmcp.Tools.Cache.{
  CacheItem, MemoryCache, expired, bound_of, expiration_of, new_memory_cache_with_options,
  janitor_tick, size,
}
use xktmcp.Tools.Cache.Laws.{read_result, lookup-read-some, Entries, view, IsValid, get-read}
use xktmcp.Tools.Cache.Runs.{
  Call, get, set, delete, delete_prefix, tick, stop, after, item, promise, view-perform,
  after-IsValid,
}

empty-Within : (max_entries : ℤ) → Within (bound_of max_entries) 0
empty-Within (pos zero) = tt
empty-Within (pos (suc n)) = omega arith
empty-Within (negsuc n) = tt

module _ {V : Type 0} where
  -- What the calls of a history leave of a key: its latest write, if no later call deleted it.
  unfoldable pub note : Call V → Text → Option (CacheItem V) → Option (CacheItem V)
  note (get now key) j o = o
  note (set now key value ttl) j o = if key == j then some (item now value ttl) else o
  note (delete key) j o = if key == j then none else o
  note (delete_prefix prefix) j o = if has_prefix j prefix then none else o
  note (tick chosen now) j o = o
  note stop j o = o

  unfoldable pub latest : Text → List (Call V) → Option (CacheItem V)
  latest key [] = none
  latest key (call ∷ earlier) = note call key (latest key earlier)

  lookup-limit-some :
      (bound : Option ℕ) (j : Text) (it : CacheItem V) (es : Entries V)
      → lookup j (limit bound es) ≡ some it
      → lookup j es ≡ some it
  lookup-limit-some none j it es h = h
  lookup-limit-some (some b) j it es h = lookup-take-some b j it es h

  lookup-promise :
      (bound : Option ℕ) (stopped returned : Bool) (call : Call V) (j : Text) (it : CacheItem V)
      (es : Entries V) (o : Option (CacheItem V))
      → IsMap es
      → (lookup j es ≡ some it → o ≡ some it)
      → lookup j (promise bound stopped returned call es) ≡ some it
      → note call j o ≡ some it
  unfolding promise note
  lookup-promise bound stopped returned (get now key) j it es o m h p =
      h (lookup-read-some now key j it es m p)
  lookup-promise bound stopped returned (set now key value ttl) j it es o m h p = ground (
    arith,
    list_beq_iff key j,
    lookup-touch key j (item now value ttl) es m,
    lookup-limit-some bound j it (touch key (item now value ttl) es) p,
  )
  lookup-promise bound stopped returned (delete key) j it es o m h p =
      ground (arith, list_beq_iff key j, lookup-without key j es m)
  lookup-promise bound stopped returned (delete_prefix prefix) j it es o m h p = ground (
    arith,
    lookup-keep-some (λ n. not (has_prefix n.0 prefix)) j it es m p,
    lookup-keep (λ n. not (has_prefix n.0 prefix)) j it es m,
  )
  lookup-promise bound stopped returned (tick chosen now) j it es o m h p =
      elim (Bool-cases (returned || stopped && not chosen)) [
        | inl idle ↦ h (ground (arith, idle, p))
        | inr busy ↦
            h (lookup-keep-some (λ n. not (expired now n.1)) j it es m (ground (arith, busy, p)))
      ]
  lookup-promise bound stopped returned stop j it es o m h p = h p

  max_entries-after :
      (history : List (Call V)) (c : MemoryCache V)
      → IsValid c
      → (after history c).max_entries ≡ c.max_entries
  unfolding after
  max_entries-after [] c h = refl
  max_entries-after (call ∷ earlier) c h =
      (view-perform call (after earlier c) (after-IsValid earlier c h)).2
      ∙ max_entries-after earlier c h

  -- A cached entry is the latest write of its key.
  after-current :
      (history : List (Call V)) (c : MemoryCache V)
      → IsValid c
      → view c ≡ []
      → (j : Text) (it : CacheItem V) → lookup j (view (after history c)) ≡ some it
      → latest j history ≡ some it
  unfolding after latest
  after-current [] c h nothing j it p = absurd (ground (arith, p, nothing))
  after-current (call ∷ earlier) c h nothing j it p =
      let d = after earlier c in
      let v = after-IsValid earlier c h in
      lookup-promise (bound_of d.max_entries) d.stopped d.returned call j it (view d)
        (latest j earlier) (entries-IsMap d.table.lru v.linked.distinct)
        (after-current earlier c h nothing j it) (ap (lookup j) (sym (view-perform call d v).0) ∙ p)

  new-IsValid : (max_entries : ℤ) → IsValid (new_memory_cache_with_options {V = V} max_entries)
  unfolding new_memory_cache_with_options
  new-IsValid max_entries = record { linked = empty-Linked; bounded = empty-Within max_entries }

  abbrev pub cache_after : ℤ → List (Call V) → MemoryCache V
  cache_after max_entries history = after history (new_memory_cache_with_options max_entries)

  -- From a new cache, after any calls and janitor ticks: a `Get` that hits returns the value of
  -- the latest `Set` of the key that no later `Delete` or `DeletePrefix` covers, unexpired.
  pub get-cache_after :
      (max_entries : ℤ) (history : List (Call V)) (now : ℕ) (key : Text) (value : V)
      → (Cache.get now key (cache_after max_entries history)).1 ≡ some value
      → (it : CacheItem V) × (latest key history ≡ some it)
        × (it.value ≡ value)
        × (expired now it ≡ false)
  unfolding new_memory_cache_with_options
  get-cache_after max_entries history now key value p =
      let c = cache_after max_entries history in
      let v = after-IsValid history _ (new-IsValid max_entries) in
      let r = (get-read c v now key).1 in
      elim (Option-cases (lookup key (view c))) [
        | inl q ↦ absurd (ground (arith, r, q, read_result now key (view c)))
        | inr (it, q) ↦ (
          it,
          after-current history _ (new-IsValid max_entries) refl key it q,
          ground (arith, r, q, read_result now key (view c)),
          ground (arith, r, q, read_result now key (view c)),
        )
      ]

  -- From a new cache with a positive bound, after any calls the list is within the bound, and as
  -- long as the map.
  pub size-cache_after :
      (n : ℕ) (history : List (Call V))
      → (size (cache_after (pos (suc n)) history) ≤ suc n)
        × (length (cache_after (pos (suc n)) history).table.items
            ≡ size (cache_after (pos (suc n)) history))
  unfolding size new_memory_cache_with_options
  size-cache_after n history =
      let c = cache_after (pos (suc n)) history in
      let h = new-IsValid (pos (suc n)) in
      let v = after-IsValid history _ h in
      let w : length (view c) ≤ suc n =
        subst (λ (m : ℤ). Within (bound_of m) (length (view c))) (max_entries-after history _ h)
          v.bounded in
      (omega (arith, w, length-entries c.table.lru), v.linked.size)
