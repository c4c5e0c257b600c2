-- ===== src/Tools/Cache/Laws.antt =====
-- The memory cache against its abstract specification: a list of entries in order of use.
use xktmcp.Prelude.{
  list_beq_iff, Option-cases, ◌≤◌, ℕ, ◌≡◌, refl, inl, inr, not, Option, none, some, List, arith,
  nat_eq, list_eq, if◌then◌else◌, length, keep, Bool-cases,
}
use xktmcp.Prelude.Int.{ℤ}
use xktmcp.Prelude.Text.{Text, has_prefix}
use xktmcp.Lru.Assoc.{IsMap, lookup, without, without_absent}
use xktmcp.Lru.Table.{entries, Linked}
use xktmcp.Lru.Laws.{
  find-cases, entries-remove, remove-Linked, entries-move_to_front, move_to_front-Linked,
}
use xktmcp.Lru.Sweep.{entries-sweep}
use xktmcp.Lru.Assoc.{lookup-without}
use xktmcp.Lru.Spec.{length-without-le, length-touch_present, lookup-touch, touch}
use xktmcp.Lru.Put.{put-touch, limit, Within}
use xktmcp.Tools.Cache.{
  CacheItem, MemoryCache, expired, bound_of, expiration_of, get, set, delete, delete_prefix,
  delete_expired,
}

abbrev pub Entries : Type 0 → Type 0
Entries V = List (Text × CacheItem V)

module _ {V : Type 0} where
  abbrev pub view : MemoryCache V → Entries V
  view c = entries c.table

  -- The map and the list agree, and the bound holds, where there is one.
  pub record IsValid (c : MemoryCache V) : Type 0 where
    pub linked : Linked c.table
    pub bounded : Within (bound_of c.max_entries) (length (view c))

  -- A read moves a live entry to the front and drops an expired one.
  pub read : ℕ → Text → Entries V → Entries V × Option V
  read now key es = elim (lookup key es) [
    | none ↦ (es, none)
    | some it ↦ if expired now it then (without key es, none) else (touch key it es, some it.value)
  ]

  -- A read returns the value of its key, and only while it has not expired.
  pub read_result :
      (now : ℕ) (key : Text) (es : Entries V)
      → (read now key es).1 ≡ elim (lookup key es) [
        | none ↦ none
        | some it ↦ if expired now it then none else some it.value
      ]
  unfolding read
  read_result now key es = ground arith

  pub length-read-le :
      (now : ℕ) (key : Text) (es : Entries V) → length (read now key es).0 ≤ length es
  unfolding read
  length-read-le now key es = elim (Option-cases (lookup key es)) [
    | inl p ↦ ground arith
    | inr (v, p) ↦ ground (arith, length-without-le key es, length-touch_present key v v es p)
  ]

  pub lookup-read-some :
      (now : ℕ) (k j : Text) (it : CacheItem V) (es : Entries V)
      → IsMap es
      → lookup j (read now k es).0 ≡ some it
      → lookup j es ≡ some it
  unfolding read
  lookup-read-some now k j it es m h = elim (Option-cases (lookup k es)) [
    | inl p ↦ ground arith
    | inr (v, p) ↦
        ground (arith, p, lookup-without k j es m, lookup-touch k j v es m, list_beq_iff k j)
  ]

  module _ (c : MemoryCache V) (h : IsValid c) where
    pub get-read :
        (now : ℕ) (key : Text)
        → (view (get now key c).0 ≡ (read now key (view c)).0)
          × ((get now key c).1 ≡ (read now key (view c)).1)
          × Linked (get now key c).0.table
          × ((get now key c).0.max_entries ≡ c.max_entries)
    unfolding get read
    get-read now key = elim (find-cases key c.table h.linked) [
      | inl m ↦ (
        ground (arith, m.missed, m.no_entry),
        ground (arith, m.missed, m.no_entry),
        rw (m.missed, get) h.linked,
        ground (arith, m.missed),
      )
      | inr (a, v, f) ↦ elim (Bool-cases (expired now v)) [
        | inl old ↦ (
          ground (arith, f.found, f.entry, entries-remove key a v c.table h.linked f),
          ground (arith, f.found, f.entry),
          rw (f.found, get) (rw old (remove-Linked key a v c.table h.linked f)),
          ground (arith, f.found),
        )
        | inr young ↦ (
          ground (arith, f.found, f.entry, entries-move_to_front key a v c.table h.linked f),
          ground (arith, f.found, f.entry),
          rw (f.found, get) (rw young (move_to_front-Linked key a v c.table h.linked f)),
          ground (arith, f.found),
        )
      ]
    ]

    pub set-touch :
        (now : ℕ) (key : Text) (value : V) (ttl : ℤ)
        → let it : CacheItem V = record { value = value; expiration = expiration_of now ttl } in
          (view (set now key value ttl c) ≡ limit (bound_of c.max_entries) (touch key it (view c)))
          × Linked (set now key value ttl c).table
          × ((set now key value ttl c).max_entries ≡ c.max_entries)
    unfolding set
    set-touch now key value ttl =
        let it : CacheItem V = record { value = value; expiration = expiration_of now ttl } in
        let (linked, same) = put-touch (bound_of c.max_entries) key it c.table h.linked h.bounded in
        (same, linked, refl)

    pub delete-without :
        (key : Text)
        → (view (delete key c) ≡ without key (view c))
          × Linked (delete key c).table
          × ((delete key c).max_entries ≡ c.max_entries)
    unfolding delete
    delete-without key = elim (find-cases key c.table h.linked) [
      | inl m ↦ (
        ground (arith, m.missed, without_absent key (view c) m.no_entry),
        rw (m.missed, delete) h.linked,
        ground (arith, m.missed),
      )
      | inr (a, v, f) ↦ (
        ground (arith, f.found, entries-remove key a v c.table h.linked f),
        rw (f.found, delete) (remove-Linked key a v c.table h.linked f),
        ground (arith, f.found),
      )
    ]

    pub delete_prefix-keep :
        (prefix : Text)
        → Linked (delete_prefix prefix c).table
          × (view (delete_prefix prefix c) ≡ keep (λ n. not (has_prefix n.0 prefix)) (view c))
    unfolding delete_prefix
    delete_prefix-keep prefix = entries-sweep (λ key it. has_prefix key prefix) c.table h.linked

    pub delete_expired-keep :
        (now : ℕ)
        → Linked (delete_expired now c).table
          × (view (delete_expired now c) ≡ keep (λ n. not (expired now n.1)) (view c))
    unfolding delete_expired
    delete_expired-keep now = entries-sweep (λ key it. expired now it) c.table h.linked
