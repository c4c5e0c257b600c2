-- ===== src/Auth/Cache/Laws.antt =====
-- The cache against its abstract specification: a list of entries in order of use.
use xktmcp.Prelude.{
  zero, suc, ==-refl, refl, ◌==◌, Option-cases, list_beq_iff, length-take, ℕ, ◌≤◌, ◌<◌, ◌≡◌, ◌∙◌,
  ap, inl, inr, not, Option, none, some, List, arith, nat_eq, list_eq, if◌then◌else◌, length, take,
  keep, length-keep-le, Bool-cases,
}
use xktmcp.Prelude.Text.{Text}
use xktmcp.Lru.Assoc.{lookup-without, lookup, without}
use xktmcp.Lru.Table.{Table, entries, Linked}
use xktmcp.Lru.Laws.{
  find-cases, entries-remove, remove-Linked, entries-move_to_front, move_to_front-Linked,
}
use xktmcp.Lru.Put.{put-touch}
use xktmcp.Lru.Sweep.{sweep, entries-sweep}
use xktmcp.Lru.Assoc.{IsMap}
use xktmcp.Lru.Spec.{
  length-without-le, length-touch_present, lookup-touch, lookup-keep-some, lookup-take-some,
  keep-IsMap, touch,
}
use xktmcp.Auth.Cache.{CacheEntry, VerificationCache, is_stale, get, set}

abbrev pub Entries : Type 0
Entries = List (Text × CacheEntry)

abbrev pub view : VerificationCache → Entries
view c = entries c.table

-- The map and the list agree, and the bound holds.
pub record IsValid (c : VerificationCache) : Type 0 where
  pub linked : Linked c.table
  pub bounded : length (view c) ≤ c.max_entries
  pub positive : 0 < c.max_entries

-- A read moves a live entry to the front and drops a stale one.
pub read : ℕ → Text → Entries → Entries × Option CacheEntry
read now key es = elim (lookup key es) [
  | none ↦ (es, none)
  | some entry ↦
      if is_stale now entry then (without key es, none) else (touch key entry es, some entry)
]

abbrev pub fresh_entries : ℕ → Entries → Entries
fresh_entries now = keep (λ n. not (is_stale now n.1))

-- A write drops what is stale, puts the entry at the front and keeps the most recent entries.
pub store : ℕ → ℕ → Text → CacheEntry → Entries → Entries
store bound now key entry es = take bound (touch key entry (fresh_entries now es))

-- A read returns the entry of its key, and only while it is not stale.
pub read_result :
    (now : ℕ) (key : Text) (es : Entries)
    → (read now key es).1 ≡ elim (lookup key es) [
      | none ↦ none
      | some entry ↦ if is_stale now entry then none else some entry
    ]
unfolding read
read_result now key es = ground arith

pub length-read-le : (now : ℕ) (key : Text) (es : Entries) → length (read now key es).0 ≤ length es
unfolding read
length-read-le now key es = elim (Option-cases (lookup key es)) [
  | inl p ↦ ground arith
  | inr (v, p) ↦ ground (arith, length-without-le key es, length-touch_present key v v es p)
]

pub lookup-read-some :
    (now : ℕ) (k j : Text) (entry : CacheEntry) (es : Entries)
    → IsMap es
    → lookup j (read now k es).0 ≡ some entry
    → lookup j es ≡ some entry
unfolding read
lookup-read-some now k j entry es m h = elim (Option-cases (lookup k es)) [
  | inl p ↦ ground arith
  | inr (v, p) ↦
      ground (arith, p, lookup-without k j es m, lookup-touch k j v es m, list_beq_iff k j)
]

pub length-store-le :
    (bound now : ℕ) (key : Text) (entry : CacheEntry) (es : Entries)
    → length (store bound now key entry es) ≤ bound
unfolding store
length-store-le bound now key entry es =
    omega (arith, length-take bound (touch key entry (fresh_entries now es)))

pub lookup-store-some :
    (bound now : ℕ) (k j : Text) (v w : CacheEntry) (es : Entries)
    → IsMap es
    → lookup j (store bound now k v es) ≡ some w
    → (if k == j then some v else lookup j es) ≡ some w
unfolding store
lookup-store-some bound now k j v w es m h = ground (
  arith,
  lookup-take-some bound j w (touch k v (fresh_entries now es)) h,
  lookup-touch k j v (fresh_entries now es) (keep-IsMap (λ n. not (is_stale now n.1)) es m),
  lookup-keep-some (λ n. not (is_stale now n.1)) j w es m,
)

pub lookup-store_self :
    (bound now : ℕ) (key : Text) (entry : CacheEntry) (es : Entries)
    → 0 < bound
    → lookup key (store bound now key entry es) ≡ some entry
unfolding store
lookup-store_self (suc bound) now key entry es h = ground (arith, ==-refl key)
lookup-store_self zero now key entry es h = absurd (omega arith)

module _ (now : ℕ) (key : Text) (c : VerificationCache) (h : IsValid c) where
  pub get-read :
      (view (get now key c).0 ≡ (read now key (view c)).0)
      × ((get now key c).1 ≡ (read now key (view c)).1)
      × Linked (get now key c).0.table
      × ((get now key c).0.max_entries ≡ c.max_entries)
  unfolding get read
  get-read = elim (find-cases key c.table h.linked) [
    | inl m ↦ (
      ground (arith, m.missed, m.no_entry),
      ground (arith, m.missed, m.no_entry),
      rw (m.missed, get) h.linked,
      ground (arith, m.missed),
    )
    | inr (a, v, f) ↦ elim (Bool-cases (is_stale now v)) [
      | inl old ↦ (
        ground (arith, f.found, f.entry, entries-remove key a v c.table h.linked f),
        ground (arith, f.found, f.entry),
        rw (f.found, get) (rw old (remove-Linked key a v c.table h.linked f)),
        ground (arith, f.found),
      )
      | inr young ↦ (
        ground (arith, f.found, f.entry, entries-move_to_front key a v c.table h.linked f),
        ground (arith, f.found, f.entry),
        rw (f.found, get) (rw young (move_to_front-Linked key a v c.table h.linked f)),
        ground (arith, f.found),
      )
    ]
  ]

module _ (now : ℕ) (key : Text) (entry : CacheEntry) (c : VerificationCache) (h : IsValid c) where
  abbrev swept : Table Text CacheEntry
  swept = sweep (λ k it. is_stale now it) c.table.items c.table

  swept-fresh : Linked swept × (entries swept ≡ fresh_entries now (view c))
  swept-fresh = entries-sweep (λ k it. is_stale now it) c.table h.linked

  pub set-store :
      (view (set now key entry c) ≡ store c.max_entries now key entry (view c))
      × Linked (set now key entry c).table
      × ((set now key entry c).max_entries ≡ c.max_entries)
  unfolding set store
  set-store =
      let (linked, live_only) = swept-fresh in
      let (done, kept) = put-touch (some c.max_entries) key entry swept linked (
        omega (
          arith,
          ap length live_only,
          h.bounded,
          length-keep-le (λ n. not (is_stale now n.1)) (view c),
        )) in
      (kept ∙ ap (λ es. take c.max_entries (touch key entry es)) live_only, done, refl)
