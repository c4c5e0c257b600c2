-- ===== src/Auth/Cache/Runs.antt =====
-- Sequences of calls on the cache. A history lists the calls, the latest first.
use xktmcp.Prelude.{
  zero, suc, list_beq_iff, ℕ, suc, ◌≤◌, ◌≡◌, ◌∙◌, sym, ap, refl, false, Option, none, some, List,
  [], ◌∷◌, arith, ◌==◌, nat_eq, list_eq, if◌then◌else◌, length,
}
use xktmcp.Prelude.Text.{Text}
use xktmcp.Prelude.Int.{pos, negsuc, ℤ}
use xktmcp.Lru.Assoc.{lookup}
use xktmcp.Lru.Nodes.{length-entries, entries-IsMap}
use mathlib.Core.Path.{subst}
use mathlib.Core.Option.{some-injective}
use xktmcp.Lru.Table.{len, empty-Linked}
use xktmcp.Auth.Cache
use xktmcp.Auth.Cache.{
  negsuc, pos, CacheEntry, VerificationCache, new_verification_cache, is_stale, size,
}
use xktmcp.Auth.Cache.Laws.{
  read_result, lookup-store_self, lookup-store-some, lookup-read-some, length-store-le,
  length-read-le, view, IsValid, get-read, set-store,
}

pub data Call : Type 0 where
  get : ℕ → Text → Call
  set : ℕ → Text → CacheEntry → Call

unfoldable pub perform : Call → VerificationCache → VerificationCache
perform (get now key) c = (Cache.get now key c).0
perform (set now key entry) c = Cache.set now key entry c

unfoldable pub after : List Call → VerificationCache → VerificationCache
after [] c = c
after (call ∷ earlier) c = perform call (after earlier c)

-- The entry of the latest `Set` of a key.
unfoldable pub latest : Text → List Call → Option CacheEntry
latest key [] = none
latest key (get now j ∷ earlier) = latest key earlier
latest key (set now j entry ∷ earlier) = if j == key then some entry else latest key earlier

pub get-IsValid :
    (now : ℕ) (key : Text) (c : VerificationCache) → IsValid c → IsValid (Cache.get now key c).0
get-IsValid now key c h =
    let (same, _, linked, cap) = get-read now key c h in
    record {
      linked = linked;
      bounded = omega (arith, ap length same, length-read-le now key (view c), cap, h.bounded);
      positive = omega (arith, cap, h.positive);
    }

set-IsValid :
    (now : ℕ) (key : Text) (entry : CacheEntry) (c : VerificationCache)
    → IsValid c
    → IsValid (Cache.set now key entry c)
set-IsValid now key entry c h =
    let (same, linked, cap) = set-store now key entry c h in
    record {
      linked = linked;
      bounded =
          omega (arith, cap, ap length same, length-store-le c.max_entries now key entry (view c));
      positive = omega (arith, cap, h.positive);
    }

pub perform-IsValid : (call : Call) (c : VerificationCache) → IsValid c → IsValid (perform call c)
unfolding perform
perform-IsValid (get now key) c h = get-IsValid now key c h
perform-IsValid (set now key entry) c h = set-IsValid now key entry c h

pub after-IsValid :
    (history : List Call) (c : VerificationCache) → IsValid c → IsValid (after history c)
unfolding after
after-IsValid [] c h = h
after-IsValid (call ∷ earlier) c h =
    perform-IsValid call (after earlier c) (after-IsValid earlier c h)

max_entries-after :
    (history : List Call) (c : VerificationCache)
    → IsValid c
    → (after history c).max_entries ≡ c.max_entries
unfolding after perform
max_entries-after [] c h = refl
max_entries-after (get now key ∷ earlier) c h =
    (get-read now key (after earlier c) (after-IsValid earlier c h)).3
    ∙ max_entries-after earlier c h
max_entries-after (set now key entry ∷ earlier) c h =
    (set-store now key entry (after earlier c) (after-IsValid earlier c h)).2
    ∙ max_entries-after earlier c h

-- An entry that a cache holds is the one of the latest write of its key.
abbrev IsCurrent : VerificationCache → List Call → Type 0
IsCurrent c history =
    (key : Text) (entry : CacheEntry)
    → lookup key (view c) ≡ some entry
    → latest key history ≡ some entry

after-IsCurrent :
    (history : List Call) (c : VerificationCache)
    → IsValid c
    → IsCurrent c []
    → IsCurrent (after history c) history
unfolding after perform latest
after-IsCurrent [] c h fresh = fresh
after-IsCurrent (get now key ∷ earlier) c h fresh = λ j entry p.
    let v = after-IsValid earlier c h in
    let d = after earlier c in
    after-IsCurrent earlier c h fresh j entry (
      lookup-read-some now key j entry (view d) (entries-IsMap d.table.lru v.linked.distinct)
        (ap (lookup j) (sym (get-read now key d v).0) ∙ p))
after-IsCurrent (set now key new ∷ earlier) c h fresh = λ j entry p.
    let v = after-IsValid earlier c h in
    let d = after earlier c in
    ground (
      arith,
      lookup-store-some d.max_entries now key j new entry (view d)
          (entries-IsMap d.table.lru v.linked.distinct)
          (ap (lookup j) (sym (set-store now key new d v).0) ∙ p),
      after-IsCurrent earlier c h fresh j entry,
      list_beq_iff key j,
    )

new-IsValid :
    (capacity : ℤ) {c : VerificationCache}
    → new_verification_cache capacity ≡ some c
    → IsValid c × (view c ≡ []) × (pos c.max_entries ≡ capacity)
unfolding new_verification_cache
new-IsValid (pos zero) h = ground arith
new-IsValid (pos (suc n)) {c} h =
    subst (λ (d : VerificationCache). IsValid d × (view d ≡ []) × (pos d.max_entries ≡ pos (suc n)))
      (some-injective _ _ h)
      (record { linked = empty-Linked; bounded = omega arith; positive = omega arith }, refl, refl)
new-IsValid (negsuc n) h = ground arith

module _ (capacity : ℤ) (c : VerificationCache)
    (new : new_verification_cache capacity ≡ some c) where
  -- From a new cache, after any sequence of `Get` and `Set` calls at any times, the map and the
  -- list have equally many entries, and no more than the capacity.
  pub size-after :
      (history : List Call)
      → (size (after history c) ≡ len (after history c).table)
        × (pos c.max_entries ≡ capacity)
        × (size (after history c) ≤ c.max_entries)
  unfolding size
  size-after history =
      let (h, _, cap) = new-IsValid capacity new in
      let v = after-IsValid history c h in
      (
        v.linked.size,
        cap,
        omega (
          arith,
          v.linked.size,
          v.bounded,
          max_entries-after history c h,
          length-entries (after history c).table.lru,
        ),
      )

  -- From a new cache, after any sequence of calls: a `Get` that hits returns exactly the entry of
  -- the latest `Set` of that key, and that entry has not expired at the time of the `Get`.
  pub get-after-latest :
      (history : List Call) (now : ℕ) (key : Text) (entry : CacheEntry)
      → (Cache.get now key (after history c)).1 ≡ some entry
      → (latest key history ≡ some entry) × (is_stale now entry ≡ false)
  get-after-latest history now key entry p =
      let (h, nothing, _) = new-IsValid capacity new in
      let d = after history c in
      let v = after-IsValid history c h in
      let current = after-IsCurrent history c h (λ j e q. absurd (ground (arith, q, nothing))) in
      ground (arith, (get-read now key d v).1, read_result now key (view d), current key entry)

-- Right after a `Set`, a `Get` of the same key returns the entry, unless the entry has expired by
-- then.
pub get-set :
    (c : VerificationCache) (now later : ℕ) (key : Text) (entry : CacheEntry)
    → IsValid c
    → (Cache.get later key (Cache.set now key entry c)).1
      ≡ (if is_stale later entry then none else some entry)
get-set c now later key entry h =
    let d = Cache.set now key entry c in
    ground (
      arith,
      (get-read later key d (set-IsValid now key entry c h)).1,
      read_result later key (view d),
      ap (lookup key) (set-store now key entry c h).0,
      lookup-store_self c.max_entries now key entry (view c) h.positive,
    )
