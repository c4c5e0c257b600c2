-- ===== src/Tools/Cache/Runs.antt =====
-- Sequences of calls on the memory cache, the janitor's ticks among them, against what the cache
-- promises. A history lists the calls, the latest first.
use xktmcp.Prelude.{
  ◌&&◌, ◌||◌, ℕ, ◌≡◌, sym, refl, inl, inr, Bool, not, Option, none, some, List, [], ◌∷◌, arith,
  nat_eq, list_eq, if◌then◌else◌, length, keep, Bool-cases, length-take, length-keep-le,
}
use xktmcp.Prelude.Int.{ℤ}
use xktmcp.Prelude.Text.{Text, has_prefix}
use xktmcp.Lru.Assoc.{without}
use mathlib.Core.Path.{subst₂}
use xktmcp.Lru.Table.{Linked}
use xktmcp.Lru.Spec.{length-without-le, touch}
use xktmcp.Lru.Put.{Within-mono, limit, Within}
use xktmcp.Tools.Cache
use xktmcp.Tools.Cache.{
  CacheItem, MemoryCache, expired, bound_of, expiration_of, new_memory_cache_with_options,
  janitor_tick, size,
}
use xktmcp.Tools.Cache.Laws.{
  length-read-le, Entries, view, IsValid, read, get-read, set-touch, delete-without,
  delete_prefix-keep, delete_expired-keep,
}

pub data Call (V : Type 0) : Type 0 where
  get : ℕ → Text → Call V
  set : ℕ → Text → V → ℤ → Call V
  delete : Text → Call V
  delete_prefix : Text → Call V
  tick : Bool → ℕ → Call V
  stop : Call V

module _ {V : Type 0} where
  unfoldable pub perform : Call V → MemoryCache V → MemoryCache V
  perform (get now key) c = (Cache.get now key c).0
  perform (set now key value ttl) c = Cache.set now key value ttl c
  perform (delete key) c = Cache.delete key c
  perform (delete_prefix prefix) c = Cache.delete_prefix prefix c
  perform (tick chosen now) c = janitor_tick chosen now c
  perform stop c = Cache.stop c

  unfoldable pub after : List (Call V) → MemoryCache V → MemoryCache V
  after [] c = c
  after (call ∷ earlier) c = perform call (after earlier c)

  abbrev pub item : ℕ → V → ℤ → CacheItem V
  item now value ttl = record { value = value; expiration = expiration_of now ttl }

  -- What a call does to the entries in order of use, under a bound, with the janitor
  -- stopped or not, and returned or not.
  unfoldable pub promise : Option ℕ → Bool → Bool → Call V → Entries V → Entries V
  promise bound stopped returned (get now key) es = (read now key es).0
  promise bound stopped returned (set now key value ttl) es =
      limit bound (touch key (item now value ttl) es)
  promise bound stopped returned (delete key) es = without key es
  promise bound stopped returned (delete_prefix prefix) es =
      keep (λ n. not (has_prefix n.0 prefix)) es
  promise bound stopped returned (tick chosen now) es =
      if returned || stopped && not chosen then es else keep (λ n. not (expired now n.1)) es
  promise bound stopped returned stop es = es

  -- Every call of a valid cache does to its entries what the cache promises, and keeps the map and
  -- the list in agreement.
  pub view-perform :
      (call : Call V) (c : MemoryCache V)
      → IsValid c
      → (view (perform call c)
          ≡ promise (bound_of c.max_entries) c.stopped c.returned call (view c))
        × Linked (perform call c).table
        × ((perform call c).max_entries ≡ c.max_entries)
  unfolding perform promise Cache.delete_prefix Cache.delete_expired Cache.stop janitor_tick
  view-perform (get now key) c h =
      let (same, _, linked, cap) = get-read c h now key in (same, linked, cap)
  view-perform (set now key value ttl) c h = set-touch c h now key value ttl
  view-perform (delete key) c h = delete-without c h key
  view-perform (delete_prefix prefix) c h =
      let (linked, same) = delete_prefix-keep c h prefix in (same, linked, refl)
  view-perform (tick chosen now) c h =
      let (linked, same) = delete_expired-keep c h now in
      elim (Bool-cases c.returned) [
        | inl off ↦ (ground (arith, off), rw (off, janitor_tick) h.linked, ground (arith, off))
        | inr on ↦ elim (Bool-cases (c.stopped && not chosen)) [
          | inl ends ↦ (
            ground (arith, on, ends),
            rw (on, janitor_tick) (rw ends h.linked),
            ground (arith, on, ends),
          )
          | inr goes ↦ (
            ground (arith, on, goes, same),
            rw (on, janitor_tick) (rw goes linked),
            ground (arith, on, goes),
          )
        ]
      ]
  view-perform stop c h = (refl, h.linked, refl)

  limit-Within : (bound : Option ℕ) (es : Entries V) → Within bound (length (limit bound es))
  limit-Within none es = tt
  limit-Within (some b) es = omega (arith, length-take b es)

  promise-Within :
      (bound : Option ℕ) (stopped returned : Bool) (call : Call V) (es : Entries V)
      → Within bound (length es)
      → Within bound (length (promise bound stopped returned call es))
  unfolding promise
  promise-Within bound stopped returned (get now key) es w =
      Within-mono bound (length (read now key es).0) (length es) (length-read-le now key es) w
  promise-Within bound stopped returned (set now key value ttl) es w =
      limit-Within bound (touch key (item now value ttl) es)
  promise-Within bound stopped returned (delete key) es w =
      Within-mono bound (length (without key es)) (length es) (length-without-le key es) w
  promise-Within bound stopped returned (delete_prefix prefix) es w =
      Within-mono bound _ (length es) (length-keep-le (λ n. not (has_prefix n.0 prefix)) es) w
  promise-Within bound stopped returned (tick chosen now) es w =
      elim (Bool-cases (returned || stopped && not chosen)) [
        | inl idle ↦ rw (idle, promise) w
        | inr busy ↦
            rw (busy, promise)
              (Within-mono bound _ (length es) (length-keep-le (λ n. not (expired now n.1)) es) w)
      ]
  promise-Within bound stopped returned stop es w = w

  perform-IsValid : (call : Call V) (c : MemoryCache V) → IsValid c → IsValid (perform call c)
  perform-IsValid call c h =
      let (same, linked, cap) = view-perform call c h in
      record {
        linked = linked;
        bounded =
            subst₂ (λ (n : ℤ) (es : Entries V). Within (bound_of n) (length es)) (sym cap)
              (sym same)
              (promise-Within (bound_of c.max_entries) c.stopped c.returned call (view c)
                h.bounded);
      }

  pub after-IsValid :
      (history : List (Call V)) (c : MemoryCache V) → IsValid c → IsValid (after history c)
  unfolding after
  after-IsValid [] c h = h
  after-IsValid (call ∷ earlier) c h =
      perform-IsValid call (after earlier c) (after-IsValid earlier c h)
