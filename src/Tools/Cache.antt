-- ===== src/Tools/Cache.antt =====
-- internal/tools/cache.go: the memory cache of the tools. `time.Now()` is the argument `now`, in
-- nanoseconds since Go's zero time. The values (`any`) are of a type `V`.
pub mod Laws
pub mod Runs
pub mod Latest
use xktmcp.Prelude.{
  ℕ, zero, suc, ◌+◌, Bool, true, false, not, ◌&&◌, Option, none, some, ltb, ◌==◌, nat_eq, list_eq,
  Eq, if◌then◌else◌,
}
use xktmcp.Prelude.Int.{ℤ, pos, negsuc}
use xktmcp.Prelude.Text.{Text, has_prefix}
use xktmcp.Lru.Table.{Table, empty, len, find, move_to_front, remove}
use xktmcp.Lru.Sweep.{sweep}
use xktmcp.Lru.Put.{put}

pub record CacheItem (V : Type 0) : Type 0 where
  pub value : V
  pub expiration : ℕ

-- `stopped` tells whether the channel of the janitor is closed, `returned` whether the janitor is over.
pub record MemoryCache (V : Type 0) : Type 0 where
  pub table : Table Text (CacheItem V)
  pub max_entries : ℤ
  pub stopped : Bool
  pub returned : Bool

-- `maxEntries <= 0` sets no bound.
abbrev pub bound_of : ℤ → Option ℕ
bound_of (pos zero) = none
bound_of (pos (suc n)) = some (suc n)
bound_of (negsuc n) = none

abbrev pub expiration_of : ℕ → ℤ → ℕ
expiration_of now (pos zero) = 0
expiration_of now (pos (suc n)) = now + suc n
expiration_of now (negsuc n) = 0

module _ {V : Type 0} where
  abbrev pub expired : ℕ → CacheItem V → Bool
  expired now it = not (it.expiration == 0) && ltb it.expiration now

  unfoldable pub new_memory_cache_with_options : ℤ → MemoryCache V
  new_memory_cache_with_options max_entries = record {
    table = empty;
    max_entries = max_entries;
    stopped = false;
    returned = false;
  }

  unfoldable pub get : ℕ → Text → MemoryCache V → MemoryCache V × Option V
  get now key c = elim (find key c.table) [
    | none ↦ (c, none)
    | some el ↦
        if expired now el.1
        then (record c { table = remove key el.0 c.table }, none)
        else (record c { table = move_to_front el.0 c.table }, some el.1.value)
  ]

  unfoldable pub set : ℕ → Text → V → ℤ → MemoryCache V → MemoryCache V
  set now key value ttl c =
      let it : CacheItem V = record { value = value; expiration = expiration_of now ttl } in
      record c { table = put (bound_of c.max_entries) key it c.table }

  unfoldable pub delete : Text → MemoryCache V → MemoryCache V
  delete key c = elim (find key c.table) [
    | none ↦ c
    | some el ↦ record c { table = remove key el.0 c.table }
  ]

  unfoldable pub delete_prefix : Text → MemoryCache V → MemoryCache V
  delete_prefix prefix c = record c {
    table = sweep (λ key it. has_prefix key prefix) c.table.items c.table;
  }

  -- Len() is the length of the list.
  unfoldable pub size : MemoryCache V → ℕ
  size c = len c.table

  unfoldable pub stop : MemoryCache V → MemoryCache V
  stop c = record c { stopped = true }

  unfoldable pub delete_expired : ℕ → MemoryCache V → MemoryCache V
  delete_expired now c = record c { table = sweep (λ key it. expired now it) c.table.items c.table }

  -- One turn of the janitor's loop, when a tick is there: `chosen` tells whether the select takes it
  -- where the channel is closed as well.
  unfoldable pub janitor_tick : Bool → ℕ → MemoryCache V → MemoryCache V
  unfolding delete_expired
  janitor_tick chosen now c =
      if c.returned
      then c
      else if c.stopped && not chosen
      then record c { returned = true }
      else delete_expired now c
