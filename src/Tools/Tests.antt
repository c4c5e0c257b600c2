-- ===== src/Tools/Tests.antt =====
-- The memory cache of the tools on a small example.
use xktmcp.Prelude.{true, ℕ, ◌≡◌, refl, false, some, List, [], ◌∷◌, nat_eq, list_eq}
use xktmcp.Prelude.Int.{pos}
use xktmcp.Prelude.Text.{codes}
use xktmcp.Lru.Table.{
  Linked, empty, find, move_to_front, remove, push_front, remove_oldest, evict, empty-Linked,
}
use xktmcp.Lru.Sweep.{sweep}
use xktmcp.Lru.Put.{put}
use xktmcp.Tools.Cache
use xktmcp.Tools.Cache.{
  CacheItem, MemoryCache, new_memory_cache_with_options, expired, size, bound_of,
}
use xktmcp.Tools.Cache.Laws.{IsValid, view}
use xktmcp.Tools.Cache.Runs.{Call, set, get, tick, perform, after, promise, view-perform}
use xktmcp.Tools.Cache.Latest.{latest, get-cache_after}
use native.Mathlib.Omega.{arith}

abbrev cache : MemoryCache ℕ
cache = record { table = empty; max_entries = pos 2; stopped = false; returned = false }

abbrev history : List (Call ℕ)
history =
    tick true 35
    ∷ set 30 (codes "wiki:c") 3 (pos 4)
    ∷ get 20 (codes "a")
    ∷ set 11 (codes "wiki:b") 2 (pos 50)
    ∷ set 10 (codes "a") 1 (pos 90)
    ∷ []

cache-IsValid : IsValid cache
cache-IsValid = record { linked = empty-Linked; bounded = omega arith }

view-perform_example :
    let c = perform (set 10 (codes "a") 1 (pos 90)) cache in
    (view c ≡ (codes "a", record { value = 1; expiration = 100 }) ∷ [])
    × Linked c.table
    × (c.max_entries ≡ pos 2)
unfolding promise
view-perform_example = view-perform (set 10 (codes "a") 1 (pos 90)) cache cache-IsValid

get-cache_after_example :
    (it : CacheItem ℕ) × (latest (codes "a") history ≡ some it)
    × (it.value ≡ 1)
    × (expired 40 it ≡ false)
unfolding new_memory_cache_with_options perform after Cache.get Cache.set Cache.janitor_tick
    Cache.delete_expired find move_to_front remove push_front remove_oldest evict sweep put
get-cache_after_example = get-cache_after (pos 2) history 40 (codes "a") 1 refl
