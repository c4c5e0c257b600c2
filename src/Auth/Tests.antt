-- ===== src/Auth/Tests.antt =====
-- The cache of verification results on a small example.
use xktmcp.Prelude.{◌≡◌, refl, nat_eq, list_eq, true, false, some, List, [], ◌∷◌}
use xktmcp.Prelude.Int.{pos}
use xktmcp.Prelude.Text.{codes}
use xktmcp.Lru.Table.{
  empty, find, move_to_front, remove, push_front, remove_oldest, evict, empty-Linked,
}
use xktmcp.Lru.Sweep.{sweep}
use xktmcp.Lru.Put.{put}
use xktmcp.Auth.Cache
use xktmcp.Auth.Cache.{CacheEntry, VerificationCache, new_verification_cache, is_stale, size}
use xktmcp.Auth.Cache.Laws.{IsValid}
use xktmcp.Auth.Cache.Runs.{Call, set, get, perform, after, latest, get-after-latest, get-set}
use native.Mathlib.Omega.{arith}

abbrev cache : VerificationCache
cache = record { table = empty; max_entries = 2 }

abbrev alice : CacheEntry
alice = record { ok = true; exp = 100; user_id = codes "alice" }

abbrev denied : CacheEntry
denied = record { ok = false; exp = 12; user_id = [] }

abbrev history : List Call
history =
    set 30 (codes "c") denied
    ∷ get 20 (codes "a")
    ∷ set 11 (codes "b") denied
    ∷ set 10 (codes "a") alice
    ∷ []

get-after-latest_example : (latest (codes "a") history ≡ some alice) × (is_stale 40 alice ≡ false)
unfolding new_verification_cache perform after Cache.get Cache.set find move_to_front remove
    push_front remove_oldest evict sweep put
get-after-latest_example = get-after-latest (pos 2) cache refl history 40 (codes "a") alice refl

cache-IsValid : IsValid cache
cache-IsValid = record { linked = empty-Linked; bounded = omega arith; positive = omega arith }

get-set_example : (Cache.get 99 (codes "a") (Cache.set 10 (codes "a") alice cache)).1 ≡ some alice
get-set_example = get-set cache 10 99 (codes "a") alice cache-IsValid
