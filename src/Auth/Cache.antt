-- ===== src/Auth/Cache.antt =====
-- internal/auth/cache.go: the cache of remote verification results. `c.now()` is the argument `now`
-- of each method, in nanoseconds since Go's zero time, so that `IsZero` is the test for 0.
pub mod Laws
pub mod Runs
use xktmcp.Prelude.{
  ℕ, zero, suc, Bool, true, false, not, ◌&&◌, Option, none, some, ltb, ◌==◌, nat_eq, list_eq,
  if◌then◌else◌, length,
}
use xktmcp.Prelude.Int.{ℤ, pos, negsuc}
use xktmcp.Prelude.Text.{Text}
use xktmcp.Lru.Table.{Table, empty, len, find, assign, move_to_front, remove, push_front, evict}
use xktmcp.Lru.Sweep.{sweep}
use xktmcp.Lru.Put.{put}

pub record CacheEntry : Type 0 where
  pub ok : Bool
  pub exp : ℕ
  pub user_id : Text

pub record VerificationCache : Type 0 where
  pub table : Table Text CacheEntry
  pub max_entries : ℕ

-- `none` is the panic.
unfoldable pub new_verification_cache : ℤ → Option VerificationCache
new_verification_cache (pos zero) = none
new_verification_cache (pos (suc n)) = some (record { table = empty; max_entries = suc n })
new_verification_cache (negsuc n) = none

-- !exp.IsZero() && !now.Before(exp)
abbrev pub is_stale : ℕ → CacheEntry → Bool
is_stale now entry = not (entry.exp == 0) && not (ltb now entry.exp)

-- `none` stands for `(cacheEntry{}, false)`.
unfoldable pub get : ℕ → Text → VerificationCache → VerificationCache × Option CacheEntry
get now key c = elim (find key c.table) [
  | none ↦ (c, none)
  | some el ↦
      if is_stale now el.1
      then (record c { table = remove key el.0 c.table }, none)
      else (record c { table = move_to_front el.0 c.table }, some el.1)
]

unfoldable pub set : ℕ → Text → CacheEntry → VerificationCache → VerificationCache
set now key entry c =
    let fresh : Table Text CacheEntry = sweep (λ k it. is_stale now it) c.table.items c.table in
    record c { table = put (some c.max_entries) key entry fresh }

-- Len() is the size of the map.
unfoldable pub size : VerificationCache → ℕ
size c = length c.table.items
