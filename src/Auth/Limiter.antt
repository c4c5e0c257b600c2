-- ===== src/Auth/Limiter.antt =====
-- internal/auth/auth.go: the token buckets, one for each tenant (tenantLimiter), one for all remote
-- calls (allowRemoteCallLocked) and one for each client address (ipRateLimiterPool). The arithmetic on
-- float64 is a parameter; times are in nanoseconds and do not go back.
pub mod Bursts
pub mod Pool
use xktmcp.Prelude.{
  ℕ, zero, suc, ◌+◌, ◌-◌, ◌<◌, ◌^◌, ◌≡◌, Bool, true, false, not, ◌||◌, Option, none, some, List, [],
  ◌∷◌, leb, ltb, ◌==◌, nat_eq, list_eq, if◌then◌else◌, length,
}
use xktmcp.Prelude.Int.{ℤ, pos, negsuc, positive_or}
use xktmcp.Prelude.Text.{Text}
use xktmcp.Lru.Table.{Table, empty, len, find, assign, move_to_front, push_front, evict}

-- float64: `of_int` is the conversion, `earned` is elapsed.Seconds() * rps, `decrement` is `x - 1`, and
-- `is_finite` tells a number from an infinity or NaN.
pub record Float : Type 1 where
  pub Amount : Type 0
  pub of_int : ℕ → Amount
  pub add : Amount → Amount → Amount
  pub decrement : Amount → Amount
  pub earned : ℕ → Amount → Amount
  pub exceeds : Amount → Amount → Bool
  pub at_least_one : Amount → Bool
  pub at_most_zero : Amount → Bool
  pub is_finite : Amount → Bool

abbrev pub exact_below : ℕ
exact_below = 9_007_199_254_740_992

-- What is used of float64: nothing exceeds itself, nor exceeds a bound after 1 is taken away if it did
-- not before (NaN exceeds nothing), integers below 2^53 are exact, and such an integer keeps its value
-- when a finite rate earns in no time, which is a zero of either sign.
pub record IsFloat (f : Float) : Type 0 where
  pub exceeds_self : (x : f.Amount) → f.exceeds x x ≡ false
  pub exceeds-decrement :
      (x m : f.Amount) → f.exceeds x m ≡ false → f.exceeds (f.decrement x) m ≡ false
  pub earned_zero :
      (n : ℕ) (rate : f.Amount)
      → n < exact_below
      → f.is_finite rate ≡ true
      → f.add (f.of_int n) (f.earned 0 rate) ≡ f.of_int n
  pub exceeds-of_int :
      (m n : ℕ) → m < exact_below → n < exact_below → f.exceeds (f.of_int m) (f.of_int n) ≡ ltb n m
  pub one-of_int : (n : ℕ) → n < exact_below → f.at_least_one (f.of_int n) ≡ leb 1 n
  pub decrement-of_int : (n : ℕ) → suc n < exact_below → f.decrement (f.of_int (suc n)) ≡ f.of_int n

module _ (f : Float) where
  -- The state of a bucket: what is in it, and when it was last filled.
  pub record Bucket : Type 0 where
    pub amount : f.Amount
    pub last_ref : ℕ

  -- if bucket > float64(burst) { bucket = float64(burst) }
  unfoldable pub clamp : ℕ → f.Amount → f.Amount
  clamp burst x = if f.exceeds x (f.of_int burst) then f.of_int burst else x

  -- bucket += elapsed * rps, and the clamp
  unfoldable pub filled : ℕ → f.Amount → ℕ → Bucket → f.Amount
  unfolding clamp
  filled now rps burst b = clamp burst (f.add b.amount (f.earned (now - b.last_ref) rps))

  -- tenantLimiter.Allow
  unfoldable pub allow : ℕ → f.Amount → ℕ → Bucket → Bucket × Bool
  unfolding filled
  allow now rps burst b =
      if f.at_least_one (filled now rps burst b)
      then (record { amount = f.decrement (filled now rps burst b); last_ref = now }, true)
      else (record { amount = filled now rps burst b; last_ref = now }, false)

  -- newTenantLimiter
  unfoldable pub new_limiter : ℕ → ℕ → Bucket
  new_limiter now burst = record { amount = f.of_int burst; last_ref = now }

  -- ipRateLimiterPool; an item's key is the list's.
  pub record IpPool : Type 0 where
    pub table : Table Text Bucket
    pub max_entries : ℕ
    pub rps : f.Amount
    pub burst : ℤ

  unfoldable pub new_ip_pool : ℤ → f.Amount → ℤ → IpPool
  new_ip_pool max_entries rps burst = record {
    table = empty;
    max_entries = positive_or max_entries 4096;
    rps = rps;
    burst = burst;
  }

  -- `Allow` of an address that the pool has, at the list's address `a`.
  unfoldable pub reuse : ℕ → ℕ → ℕ → Bucket → IpPool → IpPool × Bool
  unfolding allow
  reuse now burst a item p = (
    record p { table = assign a (allow now p.rps burst item).0 (move_to_front a p.table) },
    (allow now p.rps burst item).1,
  )

  -- `Allow` of an address that it does not have.
  unfoldable pub admit : ℕ → ℕ → Text → IpPool → IpPool × Bool
  admit now burst ip p =
      let item : Bucket = record { amount = f.decrement (f.of_int burst); last_ref = now } in
      let pushed : Table Text Bucket = push_front ip item p.table in
      (record p { table = evict (len pushed) p.max_entries pushed }, true)

  unfoldable pub allow_below : ℕ → ℕ → Text → IpPool → IpPool × Bool
  unfolding reuse admit
  allow_below now burst ip p = elim (find ip p.table) [
    | none ↦ admit now burst ip p
    | some el ↦ reuse now burst el.0 el.1 p
  ]

  -- ipRateLimiterPool.Allow
  unfoldable pub allow_ip : ℕ → Text → IpPool → IpPool × Bool
  unfolding allow_below
  allow_ip now ip p = elim p.burst [
    | pos zero ↦ (p, true)
    | negsuc n ↦ (p, true)
    | pos (suc n) ↦ if ip == [] then (p, true) else allow_below now (suc n) ip p
  ]
