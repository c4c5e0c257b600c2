-- ===== src/Auth/Limiter/Bursts.antt =====
-- How many requests a bucket lets through.
use xktmcp.Prelude.{
  ℕ, zero, suc, ◌+◌, ◌<◌, ◌≤◌, ◌≡◌, ◌∙◌, ap, refl, inl, inr, true, false, min, arith, if◌then◌else◌,
  Bool-cases,
}
use xktmcp.Auth.Limiter
use xktmcp.Auth.Limiter.{Float, IsFloat, Bucket, exact_below}

module _ (f : Float) where
  -- The answers of `n` calls at one time that are "yes".
  pub passed : ℕ → ℕ → f.Amount → ℕ → Bucket f → ℕ
  passed zero now rps burst b = 0
  passed (suc n) now rps burst b =
      (if (Limiter.allow f now rps burst b).1 then 1 else 0)
      + passed n now rps burst (Limiter.allow f now rps burst b).0

module _ (f : Float) (laws : IsFloat f) where
  clamp-exceeds :
      (burst : ℕ) (x : f.Amount) → f.exceeds (Limiter.clamp f burst x) (f.of_int burst) ≡ false
  unfolding Limiter.clamp
  clamp-exceeds burst x = elim (Bool-cases (f.exceeds x (f.of_int burst))) [
    | inl over ↦ rw over (laws.exceeds_self (f.of_int burst))
    | inr under ↦ rw under under
  ]

  -- After any call a bucket holds no more than the burst.
  pub allow-exceeds :
      (now : ℕ) (rps : f.Amount) (burst : ℕ) (b : Bucket f)
      → f.exceeds (Limiter.allow f now rps burst b).0.amount (f.of_int burst) ≡ false
  unfolding Limiter.allow Limiter.filled
  allow-exceeds now rps burst b =
      elim (Bool-cases (f.at_least_one (Limiter.filled f now rps burst b))) [
        | inl rich ↦ rw rich (laws.exceeds-decrement _ _ (clamp-exceeds burst _))
        | inr poor ↦ rw poor (clamp-exceeds burst _)
      ]

  filled_at_once :
      (now : ℕ) (rps : f.Amount) (burst k : ℕ)
      → k ≤ burst
      → burst < exact_below
      → f.is_finite rps ≡ true
      → Limiter.filled f now rps burst (record { amount = f.of_int k; last_ref = now }) ≡ f.of_int k
  unfolding Limiter.filled Limiter.clamp
  filled_at_once now rps burst k few exact finite =
      let under : f.exceeds (f.of_int k) (f.of_int burst) ≡ false =
        laws.exceeds-of_int k burst (omega arith) exact ∙ ground arith in
      ap (λ t. Limiter.clamp f burst (f.add (f.of_int k) (f.earned t rps))) (omega arith)
      ∙ ap (Limiter.clamp f burst) (laws.earned_zero k rps (omega arith) finite)
      ∙ rw under refl

  allow_empty :
      (now : ℕ) (rps : f.Amount) (burst : ℕ)
      → burst < exact_below
      → f.is_finite rps ≡ true
      → Limiter.allow f now rps burst (record { amount = f.of_int 0; last_ref = now })
        ≡ (record { amount = f.of_int 0; last_ref = now }, false)
  unfolding Limiter.allow
  allow_empty now rps burst exact finite =
      rw (filled_at_once now rps burst 0 (omega arith) exact finite)
        (rw (laws.one-of_int 0 (omega arith)) refl)

  allow_more :
      (now : ℕ) (rps : f.Amount) (burst k : ℕ)
      → suc k ≤ burst
      → burst < exact_below
      → f.is_finite rps ≡ true
      → Limiter.allow f now rps burst (record { amount = f.of_int (suc k); last_ref = now })
        ≡ (record { amount = f.of_int k; last_ref = now }, true)
  unfolding Limiter.allow
  allow_more now rps burst k few exact finite =
      let rich : f.at_least_one (f.of_int (suc k)) ≡ true =
        laws.one-of_int (suc k) (omega arith) ∙ ground arith in
      rw (filled_at_once now rps burst (suc k) few exact finite)
        (rw rich (rw (laws.decrement-of_int k (omega arith)) refl))

  passed_at_once :
      (n now : ℕ) (rps : f.Amount) (burst k : ℕ)
      → k ≤ burst
      → burst < exact_below
      → f.is_finite rps ≡ true
      → passed f n now rps burst (record { amount = f.of_int k; last_ref = now }) ≡ min n k
  unfolding passed
  passed_at_once zero now rps burst k few exact finite = omega arith
  passed_at_once (suc n) now rps burst zero few exact finite =
      rw (allow_empty now rps burst exact finite)
        (omega (arith, passed_at_once n now rps burst 0 (omega arith) exact finite))
  passed_at_once (suc n) now rps burst (suc k) few exact finite =
      rw (allow_more now rps burst k few exact finite)
        (omega (arith, passed_at_once n now rps burst k (omega arith) exact finite))

  -- Of any number of requests at the moment when a limiter is created, exactly as many pass as its
  -- burst, or all if they are fewer, for a burst below 2^53 and a finite rate.
  pub passed-new_limiter :
      (n now : ℕ) (rps : f.Amount) (burst : ℕ)
      → burst < exact_below
      → f.is_finite rps ≡ true
      → passed f n now rps burst (Limiter.new_limiter f now burst) ≡ min n burst
  unfolding Limiter.new_limiter
  passed-new_limiter n now rps burst exact finite =
      passed_at_once n now rps burst burst (omega arith) exact finite
