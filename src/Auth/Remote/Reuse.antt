-- ===== src/Auth/Remote/Reuse.antt =====
-- A verification that is done again.
use xktmcp.Auth.Cache.{VerificationCache, CacheEntry}
use xktmcp.Prelude.{
  ◌∙◌, inl, ap, arith, some, inr, false, ◌<◌, true, ◌≡◌, ◌+◌, if◌then◌else◌, ℕ, Option,
}
use xktmcp.Prelude.Text.{Text}
use xktmcp.Auth.Limiter.{Float}
use xktmcp.Auth.Remote
use xktmcp.Auth.Cache
use xktmcp.Auth.Cache.Laws.{IsValid}
use xktmcp.Auth.Cache.Runs.{get-IsValid, get-set}
use xktmcp.Prelude.{Option-cases}
use xktmcp.Auth.Remote.{
  some, false, true, CacheEntry, ℕ, Option, Text, Float, Limits, Verifier, Verdict, Answer,
  do_remote_call,
}

module _ (f : Float) (limits : Limits f) (hash_token : Text → Text)
    (endpoint : Text → Option Answer) where
  -- What a call of the endpoint leaves in the cache.
  abbrev ttl_of : Text → ℕ
  ttl_of token =
      if (do_remote_call endpoint token).0 then limits.positive_ttl else limits.negative_ttl

  abbrev entry_of : ℕ → Text → CacheEntry
  entry_of later token = record {
    ok = (do_remote_call endpoint token).0;
    exp = later + ttl_of token;
    user_id = (do_remote_call endpoint token).1;
  }

  -- A verification that called the endpoint left its answer in a cache that is as good as the one before.
  call_cached :
      (now later : ℕ) (token client_ip : Text) (v : Verifier f)
      → IsValid v.cache
      → (Remote.verify_remote f limits hash_token endpoint now later token client_ip v).1.called
        ≡ true
      → (c : VerificationCache) × IsValid c
        × ((Remote.verify_remote f limits hash_token endpoint now later token client_ip v).0.cache
            ≡ Cache.set later (hash_token token) (entry_of later token) c)
        × ((Remote.verify_remote f limits hash_token endpoint now later token client_ip v).1
            ≡ record {
              ok = (do_remote_call endpoint token).0;
              user_id = (do_remote_call endpoint token).1;
              called = true;
            })
  unfolding Remote.verify_remote Remote.verify_uncached Remote.limited_call Remote.call_and_store
  call_cached now later token client_ip v ok h =
      let key = hash_token token in
      let looked = Cache.get now key v.cache in
      let kept = get-IsValid now key v.cache ok in
      elim (Option-cases looked.1) [
        | inr (e, hit) ↦ absurd (ground (arith, h, hit))
        | inl miss ↦ (looked.0, kept, ground (arith, h, miss), ground (arith, h, miss))
      ]

  -- A token that was verified by a call of the endpoint is verified again before the entry expires:
  -- the answer is the same, and the endpoint is not called.
  pub verify_remote-again :
      (now later again after : ℕ) (token client_ip other_ip : Text) (v : Verifier f)
      → IsValid v.cache
      → (Remote.verify_remote f limits hash_token endpoint now later token client_ip v).1.called
        ≡ true
      → again < later + ttl_of token
      → (Remote.verify_remote f limits hash_token endpoint again after token other_ip
          (Remote.verify_remote f limits hash_token endpoint now later token client_ip v).0).1
        ≡ record (Remote.verify_remote f limits hash_token endpoint now later token client_ip v).1 {
          called = false;
        }
  unfolding Remote.verify_remote
  verify_remote-again now later again after token client_ip other_ip v valid called early =
      let one = Remote.verify_remote f limits hash_token endpoint now later token client_ip v in
      let key = hash_token token in
      let entry = entry_of later token in
      let (c, kept, stored, answer) = call_cached now later token client_ip v valid called in
      let hit : (Cache.get again key one.0.cache).1 ≡ some entry =
        ap (λ k. (Cache.get again key k).1) stored
        ∙ get-set c later again key entry kept
        ∙ ground (arith, early) in
      ground (arith, hit, answer)
