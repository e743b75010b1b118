-- ===== src/Api/RateLimiter/Full.antt =====
-- When the limiter refuses a call.
use legacy_store.Base.{
  ℕ, ◌<◌, ◌≤◌, ◌≡◌, ◌↔◌, refl, arith, true, false, none, some, Text, Option-cases, inl, inr,
}
use legacy_store.Base.Dict.{lookup}
use legacy_store.Api.RateLimiter.{RateBucket, Limiter, open_bucket, use_bucket, allow_at, allow}

-- The window of the key's bucket is open, and the calls of that window are used up.
abbrev pub IsFull : Limiter → Text → ℕ → Type 0
IsFull l key now =
    (b : RateBucket) × (lookup key l.buckets ≡ some b) × (now < b.reset_time) × (l.limit ≤ b.count)

module _ (l : Limiter) (key : Text) (now : ℕ) where
  allow_at-refuses :
      (b : RateBucket)
      → ((allow_at l key now (some b)).1 ≡ false) ↔ ((now < b.reset_time) × (l.limit ≤ b.count))
  unfolding allow_at open_bucket use_bucket
  allow_at-refuses b = (λ h. (ground arith, ground arith), λ h. ground arith)

  allow_at-opens : (allow_at l key now none).1 ≡ true
  unfolding allow_at open_bucket
  allow_at-opens = refl

  pub allow-refuses : ((allow l key now).1 ≡ false) ↔ IsFull l key now
  unfolding allow
  allow-refuses = elim (Option-cases (lookup key l.buckets)) [
    | inl e ↦ (
      λ h. absurd (let opens = allow_at-opens in let shut = rw (e, allow) at h in ground arith),
      λ h. absurd (let (b, f, t, c) = h in ground arith),
    )
    | inr (b, e) ↦ (
      λ h. let (t, c) = (allow_at-refuses b).0 (rw (e, allow) at h) in (b, e, t, c),
      λ h.
          let (b', e', t, c) = h in
          let same : b ≡ b' = ground arith in
          rw (e, allow) ((allow_at-refuses b).1 (rw same (t, c))),
    )
  ]
