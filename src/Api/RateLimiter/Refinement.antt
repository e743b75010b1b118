-- ===== src/Api/RateLimiter/Refinement.antt =====
-- The limiter behaves as if no bucket were ever swept away: its buckets are a map from keys to
-- live counts, and the sweep cannot be observed.
use legacy_store.Base.{
  ℕ, ◌+◌, ◌<◌, ◌≡◌, refl, arith, Bool, true, false, List, Option, none, some, Text, leb, ltb,
  length, if◌then◌else◌, eqb, eqb_iff, Bool-cases, lt→ltb, inl, inr,
}
use legacy_store.Base.Dict.{
  lookup, insert, lookup-insert, lookup-keep, filtered, HasKeysOnce, insert-HasKeysOnce,
  keep-HasKeysOnce,
}
use legacy_store.Api.RateLimiter.{
  RateBucket, Limiter, is_live, fresh, sweep, open_bucket, use_bucket, allow_at, allow,
}

pub record IsValid (l : Limiter) : Type 0 where
  pub keys_once : HasKeysOnce l.buckets
  pub window_pos : 0 < l.window

-- The abstract state at a time: the bucket of each key whose window is still open.
abbrev pub live : Limiter → ℕ → Text → Option RateBucket
live l now key = filtered (is_live now) (lookup key l.buckets)

-- What a call does to its own bucket, and what it answers.
abbrev pub spend : Limiter → ℕ → Option RateBucket → Option RateBucket × Bool
spend l now none = (some (fresh l now), true)
spend l now (some b) =
    if leb l.limit b.count then (some b, false) else (some (record b { count = b.count + 1 }), true)

sweep-HasKeysOnce :
    (now : ℕ) (m : List (Text × RateBucket)) → HasKeysOnce m → HasKeysOnce (sweep now m)
unfolding sweep
sweep-HasKeysOnce now m h = elim (Bool-cases (ltb 4096 (length m))) [
  | inl e ↦ rw e (keep-HasKeysOnce (is_live now) m h)
  | inr e ↦ rw e h
]

sweep-live :
    (now : ℕ) (k : Text) (m : List (Text × RateBucket))
    → HasKeysOnce m
    → filtered (is_live now) (lookup k (sweep now m)) ≡ filtered (is_live now) (lookup k m)
unfolding sweep
sweep-live now k m h = elim (Bool-cases (ltb 4096 (length m))) [
  | inl e ↦ rw e (rw (lookup-keep (is_live now) k m h) (ground arith))
  | inr e ↦ rw e
]

module _ (l : Limiter) (key : Text) (now : ℕ) (v : IsValid l) where
  open_bucket-IsValid : IsValid (open_bucket l key now).0
  unfolding open_bucket
  open_bucket-IsValid = record {
    keys_once = insert-HasKeysOnce key (fresh l now) l.buckets v.keys_once;
    window_pos = v.window_pos;
  }

  use_bucket-IsValid : (b : RateBucket) → IsValid (use_bucket l key now b).0
  unfolding use_bucket
  use_bucket-IsValid b = elim (Bool-cases (leb l.limit b.count)) [
    | inl e ↦ rw e v
    | inr e ↦ rw e (record {
      keys_once = sweep-HasKeysOnce now _ (insert-HasKeysOnce key _ l.buckets v.keys_once);
      window_pos = v.window_pos;
    })
  ]

  allow_at-IsValid : (o : Option RateBucket) → IsValid (allow_at l key now o).0
  unfolding allow_at
  allow_at-IsValid none = open_bucket-IsValid
  allow_at-IsValid (some b) = elim (Bool-cases (is_live now b)) [
    | inl e ↦ rw e (use_bucket-IsValid b)
    | inr e ↦ rw e open_bucket-IsValid
  ]

  -- `Allow` keeps a limiter valid: every key has at most one bucket, and the window is positive.
  pub allow-IsValid : IsValid (allow l key now).0
  unfolding allow
  allow-IsValid = allow_at-IsValid (lookup key l.buckets)

  -- What the client sees of one call: the answer, and the live bucket of every key afterwards.
  abbrev pub Refines : Limiter × Bool → Option RateBucket → Type 0
  Refines result before =
      (result.1 ≡ (spend l now before).1)
      × ((k : Text)
          → live result.0 now k ≡ (if eqb key k then (spend l now before).0 else live l now k))

  open_bucket-Refines : Refines (open_bucket l key now) none
  unfolding open_bucket
  open_bucket-Refines = (
    refl,
    λ k.
        let opened : is_live now (fresh l now) ≡ true = lt→ltb _ _ (omega (arith, v.window_pos)) in
        ground (arith, lookup-insert key k (fresh l now) l.buckets, opened),
  )

  use_bucket-Refines :
      (b : RateBucket)
      → lookup key l.buckets ≡ some b
      → is_live now b ≡ true
      → Refines (use_bucket l key now b) (some b)
  unfolding use_bucket
  use_bucket-Refines b e alive = elim (Bool-cases (leb l.limit b.count)) [
    | inl full ↦ rw full (refl, λ k. ground (arith, eqb_iff key k))
    | inr free ↦ rw free (
      refl,
      λ k.
          let b' = record b { count = b.count + 1 } in
          ground (
            arith,
            sweep-live now k (insert key b' l.buckets)
                (insert-HasKeysOnce key b' l.buckets v.keys_once),
            lookup-insert key k b' l.buckets,
          ),
    )
  ]

  allow_at-Refines :
      (o : Option RateBucket)
      → lookup key l.buckets ≡ o
      → Refines (allow_at l key now o) (filtered (is_live now) o)
  unfolding allow_at
  allow_at-Refines none e = open_bucket-Refines
  allow_at-Refines (some b) e = elim (Bool-cases (is_live now b)) [
    | inl alive ↦ rw alive (use_bucket-Refines b e alive)
    | inr dead ↦ rw dead open_bucket-Refines
  ]

  -- A call of `Allow` of a valid limiter answers, and changes the live buckets, as if no bucket
  -- were ever swept away: its own bucket is opened or counted up, and those of the other keys
  -- stay.
  pub allow-Refines : Refines (allow l key now) (live l now key)
  unfolding allow
  allow-Refines = allow_at-Refines (lookup key l.buckets) refl
