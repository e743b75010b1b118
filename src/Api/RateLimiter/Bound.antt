-- ===== src/Api/RateLimiter/Bound.antt =====
-- How many calls one window lets through.
use Prim.Native.Nat.{min}
use legacy_store.Base.{
  ℕ, ◌+◌, ◌-◌, ◌<◌, ◌≡◌, refl, arith, Bool, true, false, not, ◌&&◌, List, [], ◌∷◌, Option, none,
  some, Text, leb, if◌then◌else◌, eqb, eqb_iff, Bool-cases, All, inl, inr, lt→ltb,
}
use legacy_store.Base.Dict.{lookup, filtered}
use legacy_store.Api.RateLimiter.{RateBucket, Limiter, is_live, fresh, allow_at, allow}
use legacy_store.Api.RateLimiter.Refinement.{IsValid, live, allow-IsValid, allow-Refines}

-- Calls, each with its key and its time, in the order in which the mutex admits them.
abbrev pub Calls : Type 0
Calls = List (Text × ℕ)

abbrev one_if : Bool → ℕ
one_if b = if b then 1 else 0

-- How many calls for `key` there are, and how many of them are let through from a state.
unfoldable pub calls : Text → Calls → ℕ
calls key [] = 0
calls key ((k, now) ∷ es) = one_if (eqb k key) + calls key es

unfoldable pub allowed : Limiter → Text → Calls → ℕ
allowed l key [] = 0
allowed l key ((k, now) ∷ es) =
    one_if (eqb k key && (allow l k now).1) + allowed (allow l k now).0 key es

allow_at-limit :
    (l : Limiter) (k : Text) (now : ℕ) (o : Option RateBucket)
    → ((allow_at l k now o).0.limit ≡ l.limit) × ((allow_at l k now o).0.window ≡ l.window)
unfolding allow_at
allow_at-limit l k now none = (refl, refl)
allow_at-limit l k now (some b) = (ground arith, ground arith)

allow-limit : (l : Limiter) (k : Text) (now : ℕ) → (allow l k now).0.limit ≡ l.limit
unfolding allow
allow-limit l k now = (allow_at-limit l k now (lookup k l.buckets)).0

filtered-some :
    {V : Type 0} (p : V → Bool) (o : Option V) {v : V} → filtered p o ≡ some v → o ≡ some v
filtered-some p none h = cc
filtered-some p (some w) h = ground arith

abbrev counted : Limiter → RateBucket → RateBucket
counted l b = if leb l.limit b.count then b else record b { count = b.count + 1 }

-- The bucket of `key` stays in place while its window is open, and counts what is let through.
step-same :
    (l : Limiter) (key : Text) (now : ℕ) (b : RateBucket)
    → IsValid l
    → lookup key l.buckets ≡ some b
    → now < b.reset_time
    → ((allow l key now).1 ≡ not (leb l.limit b.count))
      × (lookup key (allow l key now).0.buckets ≡ some (counted l b))
step-same l key now b v e t =
    let (answer, after) = allow-Refines l key now v in
    let alive : is_live now b ≡ true = lt→ltb now b.reset_time t in
    let before : live l now key ≡ some b = ground arith in
    let same : eqb key key ≡ true = (eqb_iff key key).1 refl in
    let left : live (allow l key now).0 now key ≡ some (counted l b) = ground (arith, after key) in
    (ground arith, filtered-some (is_live now) _ left)

step-other :
    (l : Limiter) (k key : Text) (now : ℕ) (b : RateBucket)
    → IsValid l
    → eqb k key ≡ false
    → lookup key l.buckets ≡ some b
    → now < b.reset_time
    → lookup key (allow l k now).0.buckets ≡ some b
step-other l k key now b v ne e t =
    let (answer, after) = allow-Refines l k now v in
    let alive : is_live now b ≡ true = lt→ltb now b.reset_time t in
    let before : live l now key ≡ some b = ground arith in
    let left : live (allow l k now).0 now key ≡ some b = ground (arith, after key) in
    filtered-some (is_live now) _ left

abbrev pub AreBefore : ℕ → Calls → Type 0
AreBefore t es = All (λ e. e.1 < t) es

-- While a bucket's window is open, its key gets exactly what is left of the limit.
allowed-open :
    (l : Limiter) (key : Text) (b : RateBucket) (es : Calls)
    → IsValid l
    → lookup key l.buckets ≡ some b
    → AreBefore b.reset_time es
    → allowed l key es ≡ min (calls key es) (l.limit - b.count)
unfolding allowed calls
allowed-open l key b [] v e h = omega arith
allowed-open l key b ((k, now) ∷ es) v e (t, h) = elim (Bool-cases (eqb k key)) [
  | inl same ↦
      let k-is : k ≡ key = (eqb_iff k key).0 same in
      let self : eqb key key ≡ true = (eqb_iff key key).1 refl in
      let (answer, after) = step-same l key now b v e t in
      let lim = allow-limit l key now in
      let valid = allow-IsValid l key now v in
      rw k-is (elim (Bool-cases (leb l.limit b.count)) [
        | inl full ↦
            let stays : lookup key (allow l key now).0.buckets ≡ some b = ground arith in
            let ih = allowed-open (allow l key now).0 key b es valid stays h in ground arith
        | inr free ↦
            let b' = record b { count = b.count + 1 } in
            let grows : lookup key (allow l key now).0.buckets ≡ some b' = ground arith in
            let ih = allowed-open (allow l key now).0 key b' es valid grows h in ground arith
      ])
  | inr other ↦
      let ih =
        allowed-open (allow l k now).0 key b es (allow-IsValid l k now v)
          (step-other l k key now b v other e t) h in
      let lim = allow-limit l k now in ground arith
]

-- In a valid limiter with a positive limit, from the call that opens a key's window to the
-- window's end, the key gets exactly as many calls through as it makes, up to the limit, whatever
-- the calls for other keys.
pub allowed_in_window :
    (l : Limiter) (key : Text) (now : ℕ) (es : Calls)
    → IsValid l
    → live l now key ≡ none
    → 0 < l.limit
    → AreBefore (now + l.window) es
    → allowed l key ((key, now) ∷ es) ≡ min (calls key ((key, now) ∷ es)) l.limit
unfolding allowed calls
allowed_in_window l key now es v idle pos h =
    let (answer, after) = allow-Refines l key now v in
    let self : eqb key key ≡ true = (eqb_iff key key).1 refl in
    let opened : live (allow l key now).0 now key ≡ some (fresh l now) =
      ground (arith, after key) in
    let bucket = filtered-some (is_live now) _ opened in
    let ih =
      allowed-open (allow l key now).0 key (fresh l now) es (allow-IsValid l key now v) bucket h in
    let lim = allow-limit l key now in ground arith
