-- ===== src/Architecture/Collecting.antt =====
-- The loop of `Normalize` that drops repeated names.
use legacy_store.Base.{
  ◌≡◌, refl, arith, true, false, List, [], ◌∷◌, ◌++◌, some, Text, Mem, mem-append, mem-append_left,
  mem-append_right, All-append, Distinct, Distinct-concat, inl, inr, ◌⊎◌, Bool-cases, Option-cases,
}
use legacy_store.Architecture.{supported, has, normalize_one, collect}
use legacy_store.Architecture.Canonical.{has-mem, mem-has, normalize_one-supported}
use legacy_store.Architecture.Ranking.{AreSupported}

-- `w` is the canonical name of one of `values`.
abbrev pub Names : List Text → Text → Type 0
Names values w = (v : Text) × Mem v values × (normalize_one v ≡ some w)

-- What the loop of `Normalize` keeps: `seen` and `out` have the same members, all canonical.
pub record Loop (seen out : List Text) : Type 0 where
  pub seen-out : (w : Text) → Mem w seen → Mem w out
  pub out-seen : (w : Text) → Mem w out → Mem w seen
  pub canonical : AreSupported out
  pub distinct : Distinct out

Loop-cons :
    {seen out : List Text} (n : Text)
    → Loop seen out
    → Mem n supported
    → has seen n ≡ false
    → Loop (n ∷ seen) (out ++ (n ∷ []))
Loop-cons {seen} {out} n l s fresh = record {
  seen-out = λ w m. elim m [
    | inl e ↦ mem-append_right w out (n ∷ []) (inl e)
    | inr k ↦ mem-append_left w out (n ∷ []) (l.seen-out w k)
  ];
  out-seen = λ w m. elim (mem-append w out (n ∷ []) m) [
    | inl k ↦ inr (l.out-seen w k)
    | inr k ↦ elim k [ inl e ↦ inl e | inr z ↦ absurd z ]
  ];
  canonical = All-append (λ v. Mem v supported) out (n ∷ []) l.canonical (s, tt);
  distinct = Distinct-concat n out l.distinct (λ m. let t = mem-has seen n (l.out-seen n m) in cc);
}

-- The result of the loop, from any state that keeps the invariant.
pub record Collected (out values result : List Text) : Type 0 where
  pub canonical : AreSupported result
  pub distinct : Distinct result
  pub sound : (w : Text) → Mem w result → Mem w out ⊎ Names values w
  pub keeps : (w : Text) → Mem w out → Mem w result
  pub complete : (w : Text) → Names values w → Mem w result

pub Names-cons : (values : List Text) {w : Text} (v : Text) → Names values w → Names (v ∷ values) w
Names-cons values v (u, m, e) = (u, inr m, e)

pub collect_step :
    (seen out values : List Text) (v : Text) {result : List Text}
    → collect seen out (v ∷ values) ≡ some result
    → (n : Text) × (normalize_one v ≡ some n)
      × (((has seen n ≡ true) × (collect seen out values ≡ some result))
          ⊎ ((has seen n ≡ false) × (collect (n ∷ seen) (out ++ (n ∷ [])) values ≡ some result)))
unfolding collect
collect_step seen out values v h = elim (Option-cases (normalize_one v)) [
  | inl e ↦ ground arith
  | inr (n, e) ↦ (
    n,
    e,
    elim (Bool-cases (has seen n)) [
      | inl old ↦ inl (old, ground arith)
      | inr new ↦ inr (new, ground arith)
    ],
  )
]

pub collect-Collected :
    (seen out values : List Text) {result : List Text}
    → Loop seen out
    → collect seen out values ≡ some result
    → Collected out values result
collect-Collected seen out [] {result} l e =
    let same : out ≡ result = unfold collect in ground arith in
    rw (← same) (record {
      canonical = l.canonical;
      distinct = l.distinct;
      sound = λ w m. inl m;
      keeps = λ w m. m;
      complete = λ w (v, m, k). absurd m;
    })
collect-Collected seen out (v ∷ values) {result} l e =
    let (n, norm, cases) = collect_step seen out values v e in
    elim cases [
      | inl (old, e') ↦
          let c = collect-Collected seen out values l e' in
          record {
            canonical = c.canonical;
            distinct = c.distinct;
            sound =
                λ w m. elim (c.sound w m) [ inl k ↦ inl k | inr k ↦ inr (Names-cons values v k) ];
            keeps = c.keeps;
            complete = λ w (u, m, k). elim m [
              | inl x ↦
                  let same : n ≡ w = ground arith in
                  rw (← same) (c.keeps n (l.seen-out n (has-mem seen n old)))
              | inr m' ↦ c.complete w (u, m', k)
            ];
          }
      | inr (new, e') ↦
          let s = normalize_one-supported v n norm in
          let c = collect-Collected (n ∷ seen) (out ++ (n ∷ [])) values (Loop-cons n l s new) e' in
          record {
            canonical = c.canonical;
            distinct = c.distinct;
            sound = λ w m. elim (c.sound w m) [
              | inl k ↦ elim (mem-append w out (n ∷ []) k) [
                | inl k' ↦ inl k'
                | inr k' ↦ elim k' [ inl x ↦ inr (v, inl refl, rw x norm) | inr z ↦ absurd z ]
              ]
              | inr k ↦ inr (Names-cons values v k)
            ];
            keeps = λ w m. c.keeps w (mem-append_left w out (n ∷ []) m);
            complete = λ w (u, m, k). elim m [
              | inl x ↦
                  let same : n ≡ w = ground arith in
                  rw (← same) (c.keeps n (mem-append_right n out (n ∷ []) (inl refl)))
              | inr m' ↦ c.complete w (u, m', k)
            ];
          }
    ]
