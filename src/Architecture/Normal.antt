-- ===== src/Architecture/Normal.antt =====
-- `Normalize` returns the canonical names of its arguments, each once, in the order of `order`.
use legacy_store.Base.{
  ◌≡◌, ◌≢◌, refl, arith, List, [], ◌∷◌, ◌++◌, none, some, Text, Mem, All, All-mem, All-of_mem, inl,
  inr, ◌⊎◌, ◌↔◌, Bool-cases, Option-cases,
}
use legacy_store.Base.Sorting
use legacy_store.Architecture.{
  supported, has, normalize_one, ranks_before, sorted_or_refused, collect, normalize,
}
use legacy_store.Architecture.Ranking.{IsRanked, sort-IsRanked, ranked-ext}
use legacy_store.Architecture.Collecting.{Names, Collected, Loop, collect_step, collect-Collected}

Loop-nil : Loop [] []
Loop-nil = record { seen-out = λ w m. m; out-seen = λ w m. m; canonical = tt; distinct = tt }

-- The specification of `Normalize`.
pub record IsNormalForm (values out : List Text) : Type 0 where
  pub inhabited : out ≢ []
  pub ranked : IsRanked out
  pub canonical : All (λ v. Mem v supported) out
  pub sound : (w : Text) → Mem w out → Names values w
  pub complete : (w : Text) → Names values w → Mem w out

sorted_or_refused-some :
    (vs out : List Text)
    → sorted_or_refused vs ≡ some out
    → (out ≡ Sorting.sort ranks_before vs) × (vs ≢ [])
unfolding sorted_or_refused
sorted_or_refused-some [] out e = cc
sorted_or_refused-some (v ∷ vs) out e = (ground arith, cc)

sort-ne-nil : (vs : List Text) → vs ≢ [] → Sorting.sort ranks_before vs ≢ []
sort-ne-nil [] ne e = ne refl
sort-ne-nil (v ∷ vs) ne e = rw e at (Sorting.sort-mem ranks_before v (v ∷ vs) (inl refl))

IsNormalForm-of_Collected :
    {values vs : List Text}
    → Collected [] values vs
    → vs ≢ []
    → IsNormalForm values (Sorting.sort ranks_before vs)
IsNormalForm-of_Collected {values} {vs} c ne = record {
  inhabited = sort-ne-nil vs ne;
  ranked = sort-IsRanked vs c.canonical c.distinct;
  canonical =
      All-of_mem (λ v. Mem v supported) (Sorting.sort ranks_before vs)
        (λ w m.
          All-mem (λ v. Mem v supported) w vs c.canonical (Sorting.mem-sort ranks_before w vs m));
  sound = λ w m. elim (c.sound w (Sorting.mem-sort ranks_before w vs m)) [
    | inl k ↦ absurd k
    | inr k ↦ k
  ];
  complete = λ w k. Sorting.sort-mem ranks_before w vs (c.complete w k);
}

-- A successful `Normalize` returns the canonical names of its arguments and no other, at least
-- one of them, each once, in strictly increasing rank.
pub normalize-IsNormalForm :
    (values out : List Text) → normalize values ≡ some out → IsNormalForm values out
unfolding normalize
normalize-IsNormalForm values out h = elim (Option-cases (collect [] [] values)) [
  | inl e ↦ ground arith
  | inr (vs, e) ↦
      let (same, ne) = sorted_or_refused-some vs out (ground arith) in
      rw same (IsNormalForm-of_Collected (collect-Collected [] [] values Loop-nil e) ne)
]

-- Two successful calls of `Normalize` whose arguments name the same architectures return the same
-- list: order, repetition and aliases do not change it.
pub normalize-same :
    (values others out out' : List Text)
    → normalize values ≡ some out
    → normalize others ≡ some out'
    → ((w : Text) → Names values w ↔ Names others w)
    → out ≡ out'
normalize-same values others out out' h k same =
    let a = normalize-IsNormalForm values out h in
    let b = normalize-IsNormalForm others out' k in
    ranked-ext out out' a.ranked b.ranked (λ w m. b.complete w ((same w).0 (a.sound w m)))
      (λ w m. a.complete w ((same w).1 (b.sound w m)))

collect-none :
    (seen out values : List Text)
    → collect seen out values ≡ none
    → (v : Text) × Mem v values × (normalize_one v ≡ none)
unfolding collect
collect-none seen out [] h = cc
collect-none seen out (v ∷ values) h = elim (Option-cases (normalize_one v)) [
  | inl e ↦ (v, inl refl, e)
  | inr (n, e) ↦ elim (Bool-cases (has seen n)) [
    | inl old ↦ let (u, m, k) = collect-none seen out values (ground arith) in (u, inr m, k)
    | inr new ↦
        let (u, m, k) = collect-none (n ∷ seen) (out ++ (n ∷ [])) values (ground arith) in
        (u, inr m, k)
  ]
]

-- A list that `Normalize` refuses is empty or holds a name that `NormalizeOne` refuses.
pub normalize-none :
    (values : List Text)
    → normalize values ≡ none
    → (values ≡ []) ⊎ ((v : Text) × Mem v values × (normalize_one v ≡ none))
unfolding normalize sorted_or_refused
normalize-none [] h = inl refl
normalize-none (v ∷ values) h = elim (Option-cases (collect [] [] (v ∷ values))) [
  | inl e ↦ inr (collect-none [] [] (v ∷ values) e)
  | inr ([], e) ↦
      let c = collect-Collected [] [] (v ∷ values) Loop-nil e in
      let (n, norm, _) = collect_step [] [] values v e in absurd (c.complete n (v, inl refl, norm))
  | inr (w ∷ ws, e) ↦ ground arith
]
