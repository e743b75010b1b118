-- ===== src/Architecture/Ranking.antt =====
-- The sort of `Normalize`: ranks, insertion, and lists that rise strictly in rank.
use legacy_store.Base.{
  ℕ, ◌<◌, ◌≡◌, ◌≢◌, refl, sym, ap, ap₂, ◌∙◌, arith, List, [], ◌∷◌, Text, codes, Mem, All, All-mem,
  All-map, All-of_mem, Distinct, inl, inr, ltb, if◌then◌else◌, Bool-cases, eqb, ◌==◌,
}
use legacy_store.Base.Sorting
use legacy_store.Architecture.{supported, order, ranks_before}

-- Every name is followed only by names of a later rank.
abbrev pub IsRanked : List Text → Type 0
IsRanked [] = Unit
IsRanked (v ∷ vs) = All (λ w. order v < order w) vs × IsRanked vs

name_of : ℕ → Text
name_of n =
    if n == 10
    then codes "i386"
    else if n == 11
    then codes "i686"
    else if n == 20
    then codes "x86_64"
    else if n == 30
    then codes "ppc"
    else if n == 31
    then codes "ppc-g3"
    else if n == 32
    then codes "ppc-g4"
    else if n == 33
    then codes "ppc-g5"
    else codes "ppc64"

name_of-order : (v : Text) → Mem v supported → name_of (order v) ≡ v
unfolding name_of order eqb
name_of-order v (inl e) = rw e
name_of-order v (inr (inl e)) = rw e
name_of-order v (inr (inr (inl e))) = rw e
name_of-order v (inr (inr (inr (inl e)))) = rw e
name_of-order v (inr (inr (inr (inr (inl e))))) = rw e
name_of-order v (inr (inr (inr (inr (inr (inl e)))))) = rw e
name_of-order v (inr (inr (inr (inr (inr (inr (inl e))))))) = rw e
name_of-order v (inr (inr (inr (inr (inr (inr (inr (inl e)))))))) = rw e
name_of-order v (inr (inr (inr (inr (inr (inr (inr (inr m)))))))) = absurd m

pub order_injective : (v w : Text) → Mem v supported → Mem w supported → order v ≡ order w → v ≡ w
order_injective v w hv hw e = sym (name_of-order v hv) ∙ ap name_of e ∙ name_of-order w hw

insert-IsRanked :
    (v : Text) (ws : List Text)
    → IsRanked ws
    → All (λ w. order v ≢ order w) ws
    → IsRanked (Sorting.insert ranks_before v ws)
unfolding Sorting.insert
insert-IsRanked v [] h d = (tt, tt)
insert-IsRanked v (w ∷ ws) (first, h) (ne, d) = elim (Bool-cases (ltb (order w) (order v))) [
  | inl e ↦
      let lt : order w < order v = ground arith in
      rw e (
        Sorting.All-insert ranks_before (λ x. order w < order x) v ws lt first,
        insert-IsRanked v ws h d,
      )
  | inr e ↦
      let lt : order v < order w = ground arith in
      let above =
        All-map (λ x. order w < order x) (λ x. order v < order x) (λ x k. omega arith) ws first in
      rw e ((lt, above), (first, h))
]

abbrev pub AreSupported : List Text → Type 0
AreSupported vs = All (λ v. Mem v supported) vs

pub sort-IsRanked :
    (vs : List Text) → AreSupported vs → Distinct vs → IsRanked (Sorting.sort ranks_before vs)
unfolding Sorting.sort
sort-IsRanked [] h d = tt
sort-IsRanked (v ∷ vs) (s, h) (fresh, d) =
    insert-IsRanked v (Sorting.sort ranks_before vs) (sort-IsRanked vs h d) (
      All-of_mem (λ w. order v ≢ order w) (Sorting.sort ranks_before vs)
        (λ w m e.
          let k = Sorting.mem-sort ranks_before w vs m in
          let same = order_injective v w s (All-mem (λ x. Mem x supported) w vs h k) e in
          fresh (rw same k)))

-- Two ranked lists with the same members are equal.
pub ranked-ext :
    (xs ys : List Text)
    → IsRanked xs
    → IsRanked ys
    → ((a : Text) → Mem a xs → Mem a ys)
    → ((a : Text) → Mem a ys → Mem a xs)
    → xs ≡ ys
ranked-ext [] [] h k f g = refl
ranked-ext [] (y ∷ ys) h k f g = absurd (g y (inl refl))
ranked-ext (x ∷ xs) [] h k f g = absurd (f x (inl refl))
ranked-ext (x ∷ xs) (y ∷ ys) (hx, h) (ky, k) f g =
    ap₂ (λ z zs. z ∷ zs) first
      (ranked-ext xs ys h k
        (λ a m. elim (f a (inr m)) [
          | inl e ↦
              let lt = All-mem (λ w. order x < order w) a xs hx m in
              let eq : order a ≡ order x = rw (e ∙ sym first) in absurd (omega arith)
          | inr m' ↦ m'
        ])
        (λ a m. elim (g a (inr m)) [
          | inl e ↦
              let lt = All-mem (λ w. order y < order w) a ys ky m in
              let eq : order a ≡ order y = rw (e ∙ first) in absurd (omega arith)
          | inr m' ↦ m'
        ]))
  where
    first : x ≡ y
    first = elim (f x (inl refl)) [
      | inl e ↦ e
      | inr m ↦ elim (g y (inl refl)) [
        | inl e ↦ sym e
        | inr m' ↦
            let lt = All-mem (λ w. order y < order w) x ys ky m in
            let gt = All-mem (λ w. order x < order w) y xs hx m' in absurd (omega arith)
      ]
    ]
