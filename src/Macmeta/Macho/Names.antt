-- ===== src/Macmeta/Macho/Names.antt =====
-- The names that `normalizeMachOArchitectures` returns.
use legacy_store.Base.{
  ℕ, ◌≡◌, ◌≢◌, ◌%◌, ◌^◌, ◌<◌, ◌⊎◌, refl, sym, subst, arith, Bool, true, false, ◌||◌, List, [], ◌∷◌,
  Text, inl, inr, eqb, eqb_iff, ◌==◌, if◌then◌else◌, All, All-map, Mem, Distinct, Bool-cases,
}
use legacy_store.Base.Sorting
use legacy_store.Macmeta.Bytes.{Outcome}
use legacy_store.Macmeta.Macho.{
  macho_architecture, is_seen, new_values, order_of, is_before, sorted_values,
  normalize_macho_architectures,
}
use Outcome.{panicked, failed, done}

-- A name of the catalog's architectures.
abbrev pub IsKnown : Text → Type 0
IsKnown value = 0 < order_of value

-- An error, or known architectures in their order: at least one, and none twice.
abbrev pub IsListing : Outcome (List Text) → Type 0
IsListing panicked = ⊥
IsListing (failed e) = Unit
IsListing (done values) =
    (values ≢ []) × All IsKnown values × Distinct values × Sorting.IsOrdered is_before values

-- What one processor gives: nothing or a known name.
abbrev pub IsName : Text → Type 0
IsName value = (value ≡ []) ⊎ IsKnown value

pub macho_architecture-IsName : (cpu sub_cpu : ℕ) → IsName (macho_architecture cpu sub_cpu)
unfolding macho_architecture order_of eqb
macho_architecture-IsName cpu sub_cpu =
    let sub = sub_cpu % 2 ^ 24 in
    either (cpu == 7) (inr (omega arith)) (
      either (cpu == 0x1000007) (inr (omega arith)) (
        either (cpu == 18)
          (either (sub == 9) (inr (omega arith)) (
            either (sub == 10 || sub == 11) (inr (omega arith))
              (either (sub == 100) (inr (omega arith)) (inr (omega arith)))))
          (either (cpu == 0x1000012) (inr (omega arith)) (inl refl))))
  where
    either : {a b : Text} (test : Bool) → IsName a → IsName b → IsName (if test then a else b)
    either true p q = p
    either false p q = q

pub is_before-asym : (a b : Text) → is_before a b ≡ true → is_before b a ≡ false
unfolding is_before
is_before-asym a b h = ground arith

pub is_before_trans :
    (a b c : Text) → is_before b a ≡ false → is_before c b ≡ false → is_before c a ≡ false
unfolding is_before
is_before_trans a b c h k = ground arith

pub insert-Distinct :
    (x : Text) (ys : List Text)
    → ¬ Mem x ys
    → Distinct ys
    → Distinct (Sorting.insert is_before x ys)
unfolding Sorting.insert
insert-Distinct x [] h d = (h, d)
insert-Distinct x (y ∷ ys) h (f, d) = elim (Bool-cases (is_before y x)) [
  | inr e ↦ rw e (h, (f, d))
  | inl e ↦ rw e (
    (λ m. elim (Sorting.mem-insert is_before y x ys m) [
      | inl same ↦ h (inl (sym same))
      | inr k ↦ f k
    ]),
    insert-Distinct x ys (λ m. h (inr m)) d,
  )
]

pub sort-Distinct : (xs : List Text) → Distinct xs → Distinct (Sorting.sort is_before xs)
unfolding Sorting.sort
sort-Distinct [] d = tt
sort-Distinct (x ∷ xs) (f, d) =
    insert-Distinct x (Sorting.sort is_before xs) (λ m. f (Sorting.mem-sort is_before x xs m))
      (sort-Distinct xs d)

pub sort-All : (xs : List Text) → All IsKnown xs → All IsKnown (Sorting.sort is_before xs)
unfolding Sorting.sort
sort-All [] h = tt
sort-All (x ∷ xs) (p, h) =
    Sorting.All-insert is_before IsKnown x (Sorting.sort is_before xs) p (sort-All xs h)

-- What the first loop keeps is new.
pub new_values_fresh :
    (seen values : List Text) → All (λ v. is_seen seen v ≡ false) (new_values seen values)
unfolding new_values
new_values_fresh seen [] = tt
new_values_fresh seen (value ∷ values) = elim (Bool-cases (eqb value [] || is_seen seen value)) [
  | inl skipped ↦ rw skipped (new_values_fresh seen values)
  | inr taken ↦ rw taken (
    ground (arith, taken),
    All-map (λ v. is_seen (value ∷ seen) v ≡ false) (λ v. is_seen seen v ≡ false)
        (λ v h. ground (arith, h)) _ (new_values_fresh (value ∷ seen) values),
  )
]

pub fresh_absent :
    (value : Text) (seen values : List Text)
    → All (λ v. is_seen (value ∷ seen) v ≡ false) values
    → ¬ Mem value values
fresh_absent value seen [] h m = m
fresh_absent value seen (v ∷ values) (a, h) (inl e) = ground (arith, a, (eqb_iff value v).1 e)
fresh_absent value seen (v ∷ values) (a, h) (inr m) = fresh_absent value seen values h m

pub new_values-Distinct : (seen values : List Text) → Distinct (new_values seen values)
unfolding new_values
new_values-Distinct seen [] = tt
new_values-Distinct seen (value ∷ values) = elim (Bool-cases (eqb value [] || is_seen seen value)) [
  | inl skipped ↦ rw skipped (new_values-Distinct seen values)
  | inr taken ↦ rw taken (
    fresh_absent value seen _ (new_values_fresh (value ∷ seen) values),
    new_values-Distinct (value ∷ seen) values,
  )
]

pub new_values-All :
    (seen values : List Text) → All IsKnown values → All IsKnown (new_values seen values)
unfolding new_values
new_values-All seen [] h = tt
new_values-All seen (value ∷ values) (p, h) =
    elim (Bool-cases (eqb value [] || is_seen seen value)) [
      | inl skipped ↦ rw skipped (new_values-All seen values h)
      | inr taken ↦ rw taken (p, new_values-All (value ∷ seen) values h)
    ]

pub normalize-IsListing :
    (values : List Text) → All IsKnown values → IsListing (normalize_macho_architectures values)
unfolding normalize_macho_architectures
normalize-IsListing values h =
    go (new_values [] values) (new_values-All [] values h) (new_values-Distinct [] values)
  where
    go : (clean : List Text) → All IsKnown clean → Distinct clean → IsListing (sorted_values clean)
    go [] h d = tt
    go (v ∷ clean) h d = (
      λ e. subst (λ xs. Mem v xs) e (Sorting.sort-mem is_before v (v ∷ clean) (inl refl)),
      sort-All (v ∷ clean) h,
      sort-Distinct (v ∷ clean) d,
      Sorting.sort-IsOrdered is_before is_before-asym is_before_trans (v ∷ clean),
    )
