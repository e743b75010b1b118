-- ===== src/Base/Sorting.antt =====
-- `sort.SliceStable` as insertion: equal elements keep their order. `less` is the program's own
-- comparison; the laws that it must have stand where they are used.
use mathlib.Core.Path.{◌≡◌}
use mathlib.Core.Logic.{inl, inr}
use mathlib.Core.Bool.{Bool, true, false}
use mathlib.Core.List.{List, [], ◌∷◌}
use native.Mathlib.Omega.{arith}
use legacy_store.Base.Lists.{Mem, All, All-map}
use legacy_store.Base.Tests.{if◌then◌else◌, Bool-cases}

module _ {A : Type 0} (less : A → A → Bool) where
  unfoldable pub insert : A → List A → List A
  insert x [] = x ∷ []
  insert x (y ∷ ys) = let later = y ∷ insert x ys in if less y x then later else x ∷ y ∷ ys

  unfoldable pub sort : List A → List A
  unfolding insert
  sort [] = []
  sort (x ∷ xs) = insert x (sort xs)

  pub mem-insert : (a x : A) (ys : List A) → Mem a (insert x ys) → Mem a (x ∷ ys)
  unfolding insert
  mem-insert a x [] m = m
  mem-insert a x (y ∷ ys) m = ground (arith, mem-insert a x ys)

  pub insert-mem : (a x : A) (ys : List A) → Mem a (x ∷ ys) → Mem a (insert x ys)
  unfolding insert
  insert-mem a x [] m = m
  insert-mem a x (y ∷ ys) m = ground (arith, insert-mem a x ys)

  pub mem-sort : (a : A) (xs : List A) → Mem a (sort xs) → Mem a xs
  unfolding sort
  mem-sort a [] m = m
  mem-sort a (x ∷ xs) m = elim (mem-insert a x (sort xs) m) [
    | inl e ↦ inl e
    | inr k ↦ inr (mem-sort a xs k)
  ]

  pub sort-mem : (a : A) (xs : List A) → Mem a xs → Mem a (sort xs)
  unfolding sort
  sort-mem a [] m = m
  sort-mem a (x ∷ xs) (inl e) = insert-mem a x (sort xs) (inl e)
  sort-mem a (x ∷ xs) (inr m) = insert-mem a x (sort xs) (inr (sort-mem a xs m))

  module _ (P : A → Type 0) where
    pub All-insert : (x : A) (ys : List A) → P x → All P ys → All P (insert x ys)
    unfolding insert
    All-insert x [] p h = (p, tt)
    All-insert x (y ∷ ys) p (q, h) = ground (arith, All-insert x ys p h)

  -- No element comes before one that is less than it.
  abbrev pub IsOrdered : List A → Type 0
  IsOrdered [] = Unit
  IsOrdered (x ∷ xs) = All (λ y. less y x ≡ false) xs × IsOrdered xs

  module _ (asym : (x y : A) → less x y ≡ true → less y x ≡ false)
      (trans : (x y z : A) → less y x ≡ false → less z y ≡ false → less z x ≡ false) where
    insert-IsOrdered : (x : A) (ys : List A) → IsOrdered ys → IsOrdered (insert x ys)
    unfolding insert
    insert-IsOrdered x [] h = (tt, tt)
    insert-IsOrdered x (y ∷ ys) (first, h) = elim (Bool-cases (less y x)) [
      | inl e ↦
          rw e (All-insert (λ z. less z y ≡ false) x ys (asym y x e) first, insert-IsOrdered x ys h)
      | inr e ↦
          let above =
            All-map (λ z. less z y ≡ false) (λ z. less z x ≡ false) (λ z k. trans x y z e k) ys
              first in
          rw e ((e, above), (first, h))
    ]

    pub sort-IsOrdered : (xs : List A) → IsOrdered (sort xs)
    unfolding sort
    sort-IsOrdered [] = tt
    sort-IsOrdered (x ∷ xs) = insert-IsOrdered x (sort xs) (sort-IsOrdered xs)
