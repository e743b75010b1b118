-- ===== src/Account/Tables/Laws.antt =====
-- Laws of the statements on tables.
use legacy_store.Base.{
  ◌≡◌, refl, sym, inl, inr, arith, Bool, true, false, ◌&&◌, List, [], ◌∷◌, ◌++◌, none, some, any,
  Mem, Bool-cases, if◌then◌else◌, length, ◌≤◌, ◌+◌, All,
}
use legacy_store.Account.Tables.{first, update, select}

module _ {A : Type 0} where
  pub first-pass : (p : A → Bool) (xs : List A) {a : A} → first p xs ≡ some a → p a ≡ true
  unfolding first
  first-pass p [] h = cc
  first-pass p (x ∷ xs) h = elim (Bool-cases (p x)) [
    | inl e ↦ let same : some x ≡ some _ = rw e at h in cc
    | inr e ↦ first-pass p xs (rw e at h)
  ]

  pub first-mem : (p : A → Bool) (xs : List A) {a : A} → first p xs ≡ some a → Mem a xs
  unfolding first
  first-mem p [] h = cc
  first-mem p (x ∷ xs) {a} h = elim (Bool-cases (p x)) [
    | inl e ↦ inl (let same : some x ≡ some a = rw e at h in cc)
    | inr e ↦ inr (first-mem p xs (rw e at h))
  ]

  pub first-any : (p : A → Bool) (xs : List A) {a : A} → first p xs ≡ some a → any p xs ≡ true
  unfolding first
  first-any p [] h = cc
  first-any p (x ∷ xs) h = elim (Bool-cases (p x)) [
    | inl e ↦ rw e refl
    | inr e ↦ rw e (first-any p xs (rw e at h))
  ]

  pub first-and :
      (p q : A → Bool) (xs : List A) {a : A}
      → first p xs ≡ some a
      → q a ≡ true
      → first (λ x. p x && q x) xs ≡ some a
  unfolding first
  first-and p q [] h k = cc
  first-and p q (x ∷ xs) {a} h k = elim (Bool-cases (p x)) [
    | inl e ↦
        let same : some x ≡ some a = rw e at h in
        let passes : q x ≡ true = cc in rw e (rw passes same)
    | inr e ↦ rw e (first-and p q xs (rw e at h) k)
  ]

  pub first-append :
      (p : A → Bool) (xs ys : List A) → any p xs ≡ false → first p (xs ++ ys) ≡ first p ys
  unfolding first
  first-append p [] ys h = refl
  first-append p (x ∷ xs) ys h = elim (Bool-cases (p x)) [
    | inl e ↦ absurd (let clash : true ≡ false = rw e at h in cc)
    | inr e ↦ rw e (first-append p xs ys (rw e at h))
  ]

  pub any-weaken :
      (p q : A → Bool) (xs : List A)
      → ((x : A) → p x ≡ false → q x ≡ false)
      → any p xs ≡ false
      → any q xs ≡ false
  any-weaken p q [] f h = refl
  any-weaken p q (x ∷ xs) f h = elim (Bool-cases (p x)) [
    | inl e ↦ absurd (let clash : true ≡ false = rw e at h in cc)
    | inr e ↦ rw (f x e) (any-weaken p q xs f (rw e at h))
  ]

  -- An update that makes every row it meets fail a test leaves no row that passes it.
  pub first-update :
      (p q : A → Bool) (f : A → A) (xs : List A)
      → ((x : A) → p x ≡ true → q (f x) ≡ false)
      → ((x : A) → p x ≡ false → q x ≡ false)
      → first q (update p f xs) ≡ none
  unfolding first update
  first-update p q f [] h k = refl
  first-update p q f (x ∷ xs) h k = elim (Bool-cases (p x)) [
    | inl e ↦ rw e (rw (h x e) (first-update p q f xs h k))
    | inr e ↦ rw e (rw (k x e) (first-update p q f xs h k))
  ]

  -- An update that no test on its rows can tell finds the same row, changed if it is meant.
  pub first-kept :
      (p q : A → Bool) (f : A → A) (xs : List A) {a : A}
      → ((x : A) → q (f x) ≡ q x)
      → first q xs ≡ some a
      → first q (update p f xs) ≡ some (if p a then f a else a)
  unfolding first update
  first-kept p q f [] k h = cc
  first-kept p q f (x ∷ xs) {a} k h = elim (Bool-cases (q x)) [
    | inl e ↦
        let same : some x ≡ some a = rw e at h in
        let here : x ≡ a = cc in
        elim (Bool-cases (p x)) [
          | inl m ↦ rw m (rw (k x) (rw e (rw (sym here) (rw m refl))))
          | inr m ↦ rw m (rw e (rw (sym here) (rw m refl)))
        ]
    | inr e ↦
        let rest = first-kept p q f xs k (rw e at h) in
        elim (Bool-cases (p x)) [ inl m ↦ rw m (rw (k x) (rw e rest)) | inr m ↦ rw m (rw e rest) ]
  ]

  -- An update makes no row pass a test that it failed, so no more rows pass it.
  pub select-update :
      (p q : A → Bool) (f : A → A) (xs : List A)
      → ((x : A) → q (f x) ≡ true → q x ≡ true)
      → length (select q (update p f xs)) ≤ length (select q xs)
  unfolding select update
  select-update p q f [] h = omega arith
  select-update p q f (x ∷ xs) h = let rest = select-update p q f xs h in ground (arith, rest, h x)

  pub select-append :
      (q : A → Bool) (xs : List A) (y : A)
      → length (select q (xs ++ y ∷ [])) ≡ length (select q xs) + (if q y then 1 else 0)
  unfolding select
  select-append q [] y = ground arith
  select-append q (x ∷ xs) y = let rest = select-append q xs y in ground (arith, rest)

  pub select-none : (q : A → Bool) (xs : List A) → first q xs ≡ none → length (select q xs) ≡ 0
  unfolding first select
  select-none q [] h = refl
  select-none q (x ∷ xs) h = elim (Bool-cases (q x)) [
    | inl e ↦ absurd (let clash : some x ≡ none = rw e at h in cc)
    | inr e ↦ rw e (select-none q xs (rw e at h))
  ]

module _ {κ} {A : Type 0} (P : A → Type κ) where
  pub All-update :
      (p : A → Bool) (f : A → A) (xs : List A)
      → ((x : A) → P x → P (f x))
      → All P xs
      → All P (update p f xs)
  unfolding update
  All-update p f [] g h = tt
  All-update p f (x ∷ xs) g (a, h) = elim (Bool-cases (p x)) [
    | inl e ↦ rw e (g x a, All-update p f xs g h)
    | inr e ↦ rw e (a, All-update p f xs g h)
  ]
