-- ===== src/Base/Strings/Laws.antt =====
-- Laws of the text functions.
use Prim.Native.Nat.{ℕ}
use mathlib.Core.Bool.{true, false}
use mathlib.Core.List.{
  [], ◌∷◌, ◌++◌, reverse, reverse-cons, reverse-reverse, append_assoc, append-nil,
}
use mathlib.Core.Path.{◌≡◌, refl, ◌∙◌}
use mathlib.Core.Logic.{inl, inr}
use native.Mathlib.Omega.{arith}
use legacy_store.Base.Lists.{All, All-reverse}
use legacy_store.Base.Strings.{
  is_space, trim_left, trim_space, lower_byte, to_lower, split_from, split,
}
use legacy_store.Base.Tests.{◌==◌, Bool-cases}
use legacy_store.Base.Texts.{Text, eqb, eqb_iff}

pub eqb_refl : (s : Text) → eqb s s ≡ true
eqb_refl s = (eqb_iff s s).1 refl

lower_byte_idem : (c : ℕ) → lower_byte (lower_byte c) ≡ lower_byte c
unfolding lower_byte
lower_byte_idem c = ground arith

pub to_lower_idem : (s : Text) → to_lower (to_lower s) ≡ to_lower s
unfolding to_lower
to_lower_idem [] = refl
to_lower_idem (c ∷ s) = cc (lower_byte_idem c, to_lower_idem s)

-- No byte of the text is `sep`.
abbrev pub Lacks : ℕ → Text → Type 0
Lacks sep s = All (λ c. (c == sep) ≡ false) s

split_from-Lacks :
    (sep : ℕ) (cur s : Text) → Lacks sep s → split_from sep cur s ≡ (reverse cur ++ s) ∷ []
unfolding split_from
split_from-Lacks sep cur [] h = rw append-nil
split_from-Lacks sep cur (c ∷ s) (p, h) =
    rw p (split_from-Lacks sep (c ∷ cur) s h ∙ simp (reverse-cons, append_assoc))

split_from-part :
    (sep : ℕ) (cur s rest : Text)
    → Lacks sep s
    → split_from sep cur (s ++ (sep ∷ rest)) ≡ (reverse cur ++ s) ∷ split_from sep [] rest
unfolding split_from
split_from-part sep cur [] rest h =
    let e : (sep == sep) ≡ true = ground arith in rw e (simp append-nil)
split_from-part sep cur (c ∷ s) rest (p, h) =
    rw p (split_from-part sep (c ∷ cur) s rest h ∙ simp (reverse-cons, append_assoc))

pub split-Lacks : (sep : ℕ) (s : Text) → Lacks sep s → split s sep ≡ s ∷ []
unfolding split
split-Lacks sep s h = split_from-Lacks sep [] s h

pub split-part :
    (sep : ℕ) (s rest : Text) → Lacks sep s → split (s ++ (sep ∷ rest)) sep ≡ s ∷ split rest sep
unfolding split
split-part sep s rest h = split_from-part sep [] s rest h

-- The text does not begin with white space.
abbrev pub IsSolid : Text → Type 0
IsSolid [] = Unit
IsSolid (c ∷ s) = is_space c ≡ false

pub trim_left-IsSolid : (s : Text) → IsSolid (trim_left s)
unfolding trim_left
trim_left-IsSolid [] = tt
trim_left-IsSolid (c ∷ s) = elim (Bool-cases (is_space c)) [
  | inl e ↦ rw e (trim_left-IsSolid s)
  | inr e ↦ rw e e
]

trim_left_of_IsSolid : (s : Text) → IsSolid s → trim_left s ≡ s
unfolding trim_left
trim_left_of_IsSolid [] h = refl
trim_left_of_IsSolid (c ∷ s) h = rw h

-- A text that neither begins nor ends with white space is left alone.
pub trim_space_of_IsSolid : (s : Text) → IsSolid s → IsSolid (reverse s) → trim_space s ≡ s
unfolding trim_space
trim_space_of_IsSolid s h k =
    rw (trim_left_of_IsSolid s h) (rw (trim_left_of_IsSolid (reverse s) k) (reverse-reverse s))

split_from-parts : (sep : ℕ) (cur s : Text) → Lacks sep cur → All (Lacks sep) (split_from sep cur s)
unfolding split_from
split_from-parts sep cur [] h = (All-reverse _ cur h, tt)
split_from-parts sep cur (c ∷ s) h = elim (Bool-cases (c == sep)) [
  | inl e ↦ rw e (All-reverse _ cur h, split_from-parts sep [] s tt)
  | inr e ↦ rw e (split_from-parts sep (c ∷ cur) s (e, h))
]

-- No part of a split holds the separator.
pub split-parts : (sep : ℕ) (s : Text) → All (Lacks sep) (split s sep)
unfolding split
split-parts sep s = split_from-parts sep [] s tt
