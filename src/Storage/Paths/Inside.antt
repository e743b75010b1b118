-- ===== src/Storage/Paths/Inside.antt =====
-- `Resolve` never leaves the root.
use mathlib.Core.Option.{some-injective}
use legacy_store.Base.{
  ◌≡◌, ◌≢◌, refl, sym, ◌∙◌, arith, true, false, ◌||◌, List, [], ◌∷◌, ◌++◌, some, Text, eqb, eqb_iff,
  Bool-cases, All, All-append, inl, inr,
}
use legacy_store.Base.Strings.{trim_space}
use legacy_store.Storage.Paths.{
  is_empty, is_abs, clean_elements, join_elements, strip_common, up, rel_elements, escapes,
  check_inside, check_clean, resolve,
}
use legacy_store.Storage.Paths.Cleaning.{IsPlain, clean_from-IsPlain, clean_elements-IsPlain}

escapes-plain : (ps : List Text) → All IsPlain ps → escapes ps ≡ false
unfolding escapes
escapes-plain [] h = refl
escapes-plain (p ∷ ps) (a, h) = a.not_dot_dot

strip_common-below : (root below : List Text) → strip_common root (root ++ below) ≡ ([], below)
unfolding strip_common
strip_common-below [] below = refl
strip_common-below (r ∷ root) below =
    let same : eqb r r ≡ true = (eqb_iff r r).1 refl in rw same (strip_common-below root below)

rel_elements-below : (root below : List Text) → rel_elements root (root ++ below) ≡ below
unfolding rel_elements up
rel_elements-below root below = rw (strip_common-below root below)

join_elements-plain :
    (root below : List Text)
    → All IsPlain root
    → All IsPlain below
    → join_elements root below ≡ root ++ below
unfolding join_elements
join_elements-plain root below h k =
    clean_from-IsPlain true [] (root ++ below) (All-append IsPlain root below h k)

-- The storage accepts the path, and finds it below the root.
pub record IsBelow (root : List Text) (absolute : List Text) : Type 0 where
  pub below : List Text
  pub nonempty : below ≢ []
  pub are_plain : All IsPlain below
  pub is_below : absolute ≡ root ++ below

check_clean-plain :
    (root ps : List Text)
    → All IsPlain root
    → All IsPlain ps
    → ps ≢ []
    → check_clean root ps ≡ some (root ++ ps)
unfolding check_clean check_inside
check_clean-plain root [] h k ne = absurd (ne refl)
check_clean-plain root (p ∷ ps) h k ne =
    let stays = escapes-plain (p ∷ ps) k in
    let joined = join_elements-plain root (p ∷ ps) h k in
    rw stays (rw joined (rw (rel_elements-below root (p ∷ ps)) (rw stays)))

check_clean-IsBelow :
    (root ps : List Text) {absolute : List Text}
    → All IsPlain root
    → (escapes ps ≡ false → All IsPlain ps)
    → check_clean root ps ≡ some absolute
    → IsBelow root absolute
unfolding check_clean
check_clean-IsBelow root [] h k e = ground (arith, e)
check_clean-IsBelow root (p ∷ ps) {absolute} h k e = elim (Bool-cases (escapes (p ∷ ps))) [
  | inl out ↦ ground (arith, e, out)
  | inr stays ↦
      let found = check_clean-plain root (p ∷ ps) h (k stays) (λ empty. cc) in
      record {
        below = p ∷ ps;
        nonempty = λ empty. cc;
        are_plain = k stays;
        is_below = some-injective _ _ (sym e ∙ found);
      }
]

-- Whatever `Resolve` returns lies strictly below the root, if the root's elements are plain
-- names: it is the root's elements, then one or more elements that are none of "", "." and ".."
-- and hold no slash.
pub resolve-IsBelow :
    (root : List Text) (relative : Text) {absolute : List Text}
    → All IsPlain root
    → resolve root relative ≡ some absolute
    → IsBelow root absolute
unfolding resolve
resolve-IsBelow root relative h e =
    let path = trim_space relative in
    elim (Bool-cases (is_empty path || is_abs path)) [
      | inl refused ↦ ground (arith, e, refused)
      | inr taken ↦
          check_clean-IsBelow root (clean_elements path) h
            (clean_elements-IsPlain path (ground arith)) (rw taken at e)
    ]
