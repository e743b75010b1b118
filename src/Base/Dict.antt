-- ===== src/Base/Dict.antt =====
-- Go maps keyed by strings: association lists that hold each key once.
use mathlib.Core.Path.{◌≡◌, refl}
use mathlib.Core.Logic.{inl, inr}
use mathlib.Core.Bool.{Bool, false}
use mathlib.Core.List.{List, [], ◌∷◌}
use mathlib.Core.Option.{Option, none, some}
use native.Mathlib.Omega.{arith}
use legacy_store.Base.Tests.{if◌then◌else◌, Bool-cases}
use legacy_store.Base.Texts.{Text, eqb, eqb_iff}

module _ {V : Type 0} where
  unfoldable pub insert : Text → V → List (Text × V) → List (Text × V)
  insert key value [] = (key, value) ∷ []
  insert key value ((other, old) ∷ rest) =
      let further = insert key value rest in
      if eqb other key then (key, value) ∷ rest else (other, old) ∷ further

  unfoldable pub lookup : Text → List (Text × V) → Option V
  lookup key [] = none
  lookup key ((other, value) ∷ rest) =
      let further = lookup key rest in if eqb other key then some value else further

  -- `delete` in a `range` loop, for the entries that fail a test.
  unfoldable pub keep : (V → Bool) → List (Text × V) → List (Text × V)
  keep p [] = []
  keep p ((j, w) ∷ m) = if p w then (j, w) ∷ keep p m else keep p m

  pub lookup-insert :
      (key wanted : Text) (value : V) (entries : List (Text × V))
      → lookup wanted (insert key value entries)
        ≡ (if eqb key wanted then some value else lookup wanted entries)
  unfolding lookup insert
  lookup-insert key wanted value [] = refl
  lookup-insert key wanted value ((other, old) ∷ rest) = ground (
    arith,
    eqb_iff other key,
    eqb_iff key wanted,
    eqb_iff other wanted,
    lookup-insert key wanted value rest,
  )

  -- Each key stands once.
  abbrev pub HasKeysOnce : List (Text × V) → Type 0
  HasKeysOnce [] = Unit
  HasKeysOnce ((j, w) ∷ m) = (lookup j m ≡ none) × HasKeysOnce m

  pub insert-HasKeysOnce :
      (k : Text) (v : V) (m : List (Text × V)) → HasKeysOnce m → HasKeysOnce (insert k v m)
  unfolding insert
  insert-HasKeysOnce k v [] h = (unfold lookup in refl, tt)
  insert-HasKeysOnce k v ((i, w) ∷ m) (fresh, h) = elim (Bool-cases (eqb i k)) [
    | inl e ↦ rw e (rw ((eqb_iff i k).0 e) at fresh, h)
    | inr e ↦
        let other : eqb k i ≡ false = ground (arith, eqb_iff i k, eqb_iff k i) in
        rw e (ground (arith, lookup-insert k i v m), insert-HasKeysOnce k v m h)
  ]

  keep_fresh :
      (p : V → Bool) (k : Text) (m : List (Text × V))
      → lookup k m ≡ none
      → lookup k (keep p m) ≡ none
  unfolding lookup keep
  keep_fresh p k [] h = refl
  keep_fresh p k ((j, w) ∷ m) h = ground (arith, keep_fresh p k m)

  pub keep-HasKeysOnce :
      (p : V → Bool) (m : List (Text × V)) → HasKeysOnce m → HasKeysOnce (keep p m)
  unfolding keep
  keep-HasKeysOnce p [] h = tt
  keep-HasKeysOnce p ((j, w) ∷ m) (fresh, h) = elim (Bool-cases (p w)) [
    | inl e ↦ rw e (keep_fresh p j m fresh, keep-HasKeysOnce p m h)
    | inr e ↦ rw e (keep-HasKeysOnce p m h)
  ]

  abbrev pub filtered : (V → Bool) → Option V → Option V
  filtered p none = none
  filtered p (some v) = if p v then some v else none

  pub lookup-keep :
      (p : V → Bool) (k : Text) (m : List (Text × V))
      → HasKeysOnce m
      → lookup k (keep p m) ≡ filtered p (lookup k m)
  unfolding lookup keep
  lookup-keep p k [] h = refl
  lookup-keep p k ((j, w) ∷ m) (fresh, h) =
      ground (arith, eqb_iff j k, lookup-keep p k m h, keep_fresh p j m fresh)
