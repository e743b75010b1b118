-- ===== src/Catalog/Manifest/Index.antt =====
-- The index of `manifestVersions`: the place of each version among those that are known.
use legacy_store.Base.{
  ℕ, suc, ◌≡◌, refl, sym, arith, Bool, true, false, List, [], ◌∷◌, ◌++◌, Option, none, some, inl,
  inr, ◌==◌, Option-cases, if◌then◌else◌, length,
}
use legacy_store.Catalog.Manifest.{position_of}

abbrev pub is_listed : ℕ → List ℕ → Bool
is_listed id [] = false
is_listed id (known ∷ ids) = if known == id then true else is_listed id ids

-- The position of an identifier among those that are known.
abbrev pub place_in : ℕ → List ℕ → Option ℕ
place_in id [] = none
place_in id (known ∷ ids) =
    if known == id then some 0 else elim (place_in id ids) [ none ↦ none | some n ↦ some (suc n) ]

-- The index holds the place of each known identifier, and each version has one.
abbrev pub IsIndex : List (ℕ × ℕ) → List ℕ → Type 0
IsIndex index ids = (id : ℕ) → position_of id index ≡ place_in id ids

abbrev pub Once : List ℕ → Type 0
Once [] = Unit
Once (id ∷ ids) = (is_listed id ids ≡ false) × Once ids

pub place_in-none : (id : ℕ) (ids : List ℕ) → place_in id ids ≡ none → is_listed id ids ≡ false
place_in-none id [] h = refl
place_in-none id (known ∷ ids) h = ground (arith, place_in-none id ids)

pub place_in-some :
    (id : ℕ) (ids : List ℕ) (n : ℕ) → place_in id ids ≡ some n → is_listed id ids ≡ true
place_in-some id [] n h = absurd cc
place_in-some id (known ∷ ids) n h = elim (Option-cases (place_in id ids)) [
  | inl e ↦ ground (arith, e, h)
  | inr (m, e) ↦ let listed = place_in-some id ids m e in ground (arith, listed)
]

pub place_in-append :
    (id k : ℕ) (ids : List ℕ)
    → place_in k ids ≡ none
    → place_in id (ids ++ k ∷ []) ≡ (if k == id then some (length ids) else place_in id ids)
place_in-append id k [] h = ground arith
place_in-append id k (known ∷ ids) h = ground (arith, place_in-append id k ids)

pub is_listed-append :
    (id k : ℕ) (ids : List ℕ)
    → is_listed id (ids ++ k ∷ []) ≡ (if k == id then true else is_listed id ids)
is_listed-append id k [] = ground arith
is_listed-append id k (known ∷ ids) = ground (arith, is_listed-append id k ids)

pub Once-append : (k : ℕ) (ids : List ℕ) → is_listed k ids ≡ false → Once ids → Once (ids ++ k ∷ [])
Once-append k [] h o = (refl, tt)
Once-append k (id ∷ ids) h (fresh, o) =
    let there : is_listed k ids ≡ false = ground (arith, h) in
    (ground (arith, h, fresh, is_listed-append id k ids), Once-append k ids there o)

pub IsIndex-new :
    (index : List (ℕ × ℕ)) (ids : List ℕ) (k n : ℕ)
    → IsIndex index ids
    → place_in k ids ≡ none
    → n ≡ length ids
    → IsIndex ((k, n) ∷ index) (ids ++ k ∷ [])
unfolding position_of
IsIndex-new index ids k n h fresh e id = rw (e, h id) (sym (place_in-append id k ids fresh))
