-- ===== src/Architecture/Tests.antt =====
-- Runs of the architecture functions.
use legacy_store.Base.{◌≡◌, refl, ◌↔◌, ◌⊎◌, true, List, [], ◌∷◌, none, some, Text, codes, Mem}
use legacy_store.Architecture.{normalize, normalize_one, compatible}
use legacy_store.Architecture.Hosts.{Fits, compatible_iff}
use legacy_store.Architecture.Normal.{
  IsNormalForm, normalize-IsNormalForm, normalize-same, normalize-none,
}

abbrev mixed : List Text
mixed = codes "Intel 64-bit" ∷ codes "i386" ∷ codes "amd64" ∷ []

abbrev sorted : List Text
sorted = codes "i386" ∷ codes "x86_64" ∷ []

abbrev strange : List Text
strange = codes "i386" ∷ codes "sparc" ∷ []

one_run : normalize_one (codes " AMD64 ") ≡ some (codes "x86_64")
unfolding normalize_one legacy_store.Base.eqb legacy_store.Base.Strings.to_lower
    legacy_store.Base.Strings.trim_space legacy_store.Base.Strings.is_space
one_run = refl

mixed_run : normalize (codes "x86_64" ∷ codes "i386" ∷ codes "amd64" ∷ []) ≡ some sorted
unfolding normalize normalize_one legacy_store.Base.eqb legacy_store.Base.Strings.to_lower
    legacy_store.Base.Strings.trim_space legacy_store.Base.Strings.is_space
    legacy_store.Base.Sorting.sort legacy_store.Architecture.order
mixed_run = refl

sorted_run : normalize sorted ≡ some sorted
unfolding normalize normalize_one legacy_store.Base.eqb legacy_store.Base.Strings.to_lower
    legacy_store.Base.Strings.trim_space legacy_store.Base.Strings.is_space
    legacy_store.Base.Sorting.sort legacy_store.Architecture.order
sorted_run = refl

strange_run : normalize strange ≡ none
unfolding normalize normalize_one legacy_store.Base.eqb legacy_store.Base.Strings.to_lower
    legacy_store.Base.Strings.trim_space legacy_store.Base.Strings.is_space
strange_run = refl

normalize-IsNormalForm_example :
    IsNormalForm (codes "x86_64" ∷ codes "i386" ∷ codes "amd64" ∷ []) sorted
normalize-IsNormalForm_example =
    normalize-IsNormalForm (codes "x86_64" ∷ codes "i386" ∷ codes "amd64" ∷ []) sorted mixed_run

normalize-same_example : sorted ≡ sorted
normalize-same_example =
    normalize-same sorted sorted sorted sorted sorted_run sorted_run (λ w. (λ n. n, λ n. n))

normalize-none_example : (strange ≡ []) ⊎ ((v : Text) × Mem v strange × (normalize_one v ≡ none))
normalize-none_example = normalize-none strange strange_run

compatible_iff_example :
    (compatible (codes "x86_64") (codes "i386" ∷ []) true ≡ true)
    ↔ Fits (codes "x86_64") (codes "i386" ∷ []) true
compatible_iff_example = compatible_iff (codes "x86_64") (codes "i386" ∷ []) true
