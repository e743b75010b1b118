-- ===== src/Compatibility/Version.antt =====
-- compatibility/version.go: `ParseVersion` and the comparison of versions.
-- Components are natural numbers: `ParseVersion` refuses a negative one.
pub mod Order
pub mod Parsing
use legacy_store.Base.{
  ℕ, zero, suc, ◌≡◌, Bool, List, [], ◌∷◌, Option, none, some, Text, codes, take, if◌then◌else◌,
  ◌==◌, ltb,
}
use legacy_store.Base.Int.{ℤ, pos, negsuc, is_negative, minus_one}
use legacy_store.Base.Strings.{trim_space, split, atoi}

pub record Version : Type 0 where
  pub major : ℕ
  pub minor : ℕ
  pub patch : ℕ

-- One round of the loop: an empty part, a bad number and a negative one are refused.
parse_part : Text → Option ℕ
parse_part [] = none
parse_part (c ∷ s) = elim (atoi (c ∷ s)) [
  | none ↦ none
  | some (pos n) ↦ some n
  | some (negsuc n) ↦ none
]

abbrev part_or_zero : List ℕ → ℕ → ℕ
part_or_zero [] i = 0
part_or_zero (n ∷ ns) zero = n
part_or_zero (n ∷ ns) (suc i) = part_or_zero ns i

parse_parts : List Text → Option (List ℕ)
parse_parts [] = some []
parse_parts (p ∷ ps) = elim (parse_part p) [
  | none ↦ none
  | some n ↦ elim (parse_parts ps) [ none ↦ none | some ns ↦ some (n ∷ ns) ]
]

-- `nums` is an array of three zeros before the loop.
abbrev from_parts : List ℕ → Version
from_parts ns = record {
  major = part_or_zero ns 0;
  minor = part_or_zero ns 1;
  patch = part_or_zero ns 2;
}

parse_trimmed : Text → Option Version
unfolding parse_parts parse_part
parse_trimmed [] = none
parse_trimmed (c ∷ s) = elim (parse_parts (take 3 (split (c ∷ s) b'.'))) [
  | none ↦ none
  | some ns ↦ some (from_parts ns)
]

unfoldable pub parse_version : Text → Option Version
unfolding parse_trimmed
parse_version raw = parse_trimmed (trim_space raw)

unfoldable pub compare_int : ℕ → ℕ → ℤ
compare_int a b = if ltb a b then minus_one else if ltb b a then pos 1 else pos 0

-- `Version.Compare`
unfoldable pub compare : Version → Version → ℤ
unfolding compare_int
compare v other =
    if v.major == other.major
    then (if v.minor == other.minor
        then compare_int v.patch other.patch
        else compare_int v.minor other.minor)
    else compare_int v.major other.major

-- `strings.Compare`
unfoldable pub compare_text : Text → Text → ℤ
compare_text [] [] = pos 0
compare_text [] (d ∷ t) = minus_one
compare_text (c ∷ s) [] = pos 1
compare_text (c ∷ s) (d ∷ t) =
    if c == d then compare_text s t else if ltb c d then minus_one else pos 1

compare_parsed : Option Version → Option Version → Text → Text → ℤ
unfolding compare compare_text
compare_parsed none none a b = compare_text a b
compare_parsed none (some bv) a b = minus_one
compare_parsed (some av) none a b = pos 1
compare_parsed (some av) (some bv) a b = compare av bv

unfoldable pub compare_versions : Text → Text → ℤ
unfolding compare_parsed
compare_versions a b = compare_parsed (parse_version a) (parse_version b) a b

-- The discarded error of `ParseVersion("10.15")` leaves the zero version.
abbrev catalina : Version
catalina = elim (parse_version (codes "10.15")) [
  | none ↦ record { major = 0; minor = 0; patch = 0 }
  | some v ↦ v
]

unfoldable pub supports_32bit_apps : Version → Bool
supports_32bit_apps v = is_negative (compare v catalina)
