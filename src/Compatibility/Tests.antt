-- ===== src/Compatibility/Tests.antt =====
-- Runs of the version functions.
use legacy_store.Base.{
  ℕ, ◌≡◌, refl, ◌↔◌, true, false, List, [], ◌∷◌, none, some, Text, codes, arith,
}
use legacy_store.Base.Int.{negsuc, neg}
use legacy_store.Compatibility.Version.{parse_version, compare_versions}
use legacy_store.Compatibility.Version.Order.{
  NotAfter, compare_versions-flip, compare_versions_trans,
}
use legacy_store.Compatibility.Version.Parsing.{dotted, value, parse_version-dotted}

compare_versions-flip_example :
    compare_versions (codes "10.8") (codes "10.7.5")
    ≡ neg (compare_versions (codes "10.7.5") (codes "10.8"))
compare_versions-flip_example = compare_versions-flip (codes "10.7.5") (codes "10.8")

older_run : compare_versions (codes "10.4.11") (codes "10.7.5") ≡ negsuc 0
unfolding compare_versions parse_version legacy_store.Base.Strings.trim_space
    legacy_store.Base.Strings.is_space legacy_store.Base.Strings.split
    legacy_store.Base.Strings.atoi legacy_store.Base.Strings.magnitude
    legacy_store.Base.Strings.digits_value legacy_store.Base.Strings.is_digit
older_run = refl

newer_run : compare_versions (codes "10.7.5") (codes "10.8") ≡ negsuc 0
unfolding compare_versions parse_version legacy_store.Base.Strings.trim_space
    legacy_store.Base.Strings.is_space legacy_store.Base.Strings.split
    legacy_store.Base.Strings.atoi legacy_store.Base.Strings.magnitude
    legacy_store.Base.Strings.digits_value legacy_store.Base.Strings.is_digit
newer_run = refl

older_first : NotAfter (compare_versions (codes "10.4.11") (codes "10.7.5"))
older_first = rw older_run refl

newer_last : NotAfter (compare_versions (codes "10.7.5") (codes "10.8"))
newer_last = rw newer_run refl

compare_versions_trans_example : NotAfter (compare_versions (codes "10.4.11") (codes "10.8"))
compare_versions_trans_example =
    compare_versions_trans (codes "10.4.11") (codes "10.7.5") (codes "10.8") older_first newer_last

parse_version-dotted_example :
    parse_version (dotted (1 ∷ 0 ∷ []) (7 ∷ []) (5 ∷ []))
    ≡ some (record { major = value (1 ∷ 0 ∷ []); minor = value (7 ∷ []); patch = value (5 ∷ []) })
parse_version-dotted_example =
    parse_version-dotted (1 ∷ 0 ∷ []) (7 ∷ []) (5 ∷ [])
      ((omega arith, (omega arith, tt)), omega arith) ((omega arith, tt), omega arith)
      ((omega arith, tt), omega arith)
