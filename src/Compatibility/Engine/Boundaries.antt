-- ===== src/Compatibility/Engine/Boundaries.antt =====
-- The host against the version limits of an artifact, and what keeps an artifact from a host.
use legacy_store.Architecture
use legacy_store.Base.{
  ℕ, ◌<◌, ◌≡◌, ◌≢◌, ◌↔◌, ◌⊎◌, refl, sym, ap, ◌∙◌, arith, Bool, true, false, ◌&&◌, ◌||◌, not, List,
  [], ◌∷◌, ◌++◌, Option, none, some, Text, any, if◌then◌else◌, Bool-cases, Option-cases, inl, inr,
  ◌==◌, or_true,
}
use legacy_store.Base.Int.{is_negative, is_positive}
use legacy_store.Compatibility.Version.{Version, parse_version, compare_int, supports_32bit_apps}
use legacy_store.Compatibility.Version.Order.{Before}
use legacy_store.Compatibility.Engine.{
  Target, Artifact, Reason, compare_target_os, has_blocking_reason,
}

-- `v` is before `w`; in a series of systems only the first two components count.
abbrev pub Below : Bool → Version → Version → Type 0
Below false v w = Before v w
Below true v w = (v.major < w.major) ⊎ ((v.major ≡ w.major) × (v.minor < w.minor))

pub compare-Below :
    (series : Bool) (v w : Version)
    → is_negative (compare_target_os v w series) ≡ true
    → Below series v w
unfolding compare_target_os compare_int
compare-Below false v w h = ground arith
compare-Below true v w h = ground arith

pub Below-compare :
    (series : Bool) (v w : Version)
    → Below series v w
    → is_negative (compare_target_os v w series) ≡ true
unfolding compare_target_os compare_int
Below-compare false v w h = ground arith
Below-compare true v w h = ground arith

pub compare-Above :
    (series : Bool) (v w : Version)
    → is_positive (compare_target_os v w series) ≡ true
    → Below series w v
unfolding compare_target_os compare_int
compare-Above false v w h = ground arith
compare-Above true v w h = ground arith

pub Above-compare :
    (series : Bool) (v w : Version)
    → Below series w v
    → is_positive (compare_target_os v w series) ≡ true
unfolding compare_target_os compare_int
Above-compare false v w h = ground arith
Above-compare true v w h = ground arith

-- What keeps an artifact from a host with a known system version.
pub data Obstacle (t : Target) (os : Version) (a : Artifact) : Type 0 where
  bad_minimum : a.min_os ≢ [] → parse_version a.min_os ≡ none → Obstacle t os a
  too_old :
      (min : Version)
      → parse_version a.min_os ≡ some min
      → Below t.os_series os min
      → Obstacle t os a
  bad_maximum : a.max_supported_os ≢ [] → parse_version a.max_supported_os ≡ none → Obstacle t os a
  too_new :
      (max : Version)
      → parse_version a.max_supported_os ≡ some max
      → Below t.os_series max os
      → a.hard_block_above_max ≡ true
      → Obstacle t os a
  no_architecture : a.architectures ≡ [] → Obstacle t os a
  wrong_architecture :
      Architecture.compatible t.arch a.architectures (supports_32bit_apps os) ≡ false
      → Obstacle t os a
  rosetta : a.requires_rosetta ≡ true → Obstacle t os a

-- The host is after the last version on which the artifact was tested.
abbrev pub IsUntested : Target → Version → Artifact → Type 0
IsUntested t os a =
    (max : Version) × (parse_version a.max_tested_os ≡ some max) × Below t.os_series max os

pub parse_version-nil : parse_version [] ≡ none
unfolding parse_version legacy_store.Base.Strings.trim_space
parse_version-nil = refl

any-append :
    {A : Type 0} (p : A → Bool) (xs ys : List A) → any p (xs ++ ys) ≡ (any p xs || any p ys)
any-append p [] ys = refl
any-append p (x ∷ xs) ys = ground (arith, any-append p xs ys)

pub blocking-append :
    (xs ys : List Reason)
    → has_blocking_reason (xs ++ ys) ≡ (has_blocking_reason xs || has_blocking_reason ys)
unfolding has_blocking_reason
blocking-append xs ys = any-append _ xs ys
