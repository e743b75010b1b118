-- ===== src/Compatibility/Engine/Obstacles.antt =====
-- `Evaluate` collects a blocking reason exactly if there is an obstacle.
use legacy_store.Architecture
use legacy_store.Base.{
  ◌≡◌, ◌≢◌, refl, sym, ◌∙◌, arith, true, false, ◌||◌, List, [], ◌∷◌, none, some, Text, Option-cases,
  inl, inr, or_true,
}
use legacy_store.Compatibility.Version.{Version, parse_version, supports_32bit_apps}
use legacy_store.Compatibility.Engine.{
  Target, Artifact, has_blocking_reason, is_empty, min_reasons, max_reasons, arch_reasons,
  rosetta_reasons, obstacles,
}
use legacy_store.Compatibility.Engine.Boundaries.{
  Below, compare-Below, Below-compare, compare-Above, Above-compare, Obstacle, bad_minimum, too_old,
  bad_maximum, too_new, no_architecture, wrong_architecture, rosetta, parse_version-nil,
  blocking-append,
}

min-Obstacle :
    (t : Target) (os : Version) (a : Artifact)
    → has_blocking_reason (min_reasons t os a) ≡ true
    → Obstacle t os a
unfolding min_reasons has_blocking_reason is_empty
min-Obstacle t os a h = elim (Option-cases (parse_version a.min_os)) [
  | inl e ↦ bad_minimum (ground arith) e
  | inr (m, e) ↦ too_old m e (compare-Below t.os_series os m (ground arith))
]

max-Obstacle :
    (t : Target) (os : Version) (a : Artifact)
    → has_blocking_reason (max_reasons t os a) ≡ true
    → Obstacle t os a
unfolding max_reasons has_blocking_reason is_empty
max-Obstacle t os a h = elim (Option-cases (parse_version a.max_supported_os)) [
  | inl e ↦ bad_maximum (ground arith) e
  | inr (m, e) ↦ too_new m e (compare-Above t.os_series os m (ground arith)) (ground arith)
]

arch-Obstacle :
    (t : Target) (os : Version) (a : Artifact) (builds : List Text)
    → a.architectures ≡ builds
    → has_blocking_reason (arch_reasons t os builds) ≡ true
    → Obstacle t os a
unfolding arch_reasons has_blocking_reason
arch-Obstacle t os a [] e h = no_architecture e
arch-Obstacle t os a (b ∷ bs) e h = wrong_architecture (rw e (ground arith))

rosetta-Obstacle :
    (t : Target) (os : Version) (a : Artifact)
    → has_blocking_reason (rosetta_reasons a) ≡ true
    → Obstacle t os a
unfolding rosetta_reasons has_blocking_reason
rosetta-Obstacle t os a h = rosetta (ground arith)

pub obstacles-append :
    (t : Target) (os : Version) (a : Artifact)
    → has_blocking_reason (obstacles t os a) ≡ (
        has_blocking_reason (min_reasons t os a)
        || (has_blocking_reason (max_reasons t os a)
            || (has_blocking_reason (arch_reasons t os a.architectures)
                || has_blocking_reason (rosetta_reasons a))))
unfolding obstacles
obstacles-append t os a = simp blocking-append

pub obstacles-Obstacle :
    (t : Target) (os : Version) (a : Artifact)
    → has_blocking_reason (obstacles t os a) ≡ true
    → Obstacle t os a
obstacles-Obstacle t os a h = elim (or_true _ _ (sym (obstacles-append t os a) ∙ h)) [
  | inl k ↦ min-Obstacle t os a k
  | inr k ↦ elim (or_true _ _ k) [
    | inl k' ↦ max-Obstacle t os a k'
    | inr k' ↦ elim (or_true _ _ k') [
      | inl m ↦ arch-Obstacle t os a a.architectures refl m
      | inr m ↦ rosetta-Obstacle t os a m
    ]
  ]
]

bad-minimum-blocks :
    (t : Target) (os : Version) (a : Artifact)
    → a.min_os ≢ []
    → parse_version a.min_os ≡ none
    → has_blocking_reason (min_reasons t os a) ≡ true
unfolding min_reasons has_blocking_reason is_empty
bad-minimum-blocks t os a ne e = ground arith

too-old-blocks :
    (t : Target) (os : Version) (a : Artifact) (m : Version)
    → parse_version a.min_os ≡ some m
    → Below t.os_series os m
    → has_blocking_reason (min_reasons t os a) ≡ true
unfolding min_reasons has_blocking_reason is_empty
too-old-blocks t os a m e b = ground (arith, Below-compare t.os_series os m b, parse_version-nil)

bad-maximum-blocks :
    (t : Target) (os : Version) (a : Artifact)
    → a.max_supported_os ≢ []
    → parse_version a.max_supported_os ≡ none
    → has_blocking_reason (max_reasons t os a) ≡ true
unfolding max_reasons has_blocking_reason is_empty
bad-maximum-blocks t os a ne e = ground arith

too-new-blocks :
    (t : Target) (os : Version) (a : Artifact) (m : Version)
    → parse_version a.max_supported_os ≡ some m
    → Below t.os_series m os
    → a.hard_block_above_max ≡ true
    → has_blocking_reason (max_reasons t os a) ≡ true
unfolding max_reasons has_blocking_reason is_empty
too-new-blocks t os a m e b hard =
    ground (arith, Above-compare t.os_series os m b, parse_version-nil)

arch-blocks :
    (t : Target) (os : Version) (builds : List Text)
    → Architecture.compatible t.arch builds (supports_32bit_apps os) ≡ false
    → has_blocking_reason (arch_reasons t os builds) ≡ true
unfolding arch_reasons has_blocking_reason
arch-blocks t os [] h = refl
arch-blocks t os (b ∷ bs) h = rw h

rosetta-blocks :
    (a : Artifact) → a.requires_rosetta ≡ true → has_blocking_reason (rosetta_reasons a) ≡ true
unfolding rosetta_reasons has_blocking_reason
rosetta-blocks a h = ground arith

no-architecture-blocks :
    (t : Target) (os : Version) (builds : List Text)
    → builds ≡ []
    → has_blocking_reason (arch_reasons t os builds) ≡ true
unfolding arch_reasons has_blocking_reason
no-architecture-blocks t os [] h = refl
no-architecture-blocks t os (b ∷ bs) h = cc

pub Obstacle-obstacles :
    {t : Target} {os : Version} {a : Artifact}
    → Obstacle t os a
    → has_blocking_reason (obstacles t os a) ≡ true
Obstacle-obstacles {t} {os} {a} (bad_minimum ne e) =
    ground (arith, obstacles-append t os a, bad-minimum-blocks t os a ne e)
Obstacle-obstacles {t} {os} {a} (too_old m e b) =
    ground (arith, obstacles-append t os a, too-old-blocks t os a m e b)
Obstacle-obstacles {t} {os} {a} (bad_maximum ne e) =
    ground (arith, obstacles-append t os a, bad-maximum-blocks t os a ne e)
Obstacle-obstacles {t} {os} {a} (too_new m e b h) =
    ground (arith, obstacles-append t os a, too-new-blocks t os a m e b h)
Obstacle-obstacles {t} {os} {a} (no_architecture e) =
    ground (arith, obstacles-append t os a, no-architecture-blocks t os a.architectures e)
Obstacle-obstacles {t} {os} {a} (wrong_architecture h) =
    ground (arith, obstacles-append t os a, arch-blocks t os a.architectures h)
Obstacle-obstacles {t} {os} {a} (rosetta h) =
    ground (arith, obstacles-append t os a, rosetta-blocks a h)
