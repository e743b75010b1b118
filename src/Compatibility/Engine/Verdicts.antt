-- ===== src/Compatibility/Engine/Verdicts.antt =====
-- When `Evaluate` returns which status.
use legacy_store.Base.{
  ◌≡◌, ◌↔◌, refl, subst, arith, true, false, List, [], ◌∷◌, ◌++◌, none, some, Text, if◌then◌else◌,
  Bool-cases, Option-cases, inl, inr,
}
use legacy_store.Compatibility.Version.{Version, parse_version}
use legacy_store.Compatibility.Engine.{
  Target, Artifact, Reason, Status, has_blocking_reason, is_empty, with_defaults, min_reasons,
  max_reasons, arch_reasons, rosetta_reasons, java_reasons, obstacles, grade, judge, evaluate_with,
  evaluate, is_above_tested, blocked_by,
}
use legacy_store.Compatibility.Engine.Boundaries.{
  compare-Above, Above-compare, Obstacle, IsUntested, parse_version-nil,
}
use legacy_store.Compatibility.Engine.Obstacles.{
  obstacles-Obstacle, Obstacle-obstacles, obstacles-append,
}

above-IsUntested :
    (t : Target) (os : Version) (a : Artifact) → is_above_tested t os a ≡ true → IsUntested t os a
unfolding is_above_tested is_empty
above-IsUntested t os a h = elim (Option-cases (parse_version a.max_tested_os)) [
  | inl e ↦ ground arith
  | inr (m, e) ↦ (m, e, compare-Above t.os_series os m (ground arith))
]

IsUntested-above :
    (t : Target) (os : Version) (a : Artifact) → IsUntested t os a → is_above_tested t os a ≡ true
unfolding is_above_tested is_empty
IsUntested-above t os a (m, e, b) =
    ground (arith, Above-compare t.os_series os m b, parse_version-nil)

-- The status that an artifact deserves on a host whose target is complete.
pub data Deserves (t : Target) (a : Artifact) : Status → Type 0 where
  unknown_host : parse_version t.os_version ≡ none → Deserves t a Status.blocked
  obstructed :
      (os : Version)
      → parse_version t.os_version ≡ some os
      → Obstacle t os a
      → Deserves t a Status.blocked
  newer :
      (os : Version)
      → parse_version t.os_version ≡ some os
      → ¬ Obstacle t os a
      → IsUntested t os a
      → Deserves t a Status.untested
  java :
      (os : Version)
      → parse_version t.os_version ≡ some os
      → ¬ Obstacle t os a
      → ¬ IsUntested t os a
      → a.requires_java ≡ true
      → Deserves t a Status.probably_compatible
  clean :
      (os : Version)
      → parse_version t.os_version ≡ some os
      → ¬ Obstacle t os a
      → ¬ IsUntested t os a
      → a.requires_java ≡ false
      → Deserves t a Status.compatible

-- Every reason collected before the Java test blocks, so that none is left where nothing blocks.
module _ (t : Target) (os : Version) (a : Artifact) where
  min-nil : has_blocking_reason (min_reasons t os a) ≡ false → min_reasons t os a ≡ []
  unfolding min_reasons has_blocking_reason
  min-nil h = ground arith

  max-nil : has_blocking_reason (max_reasons t os a) ≡ false → max_reasons t os a ≡ []
  unfolding max_reasons has_blocking_reason
  max-nil h = ground arith

  arch-nil :
      (builds : List Text)
      → has_blocking_reason (arch_reasons t os builds) ≡ false
      → arch_reasons t os builds ≡ []
  unfolding arch_reasons has_blocking_reason
  arch-nil [] h = ground arith
  arch-nil (b ∷ bs) h = ground arith

  rosetta-nil : has_blocking_reason (rosetta_reasons a) ≡ false → rosetta_reasons a ≡ []
  unfolding rosetta_reasons has_blocking_reason
  rosetta-nil h = ground arith

  obstacles-nil : has_blocking_reason (obstacles t os a) ≡ false → obstacles t os a ≡ []
  obstacles-nil h =
      let e = obstacles-append t os a in
      let none_min = min-nil (ground arith) in
      let none_max = max-nil (ground arith) in
      let none_arch = arch-nil a.architectures (ground arith) in
      let none_rosetta = rosetta-nil (ground arith) in
      unfold obstacles in rw none_min (rw none_max (rw none_arch none_rosetta))

  grade-status :
      (reasons : List Reason)
      → reasons ≡ java_reasons a
      → (grade t os a reasons).status ≡ (
          if is_above_tested t os a
          then Status.untested
          else if a.requires_java
          then Status.probably_compatible
          else Status.compatible)
  unfolding grade java_reasons
  grade-status reasons e = ground arith

  judge-status : (judge t os a).status ≡ (
      if has_blocking_reason (obstacles t os a)
      then Status.blocked
      else if is_above_tested t os a
      then Status.untested
      else if a.requires_java
      then Status.probably_compatible
      else Status.compatible)
  unfolding judge
  judge-status = elim (Bool-cases (has_blocking_reason (obstacles t os a))) [
    | inl e ↦ rw e (unfold blocked_by in refl)
    | inr e ↦
        let unobstructed = obstacles-nil e in
        rw e (grade-status (obstacles t os a ++ java_reasons a) (rw unobstructed))
  ]

  not-obstructed : has_blocking_reason (obstacles t os a) ≡ false → ¬ Obstacle t os a
  not-obstructed e o = let h = Obstacle-obstacles o in cc

  not-above : is_above_tested t os a ≡ false → ¬ IsUntested t os a
  not-above e u = let h = IsUntested-above t os a u in cc

  judge-Deserves : parse_version t.os_version ≡ some os → Deserves t a (judge t os a).status
  judge-Deserves p = rw judge-status (elim (Bool-cases (has_blocking_reason (obstacles t os a))) [
    | inl e ↦ rw e (obstructed os p (obstacles-Obstacle t os a e))
    | inr e ↦ rw e (elim (Bool-cases (is_above_tested t os a)) [
      | inl u ↦ rw u (newer os p (not-obstructed e) (above-IsUntested t os a u))
      | inr u ↦ rw u (elim (Bool-cases a.requires_java) [
        | inl j ↦ simp j (java os p (not-obstructed e) (not-above u) j)
        | inr j ↦ simp j (clean os p (not-obstructed e) (not-above u) j)
      ])
    ])
  ])

evaluate_with-Deserves : (t : Target) (a : Artifact) → Deserves t a (evaluate_with t a).status
unfolding evaluate_with
evaluate_with-Deserves t a = elim (Option-cases (parse_version t.os_version)) [
  | inl e ↦ rw (e, evaluate_with) (unfold blocked_by in unknown_host e)
  | inr (os, e) ↦ rw (e, evaluate_with) (judge-Deserves t os a e)
]

module _ (t : Target) (os : Version) (a : Artifact) where
  not-blocking : ¬ Obstacle t os a → has_blocking_reason (obstacles t os a) ≡ false
  not-blocking no_obstacle = elim (Bool-cases (has_blocking_reason (obstacles t os a))) [
    | inl e ↦ absurd (no_obstacle (obstacles-Obstacle t os a e))
    | inr e ↦ e
  ]

  not-untested : ¬ IsUntested t os a → is_above_tested t os a ≡ false
  not-untested tested = elim (Bool-cases (is_above_tested t os a)) [
    | inl e ↦ absurd (tested (above-IsUntested t os a e))
    | inr e ↦ e
  ]

Deserves-status :
    (t : Target) (a : Artifact) {s : Status} → Deserves t a s → (evaluate_with t a).status ≡ s
unfolding evaluate_with
Deserves-status t a (unknown_host p) = rw (p, evaluate_with) (unfold blocked_by in refl)
Deserves-status t a (obstructed os p o) = ground (arith, judge-status t os a, Obstacle-obstacles o)
Deserves-status t a (newer os p no_obstacle u) =
    ground (arith, judge-status t os a, not-blocking t os a no_obstacle, IsUntested-above t os a u)
Deserves-status t a (java os p no_obstacle tested j) =
    ground (arith, judge-status t os a, not-blocking t os a no_obstacle, not-untested t os a tested)
Deserves-status t a (clean os p no_obstacle tested j) =
    ground (arith, judge-status t os a, not-blocking t os a no_obstacle, not-untested t os a tested)

-- The status of `Evaluate` is exactly the one that the artifact deserves on the host, once the
-- defaults of an incomplete target are filled in: blocked by an obstacle of system or processor,
-- untested above the newest tested system, probably compatible with a dependency, compatible
-- otherwise.
pub evaluate_iff :
    (t : Target) (a : Artifact) (s : Status)
    → ((evaluate t a).status ≡ s) ↔ Deserves (with_defaults t) a s
unfolding evaluate
evaluate_iff t a s = (
  λ e. subst (Deserves (with_defaults t) a) e (evaluate_with-Deserves (with_defaults t) a),
  λ d. Deserves-status (with_defaults t) a d,
)
