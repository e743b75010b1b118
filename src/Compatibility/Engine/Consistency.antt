-- ===== src/Compatibility/Engine/Consistency.antt =====
-- The parts of a verdict agree with each other.
use legacy_store.Base.{
  ◌≡◌, ◌≢◌, refl, arith, true, false, List, [], ◌∷◌, ◌++◌, Bool-cases, Option-cases, inl, inr,
}
use legacy_store.Compatibility.Version.{Version, parse_version}
use legacy_store.Compatibility.Engine.{
  Target, Artifact, Code, Reason, Status, Verdict, has_blocking_reason, with_defaults, java_reasons,
  obstacles, grade, judge, evaluate_with, evaluate, is_above_tested, above_tested, reason,
  blocked_by,
}
use legacy_store.Compatibility.Engine.Boundaries.{blocking-append}

-- What the parts of a verdict say agrees with its status: a blocked one names a blocking reason,
-- no other one does, and a recommended one has no reason at all.
abbrev pub IsConsistent : Verdict → Type 0
IsConsistent v =
    (has_blocking_reason v.reasons ≡ true → v.status ≡ Status.blocked)
    × (v.status ≡ Status.blocked → has_blocking_reason v.reasons ≡ true)
    × (v.status ≡ Status.compatible → v.reasons ≡ [])
    × (v.reasons ≡ [] → v.status ≡ Status.compatible)

java-harmless : (a : Artifact) → has_blocking_reason (java_reasons a) ≡ false
unfolding java_reasons has_blocking_reason
java-harmless a = ground arith

abbrev untested_reason : Target → Artifact → Reason
untested_reason t a = reason Code.untested_newer_os (above_tested t.os_version a.max_tested_os)

grade-IsConsistent :
    (t : Target) (os : Version) (a : Artifact) (reasons : List Reason)
    → has_blocking_reason reasons ≡ false
    → IsConsistent (grade t os a reasons)
unfolding grade
grade-IsConsistent t os a [] h = elim (Bool-cases (is_above_tested t os a)) [
  | inl e ↦ rw e (unfold has_blocking_reason in ((λ x. cc), (λ x. cc), (λ x. cc), (λ x. cc)))
  | inr e ↦ rw e (unfold has_blocking_reason in ((λ x. cc), (λ x. cc), (λ x. refl), (λ x. refl)))
]
grade-IsConsistent t os a (r ∷ rs) h = elim (Bool-cases (is_above_tested t os a)) [
  | inl e ↦
      let harmless : has_blocking_reason ((r ∷ rs) ++ (untested_reason t a ∷ [])) ≡ false =
        rw (blocking-append (r ∷ rs) (untested_reason t a ∷ [])) (rw h untested-harmless) in
      rw e ((λ x. cc), (λ x. cc), (λ x. cc), (λ x. cc))
  | inr e ↦ rw e ((λ x. cc), (λ x. cc), (λ x. cc), (λ x. cc))
]
  where
    untested-harmless : has_blocking_reason (untested_reason t a ∷ []) ≡ false
    untested-harmless = unfold has_blocking_reason in refl

blocking-ne-nil : (rs : List Reason) → has_blocking_reason rs ≡ true → rs ≢ []
unfolding has_blocking_reason
blocking-ne-nil [] h e = cc
blocking-ne-nil (r ∷ rs) h e = cc

judge-IsConsistent : (t : Target) (os : Version) (a : Artifact) → IsConsistent (judge t os a)
unfolding judge blocked_by
judge-IsConsistent t os a = elim (Bool-cases (has_blocking_reason (obstacles t os a))) [
  | inl e ↦
      rw e
        ((λ x. refl), (λ x. e), (λ x. cc), (λ x. absurd (blocking-ne-nil (obstacles t os a) e x)))
  | inr e ↦
      let clean : has_blocking_reason (obstacles t os a ++ java_reasons a) ≡ false =
        rw (blocking-append (obstacles t os a) (java_reasons a)) (rw e (java-harmless a)) in
      rw e (grade-IsConsistent t os a _ clean)
]

-- The parts of a verdict agree: it is blocked exactly if it gives a blocking reason, and
-- compatible exactly if it gives no reason.
pub evaluate-IsConsistent : (t : Target) (a : Artifact) → IsConsistent (evaluate t a)
unfolding evaluate evaluate_with blocked_by has_blocking_reason
evaluate-IsConsistent t a = elim (Option-cases (parse_version (with_defaults t).os_version)) [
  | inl e ↦ rw (e, evaluate_with) ((λ x. refl), (λ x. refl), (λ x. cc), (λ x. cc))
  | inr (os, e) ↦ rw (e, evaluate_with) (judge-IsConsistent (with_defaults t) os a)
]
