-- ===== src/Compatibility/Engine/Tests.antt =====
-- Runs of the compatibility engine.
use legacy_store.Base.{◌≡◌, refl, ◌↔◌, false, [], ◌∷◌, codes}
use legacy_store.Compatibility.Engine.{Target, Artifact, Status, with_defaults, evaluate}
use legacy_store.Compatibility.Engine.Consistency.{IsConsistent, evaluate-IsConsistent}
use legacy_store.Compatibility.Engine.Verdicts.{Deserves, evaluate_iff}

-- A Mac with Lion.
abbrev lion : Target
lion = record { os_version = codes "10.7.5"; arch = codes "x86_64"; os_series = false }

-- A program for Mountain Lion or later.
abbrev program : Artifact
program = record {
  min_os = codes "10.8";
  max_supported_os = [];
  max_tested_os = codes "10.14";
  hard_block_above_max = false;
  architectures = codes "x86_64" ∷ [];
  requires_rosetta = false;
  requires_java = false;
}

lion_run : (evaluate lion program).status ≡ Status.blocked
unfolding evaluate legacy_store.Compatibility.Engine.evaluate_with
    legacy_store.Compatibility.Version.parse_version legacy_store.Base.Strings.trim_space
    with_defaults legacy_store.Base.Strings.is_space legacy_store.Base.Strings.split
    legacy_store.Base.Strings.atoi legacy_store.Base.Strings.magnitude
    legacy_store.Base.Strings.digits_value legacy_store.Base.Strings.is_digit
    legacy_store.Compatibility.Engine.judge legacy_store.Compatibility.Engine.has_blocking_reason
    legacy_store.Compatibility.Engine.obstacles legacy_store.Compatibility.Engine.min_reasons
    legacy_store.Compatibility.Engine.is_empty legacy_store.Compatibility.Engine.compare_target_os
    legacy_store.Compatibility.Engine.blocked_by
lion_run = refl

evaluate_iff_example :
    ((evaluate lion program).status ≡ Status.blocked)
    ↔ Deserves (with_defaults lion) program Status.blocked
evaluate_iff_example = evaluate_iff lion program Status.blocked

evaluate-IsConsistent_example : IsConsistent (evaluate lion program)
evaluate-IsConsistent_example = evaluate-IsConsistent lion program
