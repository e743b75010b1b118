-- ===== src/Compatibility/Engine.antt =====
-- compatibility/engine.go: the verdict on an artifact for a host. The codes, statuses and levels,
-- which the source spells as string constants, are enumerations here.
pub mod Boundaries
pub mod Obstacles
pub mod Verdicts
pub mod Consistency
mod Tests
use legacy_store.Architecture
use legacy_store.Architecture.{human_labels}
use legacy_store.Base.{
  ℕ, ◌≡◌, Bool, true, false, ◌&&◌, ◌||◌, not, List, [], ◌∷◌, ◌++◌, Option, none, some, Text, codes,
  any, if◌then◌else◌, ◌==◌,
}
use legacy_store.Base.Int.{ℤ, is_negative, is_positive}
use legacy_store.Base.Strings.{join}
use legacy_store.Compatibility.Version.{
  Version, parse_version, compare, compare_int, supports_32bit_apps,
}

pub record Target : Type 0 where
  pub os_version : Text
  pub arch : Text
  pub os_series : Bool

pub record Artifact : Type 0 where
  pub min_os : Text
  pub max_supported_os : Text
  pub max_tested_os : Text
  pub hard_block_above_max : Bool
  pub architectures : List Text
  pub requires_rosetta : Bool
  pub requires_java : Bool

pub data Code : Type 0 where
  unknown_compatibility os_too_old os_too_new arch_mismatch requires_rosetta : Code
  requires_java untested_newer_os : Code

pub record Reason : Type 0 where
  pub code : Code
  pub message : Text

pub data Status : Type 0 where
  blocked untested probably_compatible compatible : Status

pub data Level : Type 0 where
  blocked untested probably_compatible recommended : Level

-- `Result` of the source.
pub record Verdict : Type 0 where
  pub status : Status
  pub level : Level
  pub label : Text
  pub reasons : List Reason

abbrev reason : Code → Text → Reason
reason code message = record { code = code; message = message }

blocked_by : List Reason → Verdict
blocked_by reasons = record {
  status = Status.blocked;
  level = Level.blocked;
  label = codes "Не совместимо";
  reasons = reasons;
}

pub compare_target_os : Version → Version → Bool → ℤ
unfolding compare
compare_target_os target boundary series =
    if not series
    then compare target boundary
    else if target.major == boundary.major
    then compare_int target.minor boundary.minor
    else compare_int target.major boundary.major

is_blocking : Code → Bool
is_blocking os_too_old = true
is_blocking os_too_new = true
is_blocking arch_mismatch = true
is_blocking requires_rosetta = true
is_blocking unknown_compatibility = true
is_blocking requires_java = false
is_blocking untested_newer_os = false

pub has_blocking_reason : List Reason → Bool
unfolding is_blocking
has_blocking_reason reasons = any (λ r. is_blocking r.code) reasons

is_empty : Text → Bool
is_empty [] = true
is_empty (c ∷ s) = false

or_else : Text → Text → Text
or_else [] d = d
or_else (c ∷ s) d = c ∷ s

-- The two defaults at the top of `Evaluate`.
pub with_defaults : Target → Target
unfolding or_else
with_defaults t = record t {
  os_version = or_else t.os_version (codes "10.9.5");
  arch = or_else t.arch (codes "x86_64");
}

-- The messages that name versions and architectures.
below_minimum : Text → Text → Text
below_minimum os min =
    codes "Версия системы "
    ++ (os ++ (codes " ниже минимальной требуемой продуктом " ++ (min ++ codes ".")))

above_maximum : Text → Text → Text
above_maximum os max =
    codes "Версия системы "
    ++ (os ++ (codes " выше максимальной поддерживаемой продуктом " ++ (max ++ codes ".")))

above_tested : Text → Text → Text
above_tested os max =
    codes "Версия системы "
    ++ (os ++ (codes " новее максимальной протестированной версии " ++ (max ++ codes ".")))

wrong_architecture : Text → List Text → Text
wrong_architecture arch builds =
    codes "Архитектура вашего Mac "
    ++ (arch
        ++ (codes " не поддерживается этой сборкой. Требуется: "
            ++ (or_else (join (human_labels builds) (codes ", ")) (join builds (codes ", "))
                ++ codes ".")))

pub min_reasons : Target → Version → Artifact → List Reason
min_reasons t os a = if is_empty a.min_os then [] else elim (parse_version a.min_os) [
  | none ↦
      reason unknown_compatibility
        (codes "Минимальная версия системы указана в неизвестном формате.")
      ∷ []
  | some min ↦
      if is_negative (compare_target_os os min t.os_series)
      then reason os_too_old (below_minimum t.os_version a.min_os) ∷ []
      else []
]

pub max_reasons : Target → Version → Artifact → List Reason
max_reasons t os a =
    if is_empty a.max_supported_os then [] else elim (parse_version a.max_supported_os) [
      | none ↦
          reason unknown_compatibility
            (codes "Максимальная версия системы указана в неизвестном формате.")
          ∷ []
      | some max ↦
          if is_positive (compare_target_os os max t.os_series) && a.hard_block_above_max
          then reason os_too_new (above_maximum t.os_version a.max_supported_os) ∷ []
          else []
    ]

pub arch_reasons : Target → Version → List Text → List Reason
arch_reasons t os [] =
    reason unknown_compatibility (codes "Для сборки не указана архитектура процессора.") ∷ []
arch_reasons t os (b ∷ bs) =
    if Architecture.compatible t.arch (b ∷ bs) (supports_32bit_apps os)
    then []
    else reason arch_mismatch (wrong_architecture t.arch (b ∷ bs)) ∷ []

pub rosetta_reasons : Artifact → List Reason
rosetta_reasons a =
    if a.requires_rosetta
    then reason requires_rosetta
        (codes "Продукт требует Rosetta, что не поддерживается в этой версии LegacyStore.")
      ∷ []
    else []

java_reasons : Artifact → List Reason
java_reasons a =
    if a.requires_java
    then reason requires_java (codes "Для продукта может потребоваться Java.") ∷ []
    else []

-- The last step: the reasons collected so far do not block.
no_test_limit : List Reason → Verdict
no_test_limit [] = record {
  status = Status.compatible;
  level = Level.recommended;
  label = codes "Совместимо";
  reasons = [];
}
no_test_limit (r ∷ rs) = record {
  status = Status.probably_compatible;
  level = Level.probably_compatible;
  label = codes "Вероятно совместимо";
  reasons = r ∷ rs;
}

untested_because : List Reason → Verdict
untested_because reasons = record {
  status = Status.untested;
  level = Level.untested;
  label = codes "Не проверено";
  reasons = reasons;
}

is_above_tested : Target → Version → Artifact → Bool
is_above_tested t os a =
    if is_empty a.max_tested_os then false else elim (parse_version a.max_tested_os) [
      | none ↦ false
      | some max ↦ is_positive (compare_target_os os max t.os_series)
    ]

grade : Target → Version → Artifact → List Reason → Verdict
unfolding no_test_limit untested_because is_above_tested
grade t os a reasons =
    if is_above_tested t os a
    then untested_because
        (reasons ++ (reason untested_newer_os (above_tested t.os_version a.max_tested_os) ∷ []))
    else no_test_limit reasons

-- The blocking part of `Evaluate`, in the order in which the reasons are appended.
pub obstacles : Target → Version → Artifact → List Reason
obstacles t os a =
    min_reasons t os a
    ++ (max_reasons t os a ++ (arch_reasons t os a.architectures ++ rosetta_reasons a))

judge : Target → Version → Artifact → Verdict
judge t os a =
    let reasons = obstacles t os a in
    if has_blocking_reason reasons
    then blocked_by reasons
    else grade t os a (reasons ++ java_reasons a)

evaluate_with : Target → Artifact → Verdict
evaluate_with t a = elim (parse_version t.os_version) [
  | none ↦
      blocked_by (reason unknown_compatibility (codes "Не удалось определить версию системы.") ∷ [])
  | some os ↦ judge t os a
]

pub evaluate : Target → Artifact → Verdict
evaluate target artifact = evaluate_with (with_defaults target) artifact
