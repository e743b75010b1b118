-- ===== src/Catalog/Selection.antt =====
-- catalog/store.go: `chooseArtifact`, the recommended artifact of an application.
pub mod Newer
pub mod Best
mod Tests
use legacy_store.Base.{
  ℕ, zero, suc, Bool, true, false, not, ◌||◌, List, [], ◌∷◌, Option, none, some, Text, codes, ltb,
  if◌then◌else◌,
}
use legacy_store.Base.Int.{ℤ, pos, negsuc, is_positive}
use legacy_store.Base.Sorting
use legacy_store.Catalog.Row.{ArtifactRow, compatibility_artifact}
use legacy_store.Compatibility.Engine.{Target, Code, Status, Level, Verdict, evaluate}
use legacy_store.Compatibility.Version.{compare_versions}

abbrev is_zero : ℤ → Bool
is_zero (pos zero) = true
is_zero (pos (suc n)) = false
is_zero (negsuc n) = false

abbrev same_bool : Bool → Bool → Bool
same_bool true b = b
same_bool false b = not b

-- The test of `sort.SliceStable`: newer versions first, then recommended ones, then the smaller id.
pub comes_before : ArtifactRow → ArtifactRow → Bool
comes_before a b =
    let cmp = compare_versions a.version b.version in
    if not (is_zero cmp)
    then is_positive cmp
    else if not (same_bool a.is_recommended b.is_recommended)
    then a.is_recommended
    else ltb a.id b.id

pub judge_row : Target → ArtifactRow → Verdict
judge_row target row = evaluate target (compatibility_artifact row)

pub is_offered : Status → Bool
is_offered Status.compatible = true
is_offered Status.probably_compatible = true
is_offered Status.untested = true
is_offered Status.blocked = false

-- The loop over the sorted rows; `fallback` is set by its first round.
choose_from :
    Target → Option (ArtifactRow × Verdict) → List ArtifactRow → Option (ArtifactRow × Verdict)
unfolding is_offered
choose_from target fallback [] = fallback
choose_from target none (row ∷ rows) =
    let result = judge_row target row in
    let rest = choose_from target (some (row, result)) rows in
    if is_offered result.status then some (row, result) else rest
choose_from target (some f) (row ∷ rows) =
    let result = judge_row target row in
    let rest = choose_from target (some f) rows in
    if is_offered result.status then some (row, result) else rest

nothing_published : Verdict
nothing_published = record {
  status = Status.blocked;
  level = Level.blocked;
  label = codes "Не совместимо";
  reasons =
      record {
        code = Code.unknown_compatibility;
        message = codes "Для приложения нет опубликованных файлов.";
      }
      ∷ [];
}

-- A nil pointer is `none`.
abbrev as_pair : Option (ArtifactRow × Verdict) → Option ArtifactRow × Verdict
as_pair none = (none, nothing_published)
as_pair (some (row, result)) = (some row, result)

-- `chooseArtifact`
pub choose_artifact : Target → List ArtifactRow → Option ArtifactRow × Verdict
choose_artifact target [] = (none, nothing_published)
choose_artifact target (row ∷ rows) =
    as_pair (choose_from target none (Sorting.sort comes_before (row ∷ rows)))
