-- ===== src/Architecture.antt =====
-- backend/internal/architecture/architecture.go: processor architectures, their aliases and the
-- hosts that run them. A Go `map[string]bool` used as a set is the list of its members.
pub mod Canonical
pub mod Ranking
pub mod Collecting
pub mod Normal
pub mod Hosts
mod Tests
use legacy_store.Base.{
  ℕ, ◌≡◌, Bool, true, false, ◌&&◌, ◌||◌, List, [], ◌∷◌, ◌++◌, Option, none, some, Text, String,
  codes, eqb, any, ltb, if◌then◌else◌,
}
use legacy_store.Base.Sorting
use legacy_store.Base.Strings.{trim_space, to_lower}

-- The keys of `supported`.
abbrev pub supported : List Text
supported =
    codes "i386"
    ∷ codes "i686"
    ∷ codes "x86_64"
    ∷ codes "ppc"
    ∷ codes "ppc-g3"
    ∷ codes "ppc-g4"
    ∷ codes "ppc-g5"
    ∷ codes "ppc64"
    ∷ []

-- A key's presence in a set.
unfoldable pub has : List Text → Text → Bool
has set v = any (eqb v) set

abbrev is : Text → String → Bool
is v name = eqb v (codes name)

resolve_alias : Text → Text
resolve_alias v =
    if is v "amd64" || is v "x64" || is v "x86-64"
    then codes "x86_64"
    else if is v "386" || is v "x86" || is v "ia32"
    then codes "i386"
    else if is v "686"
    then codes "i686"
    else if is v "powerpc"
    then codes "ppc"
    else if is v "powerpc64"
    then codes "ppc64"
    else v

check_supported : Text → Option Text
unfolding has
check_supported v = if has supported v then some v else none

-- `none` is `ErrUnsupported`, the function's only error.
unfoldable pub normalize_one : Text → Option Text
unfolding check_supported resolve_alias
normalize_one v = check_supported (resolve_alias (to_lower (trim_space v)))

unfoldable pub order : Text → ℕ
order v =
    if is v "i386"
    then 10
    else if is v "i686"
    then 11
    else if is v "x86_64"
    then 20
    else if is v "ppc"
    then 30
    else if is v "ppc-g3"
    then 31
    else if is v "ppc-g4"
    then 32
    else if is v "ppc-g5"
    then 33
    else if is v "ppc64"
    then 34
    else 100

-- The loop of `Normalize`: the map `seen` and the slice `out`.
pub collect : List Text → List Text → List Text → Option (List Text)
unfolding has
collect seen out [] = some out
collect seen out (v ∷ vs) = elim (normalize_one v) [
  | none ↦ none
  | some n ↦ if has seen n then collect seen out vs else collect (n ∷ seen) (out ++ (n ∷ [])) vs
]

-- The test of `sort.SliceStable`.
abbrev pub ranks_before : Text → Text → Bool
ranks_before v w = ltb (order v) (order w)

sorted_or_refused : List Text → Option (List Text)
sorted_or_refused [] = none
sorted_or_refused (v ∷ vs) = some (Sorting.sort ranks_before (v ∷ vs))

unfoldable pub normalize : List Text → Option (List Text)
unfolding collect sorted_or_refused
normalize values = elim (collect [] [] values) [ none ↦ none | some out ↦ sorted_or_refused out ]

-- The set that `HumanLabels` and `Compatible` build: unknown names are skipped.
unfoldable pub known : List Text → List Text
known [] = []
known (v ∷ vs) = elim (normalize_one v) [ none ↦ known vs | some n ↦ n ∷ known vs ]

abbrev holds : List Text → String → Bool
holds set name = has set (codes name)

label : Bool → String → List Text
label true name = codes name ∷ []
label false name = []

unfoldable pub human_labels : List Text → List Text
unfolding has label
human_labels values =
    let set = known values in
    label (holds set "i386" || holds set "i686") "Intel 32 Bit (i386 or i686)"
    ++ (label (holds set "x86_64") "Intel 64 Bit (x86_64)"
        ++ (label (holds set "ppc") "PowerPC 32 Bit (ppc)"
            ++ (label (holds set "ppc-g3") "PowerPC G3 (ppc-g3)"
                ++ (label (holds set "ppc-g4") "PowerPC G4 (ppc-g4)"
                    ++ (label (holds set "ppc-g5") "PowerPC G5 (ppc-g5)"
                        ++ label (holds set "ppc64") "PowerPC 64 Bit (ppc64)")))))

-- The switch of `Compatible` on a normalised host.
pub runs_on : Text → List Text → Bool → Bool
runs_on host set with32 =
    if is host "i386" || is host "i686"
    then holds set "i386" || holds set "i686"
    else if is host "x86_64"
    then holds set "x86_64" || (with32 && (holds set "i386" || holds set "i686"))
    else if is host "ppc"
    then holds set "ppc"
    else if is host "ppc-g3"
    then holds set "ppc" || holds set "ppc-g3"
    else if is host "ppc-g4"
    then holds set "ppc" || holds set "ppc-g3" || holds set "ppc-g4"
    else if is host "ppc-g5"
    then holds set "ppc"
      || holds set "ppc-g3"
      || holds set "ppc-g4"
      || holds set "ppc-g5"
      || holds set "ppc64"
    else if is host "ppc64"
    then holds set "ppc64"
    else false

unfoldable pub compatible : Text → List Text → Bool → Bool
unfolding runs_on has
compatible target artifact supports_32bit_apps = elim (normalize_one target) [
  | none ↦ false
  | some host ↦ runs_on host (known artifact) supports_32bit_apps
]

unfoldable pub is_32bit : Text → Bool
is_32bit value = elim (normalize_one value) [
  | none ↦ false
  | some v ↦
      is v "i386" || is v "i686" || is v "ppc" || is v "ppc-g3" || is v "ppc-g4" || is v "ppc-g5"
]
