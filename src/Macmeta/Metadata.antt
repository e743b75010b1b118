-- ===== src/Macmeta/Metadata.antt =====
-- macmeta/inspect.go: the metadata of an application, what of it comes from a property list, and the
-- warnings about what is missing. How numbers are written is an argument.
mod Tests
use legacy_store.Base.{
  ℕ, Bool, true, false, List, [], ◌∷◌, ◌++◌, Option, none, some, Text, codes, eqb, any,
  if◌then◌else◌,
}
use legacy_store.Base.Dict.{lookup}
use legacy_store.Base.Int.{ℤ}
use legacy_store.Base.Strings.{trim_space, to_lower}
use legacy_store.Macmeta.Values.{Value, Entries}

pub record Warning : Type 0 where
  pub code : Text
  pub message : Text

pub record Metadata : Type 0 where
  pub name : Text
  pub bundle_id : Text
  pub version : Text
  pub category_slug : Text
  pub minimum_os : Text
  pub architectures : List Text
  pub icon_data_url : Text
  pub icon_width : ℕ
  pub icon_height : ℕ

pub record InspectionResult : Type 0 where
  pub file_name : Text
  pub package_type : Text
  pub metadata : Metadata
  pub warnings : List Warning

-- `strconv.FormatInt` and `strconv.FormatFloat`.
pub record Formats : Type 0 where
  pub format_int : ℤ → Text
  pub format_float32 : ℕ → Text
  pub format_float64 : ℕ → Text

-- `values[key]`
unfoldable pub entry_of : Text → Entries → Option Value
entry_of key Entries.no_entries = none
entry_of key (Entries.entry_then other value rest) =
    let further = entry_of key rest in if eqb other key then some value else further

-- The `switch` of `plistString`; `none` goes on with the next key.
unfoldable pub value_text : Formats → Value → Option Text
value_text f (Value.text t) =
    let trimmed = trim_space t in if eqb trimmed [] then none else some trimmed
value_text f (Value.integer n) = some (f.format_int n)
value_text f (Value.real32 bits) = some (f.format_float32 bits)
value_text f (Value.real64 bits) = some (f.format_float64 bits)
value_text f _ = none

-- `plistString`
unfoldable pub plist_string : Formats → Entries → List Text → Text
unfolding entry_of value_text
plist_string f values [] = []
plist_string f values (key ∷ keys) = elim (entry_of key values) [
  | none ↦ plist_string f values keys
  | some value ↦ elim (value_text f value) [ none ↦ plist_string f values keys | some t ↦ t ]
]

abbrev category : Text → Text → Text × Text
category kind slug = (codes "public.app-category." ++ kind, slug)

abbrev same_category : Text → Text × Text
same_category slug = category slug slug

-- `categoryMap`
abbrev pub category_map : List (Text × Text)
category_map =
    same_category (codes "books")
    ∷ same_category (codes "business")
    ∷ same_category (codes "developer-tools")
    ∷ same_category (codes "education")
    ∷ same_category (codes "entertainment")
    ∷ same_category (codes "finance")
    ∷ same_category (codes "food-drink")
    ∷ same_category (codes "games")
    ∷ same_category (codes "graphics-design")
    ∷ category (codes "healthcare-fitness") (codes "health-fitness")
    ∷ same_category (codes "lifestyle")
    ∷ same_category (codes "magazines-newspapers")
    ∷ same_category (codes "medical")
    ∷ same_category (codes "music")
    ∷ same_category (codes "navigation")
    ∷ same_category (codes "news")
    ∷ category (codes "photography") (codes "photo-video")
    ∷ same_category (codes "photo-video")
    ∷ same_category (codes "productivity")
    ∷ same_category (codes "reference")
    ∷ same_category (codes "safari-extensions")
    ∷ same_category (codes "shopping")
    ∷ same_category (codes "social-networking")
    ∷ same_category (codes "sports")
    ∷ same_category (codes "travel")
    ∷ same_category (codes "utilities")
    ∷ category (codes "video") (codes "photo-video")
    ∷ same_category (codes "weather")
    ∷ []

-- `applyPlist`
unfoldable pub apply_plist : Formats → Entries → Metadata → Metadata
unfolding plist_string lookup
apply_plist f values metadata =
    let kind = to_lower (plist_string f values (codes "LSApplicationCategoryType" ∷ [])) in
    record metadata {
      name = plist_string f values (codes "CFBundleDisplayName" ∷ codes "CFBundleName" ∷ []);
      bundle_id = plist_string f values (codes "CFBundleIdentifier" ∷ []);
      version =
          plist_string f values (codes "CFBundleShortVersionString" ∷ codes "CFBundleVersion" ∷ []);
      minimum_os =
          plist_string f values (codes "LSMinimumSystemVersion" ∷ codes "MinimumOSVersion" ∷ []);
      category_slug = elim (lookup kind category_map) [
        | none ↦ metadata.category_slug
        | some slug ↦ slug
      ];
    }

-- `addWarning`: each code once.
unfoldable pub add_warning : Text → Text → List Warning → List Warning
add_warning code message warnings =
    if any (λ w. eqb w.code code) warnings
    then warnings
    else warnings ++ record { code = code; message = message } ∷ []

abbrev warn_if : Bool → Text → Text → List Warning → List Warning
warn_if test code message warnings = if test then add_warning code message warnings else warnings

abbrev is_missing : Text → Bool
is_missing value = eqb (trim_space value) []

abbrev has_none : List Text → Bool
has_none [] = true
has_none (x ∷ xs) = false

-- `validateMetadata`
unfoldable pub validate_metadata : InspectionResult → InspectionResult
unfolding add_warning
validate_metadata result =
    let m = result.metadata in
    let w1 =
      warn_if (is_missing m.name) (codes "missing_name")
        (codes "Не удалось определить название приложения.") result.warnings in
    let w2 =
      warn_if (is_missing m.bundle_id) (codes "missing_bundle_id")
        (codes "Не удалось определить Bundle ID.") w1 in
    let w3 =
      warn_if (is_missing m.version) (codes "missing_version")
        (codes "Не удалось определить версию приложения.") w2 in
    let w4 =
      warn_if (is_missing m.category_slug) (codes "missing_category")
        (codes "Категория приложения не указана или имеет неизвестное значение.") w3 in
    let w5 =
      warn_if (is_missing m.minimum_os) (codes "missing_minimum_os")
        (codes "Минимальная версия OS X/macOS не указана в метаданных.") w4 in
    let w6 =
      warn_if (has_none m.architectures) (codes "missing_architecture")
        (codes "Архитектуру исполняемого файла определить не удалось; выберите её вручную.") w5 in
    let w7 =
      warn_if (is_missing m.icon_data_url) (codes "missing_icon")
        (codes "Иконку приложения не удалось найти или декодировать.") w6 in
    record result { warnings = w7 }
