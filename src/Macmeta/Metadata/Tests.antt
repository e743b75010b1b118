-- ===== src/Macmeta/Metadata/Tests.antt =====
-- Runs of the metadata of an application.
use legacy_store.Base.{◌≡◌, refl, List, [], ◌∷◌, map, Text, codes}
use legacy_store.Base.Int.{pos}
use legacy_store.Macmeta.Metadata.{Metadata, Formats, apply_plist, validate_metadata}
use legacy_store.Macmeta.Values.{Value, Entries}

abbrev formats : Formats
formats = record {
  format_int = λ n. codes "10";
  format_float32 = λ bits. codes "10.5";
  format_float64 = λ bits. codes "10.5";
}

abbrev nothing_known : Metadata
nothing_known = record {
  name = [];
  bundle_id = [];
  version = [];
  category_slug = [];
  minimum_os = [];
  architectures = [];
  icon_data_url = [];
  icon_width = 0;
  icon_height = 0;
}

abbrev info_plist : Entries
info_plist = Entries.entry_then (codes "CFBundleDisplayName") (Value.text (codes " ")) (
    Entries.entry_then (codes "CFBundleName") (Value.text (codes "Chess ")) (
      Entries.entry_then (codes "CFBundleVersion") (Value.integer (pos 10)) (
        Entries.entry_then (codes "LSApplicationCategoryType")
          (Value.text (codes "public.app-category.Games")) Entries.no_entries)))

abbrev chess : Metadata
chess = apply_plist formats info_plist nothing_known

chess_run : chess ≡ record nothing_known {
  name = codes "Chess";
  version = codes "10";
  category_slug = codes "games";
}
unfolding apply_plist legacy_store.Base.eqb legacy_store.Base.Strings.trim_space
    legacy_store.Base.Strings.is_space legacy_store.Base.Strings.to_lower
chess_run = refl

warnings_run :
    map
      (λ w. w.code)
      (validate_metadata
        (record { file_name = []; package_type = []; metadata = chess; warnings = [] })).warnings
    ≡ codes "missing_bundle_id"
      ∷ codes "missing_minimum_os"
      ∷ codes "missing_architecture"
      ∷ codes "missing_icon"
      ∷ []
unfolding validate_metadata legacy_store.Base.eqb legacy_store.Base.Strings.trim_space apply_plist
    legacy_store.Base.Strings.to_lower legacy_store.Base.Strings.is_space
warnings_run = refl
