-- ===== src/Macmeta/Png/Tests.antt =====
-- Runs of the search for a picture.
use legacy_store.Base.{◌≡◌, refl, List, [], ◌∷◌, ◌++◌, ℕ, codes}
use legacy_store.Macmeta.Png.{Search, signature, extract_png}
use legacy_store.Macmeta.Png.Within.{IsPart, extract_png-IsPart}

-- A chunk with one byte of data, and the last chunk.
abbrev picture : List ℕ
picture =
    signature
    ++ 0 ∷ 0 ∷ 0 ∷ 1 ∷ codes "IHDR"
    ++ 7 ∷ 0 ∷ 0 ∷ 0 ∷ 0 ∷ 0 ∷ 0 ∷ 0 ∷ 0 ∷ codes "IEND"
    ++ 0 ∷ 0 ∷ 0 ∷ 0 ∷ []

-- The first signature begins a picture that is cut off.
abbrev icons : List ℕ
icons = codes "icns" ++ signature ++ 255 ∷ 0 ∷ 0 ∷ 0 ∷ codes "IDAT" ++ picture ++ 1 ∷ 2 ∷ []

icons_run : extract_png icons ≡ Search.found picture
unfolding extract_png legacy_store.Macmeta.Png.index_of legacy_store.Base.Strings.has_prefix
    legacy_store.Macmeta.Bytes.read_unsigned legacy_store.Base.eqb
icons_run = refl

extract_png-IsPart_example : IsPart icons (extract_png icons)
extract_png-IsPart_example = extract_png-IsPart icons
