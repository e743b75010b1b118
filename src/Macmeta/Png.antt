-- ===== src/Macmeta/Png.antt =====
-- macmeta/inspect.go: `extractPNG`, the first PNG picture within the bytes of an icon file. Both
-- loops run on fuel; that it suffices is shown below.
pub mod Within
mod Tests
use legacy_store.Base.{
  ℕ, zero, suc, ◌+◌, ◌-◌, Bool, List, [], ◌∷◌, Option, none, some, Text, codes, eqb, ltb, leb,
  if◌then◌else◌, length, take, drop,
}
use legacy_store.Base.Strings.{has_prefix}
use legacy_store.Macmeta.Bytes.{read_unsigned}

-- What a search comes to; a nil slice is `missing`.
pub data Search : Type 0 where
  out_of_fuel : Search
  missing : Search
  found : List ℕ → Search

abbrev pub signature : List ℕ
signature = 0x89 ∷ 0x50 ∷ 0x4e ∷ 0x47 ∷ 0xd ∷ 0xa ∷ 0x1a ∷ 0xa ∷ []

abbrev pub one_later : Option ℕ → Option ℕ
one_later none = none
one_later (some n) = some (suc n)

-- `bytes.Index`; -1 is `none`.
unfoldable pub index_of : List ℕ → List ℕ → Option ℕ
index_of part [] = if has_prefix [] part then some 0 else none
index_of part (b ∷ bytes) =
    let later = one_later (index_of part bytes) in
    if has_prefix (b ∷ bytes) part then some 0 else later

-- The loop over the chunks, from `pos`, for a picture that begins at `offset`.
unfoldable pub scan_chunks : ℕ → List ℕ → ℕ → ℕ → Search
scan_chunks zero bytes offset pos = if leb (pos + 12) (length bytes) then out_of_fuel else missing
scan_chunks (suc fuel) bytes offset pos =
    let next = pos + 12 + read_unsigned (take 4 (drop pos bytes)) in
    let further = scan_chunks fuel bytes offset next in
    if leb (pos + 12) (length bytes)
    then (if ltb (length bytes) next
        then missing
        else if eqb (take 4 (drop (pos + 4) bytes)) (codes "IEND")
        then found (take (next - offset) (drop offset bytes))
        else further)
    else missing

-- The loop over the signatures, from the one at `offset`.
unfoldable pub find_png : ℕ → List ℕ → ℕ → Search
unfolding scan_chunks
find_png zero bytes offset = out_of_fuel
find_png (suc fuel) bytes offset = elim (scan_chunks (length bytes) bytes offset (offset + 8)) [
  | out_of_fuel ↦ out_of_fuel
  | found png ↦ found png
  | missing ↦ elim (index_of signature (drop (offset + 8) bytes)) [
    | none ↦ missing
    | some next ↦ find_png fuel bytes (offset + 8 + next)
  ]
]

-- `extractPNG`
unfoldable pub extract_png : List ℕ → Search
unfolding find_png
extract_png bytes = elim (index_of signature bytes) [
  | none ↦ missing
  | some offset ↦ find_png (length bytes) bytes offset
]
