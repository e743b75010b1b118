-- ===== src/Macmeta/Plist/Tests.antt =====
-- Runs of the parser of binary property lists.
use legacy_store.Base.{ℕ, ◌≡◌, refl, arith, Bool, true, List, [], ◌∷◌, ◌++◌, Text, codes, length}
use legacy_store.Macmeta.Bytes.{Outcome, IsSafe}
use legacy_store.Macmeta.Plist.Object.{open_plist, parse_binary_plist, parse_plist}
use legacy_store.Macmeta.Plist.Objects.{are_short_runs}
use legacy_store.Macmeta.Plist.Safe.{parse_binary_plist-IsSafe}
use legacy_store.Macmeta.Values.{Error, Value, Entries}
use Outcome.{panicked, failed, done}

abbrev zeros : List ℕ → List ℕ
zeros rest = 0 ∷ 0 ∷ 0 ∷ 0 ∷ 0 ∷ 0 ∷ 0 ∷ rest

-- The last 32 bytes, for references and offsets of one byte and the top object 0.
abbrev trailer : ℕ → ℕ → List ℕ
trailer objects table =
    0 ∷ 0 ∷ 0 ∷ 0 ∷ 0 ∷ 0 ∷ 1 ∷ 1 ∷ zeros (objects ∷ zeros (0 ∷ zeros (table ∷ [])))

abbrev plain : List ℕ → Text
plain units = units

abbrev no_xml : List ℕ → Outcome Entries
no_xml bytes = failed Error.empty_plist

-- The dictionary with the one key "A", whose value is true.
abbrev flag_plist : List ℕ
flag_plist = codes "bplist00" ++ 0xd1 ∷ 1 ∷ 2 ∷ 0x51 ∷ 65 ∷ 9 ∷ 8 ∷ 11 ∷ 13 ∷ trailer 3 14

flag_plist_run :
    parse_binary_plist plain flag_plist
    ≡ done
        (Value.dictionary (Entries.entry_then (codes "A") (Value.boolean true) Entries.no_entries))
unfolding parse_binary_plist open_plist legacy_store.Base.Strings.has_prefix
    legacy_store.Macmeta.Plist.Object.read_trailer legacy_store.Macmeta.Bytes.byte_at
    legacy_store.Macmeta.Bytes.slice legacy_store.Macmeta.Plist.Object.open_table
    legacy_store.Macmeta.Plist.Object.is_size legacy_store.Macmeta.Bytes.read_unsigned
    legacy_store.Macmeta.Plist.Object.read_offsets legacy_store.Macmeta.Plist.Object.object
    legacy_store.Macmeta.Plist.Reading.memo_of legacy_store.Macmeta.Plist.Reading.is_parsing
    legacy_store.Macmeta.Plist.Object.read_object legacy_store.Macmeta.Plist.Object.read_kind
    legacy_store.Macmeta.Plist.Reading.kind_of legacy_store.Macmeta.Plist.Reading.object_length
    legacy_store.Macmeta.Plist.Reading.read_dictionary
    legacy_store.Macmeta.Plist.Reading.read_entries legacy_store.Macmeta.Plist.Reading.reference
    legacy_store.Macmeta.Plist.Reading.read_bytes legacy_store.Macmeta.Plist.Object.finish
    legacy_store.Macmeta.Plist.Reading.key_text legacy_store.Base.Queries.select
    legacy_store.Macmeta.Plist.Reading.set_entry legacy_store.Macmeta.Plist.Reading.simple_value
flag_plist_run = refl

-- An array that holds itself.
abbrev cyclic_plist : List ℕ
cyclic_plist = codes "bplist00" ++ 0xa1 ∷ 0 ∷ 8 ∷ trailer 1 10

cyclic_plist_run : parse_binary_plist plain cyclic_plist ≡ failed Error.cycle
unfolding parse_binary_plist open_plist legacy_store.Base.Strings.has_prefix
    legacy_store.Macmeta.Plist.Object.read_trailer legacy_store.Macmeta.Bytes.byte_at
    legacy_store.Macmeta.Bytes.slice legacy_store.Macmeta.Plist.Object.open_table
    legacy_store.Macmeta.Plist.Object.is_size legacy_store.Macmeta.Bytes.read_unsigned
    legacy_store.Macmeta.Plist.Object.read_offsets legacy_store.Macmeta.Plist.Object.object
    legacy_store.Macmeta.Plist.Reading.memo_of legacy_store.Macmeta.Plist.Reading.is_parsing
    legacy_store.Macmeta.Plist.Object.read_object legacy_store.Macmeta.Plist.Object.read_kind
    legacy_store.Macmeta.Plist.Reading.kind_of legacy_store.Macmeta.Plist.Reading.object_length
    legacy_store.Macmeta.Plist.Reading.read_array legacy_store.Macmeta.Plist.Reading.read_items
    legacy_store.Macmeta.Plist.Reading.reference
cyclic_plist_run = refl

-- A string that announces 2^64 - 1 bytes: the sum that is tested wraps, and the slice panics.
abbrev wrapping_plist : List ℕ
wrapping_plist =
    codes "bplist00"
    ++ 0x5f ∷ 0x13 ∷ 255 ∷ 255 ∷ 255 ∷ 255 ∷ 255 ∷ 255 ∷ 255 ∷ 255 ∷ 8 ∷ trailer 1 18

wrapping_plist_run : parse_binary_plist plain wrapping_plist ≡ panicked
unfolding parse_binary_plist open_plist legacy_store.Base.Strings.has_prefix
    legacy_store.Macmeta.Plist.Object.read_trailer legacy_store.Macmeta.Bytes.byte_at
    legacy_store.Macmeta.Bytes.slice legacy_store.Macmeta.Plist.Object.open_table
    legacy_store.Macmeta.Plist.Object.is_size legacy_store.Macmeta.Bytes.read_unsigned
    legacy_store.Macmeta.Plist.Object.read_offsets legacy_store.Macmeta.Plist.Object.object
    legacy_store.Macmeta.Plist.Reading.memo_of legacy_store.Macmeta.Plist.Reading.is_parsing
    legacy_store.Macmeta.Plist.Object.read_object legacy_store.Macmeta.Plist.Object.read_kind
    legacy_store.Macmeta.Plist.Reading.kind_of legacy_store.Macmeta.Plist.Reading.object_length
    legacy_store.Macmeta.Plist.Reading.extended_length legacy_store.Macmeta.Plist.Reading.read_bytes
wrapping_plist_run = refl

-- A file that ends in 0x20, the offset of its table: `ParsePlist` trims that byte.
abbrev trimmed_plist : List ℕ
trimmed_plist =
    codes "bplist00"
    ++ 0xd1 ∷ 1 ∷ 2 ∷ 9 ∷ 0x5f ∷ 0x10 ∷ 17 ∷ codes "CFBundleIconFiles"
    ++ 8 ∷ 12 ∷ 11 ∷ trailer 3 32

trimmed_plist_run :
    parse_binary_plist plain trimmed_plist
    ≡ done (
        Value.dictionary
          (Entries.entry_then (codes "CFBundleIconFiles") (Value.boolean true) Entries.no_entries))
unfolding parse_binary_plist open_plist legacy_store.Base.Strings.has_prefix
    legacy_store.Macmeta.Plist.Object.read_trailer legacy_store.Macmeta.Bytes.byte_at
    legacy_store.Macmeta.Bytes.slice legacy_store.Macmeta.Plist.Object.open_table
    legacy_store.Macmeta.Plist.Object.is_size legacy_store.Macmeta.Bytes.read_unsigned
    legacy_store.Macmeta.Plist.Object.read_offsets legacy_store.Macmeta.Plist.Object.object
    legacy_store.Macmeta.Plist.Reading.memo_of legacy_store.Macmeta.Plist.Reading.is_parsing
    legacy_store.Macmeta.Plist.Object.read_object legacy_store.Macmeta.Plist.Object.read_kind
    legacy_store.Macmeta.Plist.Reading.kind_of legacy_store.Macmeta.Plist.Reading.object_length
    legacy_store.Macmeta.Plist.Reading.read_dictionary
    legacy_store.Macmeta.Plist.Reading.read_entries legacy_store.Macmeta.Plist.Reading.reference
    legacy_store.Macmeta.Plist.Reading.extended_length legacy_store.Macmeta.Plist.Reading.read_bytes
    legacy_store.Macmeta.Plist.Object.finish legacy_store.Macmeta.Plist.Reading.key_text
    legacy_store.Base.Queries.select legacy_store.Macmeta.Plist.Reading.set_entry
    legacy_store.Macmeta.Plist.Reading.simple_value
trimmed_plist_run = refl

trimmed_run : parse_plist plain no_xml trimmed_plist ≡ failed Error.invalid_sizes
unfolding parse_plist legacy_store.Base.eqb legacy_store.Base.Strings.trim_space
    legacy_store.Base.Strings.is_space legacy_store.Base.Strings.has_prefix parse_binary_plist
    open_plist legacy_store.Macmeta.Plist.Object.read_trailer legacy_store.Macmeta.Bytes.byte_at
    legacy_store.Macmeta.Bytes.slice legacy_store.Macmeta.Plist.Object.open_table
    legacy_store.Macmeta.Plist.Object.is_size
trimmed_run = refl

parse_binary_plist-IsSafe_example : IsSafe (parse_binary_plist plain flag_plist)
unfolding open_plist legacy_store.Base.Strings.has_prefix
    legacy_store.Macmeta.Plist.Object.read_trailer legacy_store.Macmeta.Bytes.byte_at
    legacy_store.Macmeta.Bytes.slice legacy_store.Macmeta.Plist.Object.open_table
    legacy_store.Macmeta.Plist.Object.is_size legacy_store.Macmeta.Bytes.read_unsigned
    legacy_store.Macmeta.Plist.Object.read_offsets legacy_store.Macmeta.Plist.Reading.kind_of
    legacy_store.Macmeta.Plist.Reading.object_length
parse_binary_plist-IsSafe_example =
    parse_binary_plist-IsSafe plain flag_plist (omega arith) flag_lengths
  where
    flag_lengths : are_short_runs (open_plist flag_plist) ≡ true
    flag_lengths = refl
