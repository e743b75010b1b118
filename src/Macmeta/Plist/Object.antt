-- ===== src/Macmeta/Plist/Object.antt =====
-- macmeta/plist.go: `object` and `parseBinaryPlist`. `utf16.Decode` is an argument.
use legacy_store.Base.{
  ℕ, zero, suc, ◌-◌, ◌/◌, ◌%◌, ◌^◌, Bool, not, ◌&&◌, ◌||◌, List, [], ◌∷◌, none, some, Text, codes,
  ◌+◌, eqb, ltb, leb, ◌==◌, if◌then◌else◌, length, get_elem?,
}
use legacy_store.Base.Queries.{select}
use legacy_store.Base.Strings.{has_prefix, trim_space}
use legacy_store.Macmeta.Bytes.{Outcome, ◌>>=◌, slice, byte_at, add64, mul64, read_unsigned}
use legacy_store.Macmeta.Values.{Error, Value, Entries}
use Outcome.{failed, done}
use legacy_store.Macmeta.Plist.Reading.{
  Parser, Progress, memo_of, is_parsing, object_length, Step, Kind, kind_of, simple_value,
  read_integer, read_real, read_bytes, read_unicode, read_array, read_dictionary,
}

-- The loop over the offset table, from the `i`-th entry.
unfoldable pub read_offsets : List ℕ → ℕ → ℕ → ℕ → ℕ → Outcome (List ℕ)
read_offsets bytes table size i zero = done []
read_offsets bytes table size i (suc count) = do
  let start = add64 table (mul64 i size)
  entry ← slice bytes start (add64 start size)
  let offset = read_unsigned entry
  offsets ←
      (if leb (length bytes - 32) offset
        then failed Error.offset_out_of_bounds
        else read_offsets bytes table size (suc i) count)
  done (offset ∷ offsets)

-- The trailer's fields, at their places in the last 32 bytes.
pub record Trailer : Type 0 where
  pub offset_size : ℕ
  pub ref_size : ℕ
  pub num_objects : ℕ
  pub top_object : ℕ
  pub table_offset : ℕ

unfoldable pub read_trailer : List ℕ → Outcome Trailer
read_trailer bytes = do
  let last = length bytes - 32
  offset_size ← byte_at bytes (last + 6)
  ref_size ← byte_at bytes (last + 7)
  num_objects ← slice bytes (last + 8) (last + 16)
  top_object ← slice bytes (last + 16) (last + 24)
  table_offset ← slice bytes (last + 24) (last + 32)
  done (record {
    offset_size = offset_size;
    ref_size = ref_size;
    num_objects = read_unsigned num_objects;
    top_object = read_unsigned top_object;
    table_offset = read_unsigned table_offset;
  })

unfoldable pub is_size : ℕ → Bool
is_size n = not (ltb n 1 || ltb 8 n)

-- What `parseBinaryPlist` does with the trailer: the parser, and the index of the top object.
unfoldable pub open_table : List ℕ → Trailer → Outcome (Parser × ℕ)
open_table bytes t =
    if not (is_size t.offset_size && is_size t.ref_size)
    then failed Error.invalid_sizes
    else if t.num_objects == 0
        || leb t.num_objects t.top_object
        || leb (length bytes) t.table_offset
    then failed Error.invalid_trailer
    else if ltb (2 ^ 20) t.num_objects
    then failed Error.too_many_objects
    else if ltb (length bytes - 32) (add64 t.table_offset (mul64 t.num_objects t.offset_size))
    then failed Error.table_out_of_bounds
    else read_offsets bytes t.table_offset t.offset_size 0 t.num_objects >>= λ offsets.
        done (record { data_bytes = bytes; offsets = offsets; ref_size = t.ref_size }, t.top_object)

unfoldable pub open_plist : List ℕ → Outcome (Parser × ℕ)
open_plist bytes =
    if ltb (length bytes) 40 || not (has_prefix bytes (codes "bplist00"))
    then failed Error.invalid_plist
    else read_trailer bytes >>= open_table bytes

-- `defer delete(p.parsing, index)`, and the memo.
unfoldable pub finish : ℕ → Value × Progress → Outcome (Value × Progress)
finish index (value, st) = done (
  value,
  record {
    object_memo = (index, value) ∷ st.object_memo;
    parsing = select (λ other. not (other == index)) st.parsing;
  },
)

module _ (utf16_decode : List ℕ → Text) where
  -- The `switch` of `object`.
  unfoldable pub read_kind :
      Parser → Step → Progress → Kind → ℕ → ℕ → ℕ → Outcome (Value × Progress)
  read_kind p step st Kind.simple kind info at = done (simple_value info, st)
  read_kind p step st Kind.integer kind info at = do
    value ← read_integer p info at
    done (value, st)
  read_kind p step st Kind.real kind info at = do value ← read_real p info at; done (value, st)
  read_kind p step st Kind.data_kind kind info at = do
    place ← object_length p info at
    bytes ← read_bytes p Error.invalid_data place
    done (Value.bytes bytes, st)
  read_kind p step st Kind.ascii kind info at = do
    place ← object_length p info at
    bytes ← read_bytes p Error.invalid_string place
    done (Value.text bytes, st)
  read_kind p step st Kind.unicode kind info at = do
    place ← object_length p info at
    units ← read_unicode p place
    done (Value.text (utf16_decode units), st)
  read_kind p step st Kind.array kind info at = do
    place ← object_length p info at
    read_array p step st place
  read_kind p step st Kind.dictionary kind info at = do
    place ← object_length p info at
    read_dictionary p step st place
  read_kind p step st Kind.unsupported kind info at = failed (Error.unsupported_kind kind)

  -- The object at `offset`, by its marker.
  unfoldable pub read_object : Parser → Step → Progress → ℕ → Outcome (Value × Progress)
  read_object p step st offset =
      if leb (length p.data_bytes) offset
      then failed Error.object_out_of_bounds
      else byte_at p.data_bytes offset >>= λ marker.
          read_kind p step st (kind_of (marker / 16)) (marker / 16) (marker % 16) (add64 offset 1)

  -- `object`, where `room` is 65 - depth: the depths 0 to 64 are admitted. An error ends the whole
  -- parse, so what it leaves in the maps is not kept.
  unfoldable pub object : Parser → ℕ → Progress → ℕ → Outcome (Value × Progress)
  object p zero st index = failed Error.too_deep
  object p (suc room) st index = elim (memo_of index st.object_memo) [
    | some value ↦ done (value, st)
    | none ↦
        if is_parsing index st.parsing
        then failed Error.cycle
        else elim (get_elem? p.offsets index) [
          | none ↦ failed Error.reference_out_of_bounds
          | some offset ↦
              read_object p (object p room) (record st { parsing = index ∷ st.parsing }) offset
              >>= finish index
        ]
  ]

module _ (utf16_decode : List ℕ → Text) where
  -- `parseBinaryPlist`
  unfoldable pub parse_binary_plist : List ℕ → Outcome Value
  parse_binary_plist bytes = do
    (p, top) ← open_plist bytes
    (value, st) ← object utf16_decode p 65 (record { object_memo = []; parsing = [] }) top
    done value

  unfoldable pub as_dictionary : Value → Outcome Entries
  as_dictionary (Value.dictionary result) = done result
  as_dictionary _ = failed Error.root_not_dictionary

  -- `ParsePlist`; `parseXMLPlist` is an argument.
  unfoldable pub parse_plist : (List ℕ → Outcome Entries) → List ℕ → Outcome Entries
  parse_plist parse_xml bytes =
      let trimmed = trim_space bytes in
      if eqb trimmed []
      then failed Error.empty_plist
      else if has_prefix trimmed (codes "bplist00")
      then parse_binary_plist trimmed >>= as_dictionary
      else parse_xml trimmed
