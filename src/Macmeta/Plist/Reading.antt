-- ===== src/Macmeta/Plist/Reading.antt =====
-- macmeta/plist.go: how the parser reads one object of its file. Every sum and product is one of
-- `uint64`, and a slice or an index out of range is a panic.
use legacy_store.Base.{
  ℕ, zero, suc, ◌-◌, ◌/◌, ◌%◌, ◌^◌, Bool, true, false, not, ◌||◌, List, [], ◌∷◌, Option, none, some,
  Text, eqb, ltb, leb, ◌==◌, if◌then◌else◌, length,
}
use legacy_store.Base.Int.{ℤ, pos, negsuc}
use legacy_store.Macmeta.Bytes.{Outcome, ◌>>=◌, slice, byte_at, add64, mul64, read_unsigned}
use legacy_store.Macmeta.Values.{Error, Value, Values, Entries}
use Outcome.{panicked, failed, done}

-- `binaryPlistParser`, less the two maps that it changes.
pub record Parser : Type 0 where
  pub data_bytes : List ℕ
  pub offsets : List ℕ
  pub ref_size : ℕ

-- `objectMemo` and `parsing`
pub record Progress : Type 0 where
  pub object_memo : List (ℕ × Value)
  pub parsing : List ℕ

unfoldable pub memo_of : ℕ → List (ℕ × Value) → Option Value
memo_of index [] = none
memo_of index ((known, value) ∷ memo) =
    let further = memo_of index memo in if known == index then some value else further

unfoldable pub is_parsing : ℕ → List ℕ → Bool
is_parsing index [] = false
is_parsing index (other ∷ parsing) = other == index || is_parsing index parsing

-- `int64(v)`
unfoldable pub int64 : ℕ → ℤ
int64 v = if ltb v (2 ^ 63) then pos v else negsuc (2 ^ 64 - 1 - v)

-- `objectLength` where the length stands after the marker: at `from`, in the form that its own
-- marker gives.
unfoldable pub extended_length : Parser → ℕ → ℕ → Outcome (ℕ × ℕ)
extended_length p from marker =
    let size = 2 ^ (marker % 16) in
    let to = add64 from size in
    if not (marker / 16 == 1)
    then failed Error.length_not_integer
    else if ltb 8 size || ltb (length p.data_bytes) to
    then failed Error.invalid_length
    else slice p.data_bytes from to >>= λ bytes. done (read_unsigned bytes, to)

-- `objectLength`: the number of bytes or elements, and where they begin.
unfoldable pub object_length : Parser → ℕ → ℕ → Outcome (ℕ × ℕ)
object_length p info at =
    if ltb info 15
    then done (info, at)
    else if leb (length p.data_bytes) at
    then failed Error.length_out_of_bounds
    else byte_at p.data_bytes at >>= extended_length p (add64 at 1)

-- The `i`-th reference of `refSize` bytes after `from`.
unfoldable pub reference : Parser → ℕ → ℕ → Outcome ℕ
reference p from i = do
  bytes ←
      slice p.data_bytes (add64 from (mul64 i p.ref_size)) (add64 from (mul64 (suc i) p.ref_size))
  done (read_unsigned bytes)

-- The loop over the code units of a string, from the `i`-th.
unfoldable pub read_units : Parser → ℕ → ℕ → ℕ → Outcome (List ℕ)
read_units p from i zero = done []
read_units p from i (suc count) = do
  bytes ← slice p.data_bytes (add64 from (mul64 i 2)) (add64 (add64 from (mul64 i 2)) 2)
  units ← read_units p from (suc i) count
  done (read_unsigned bytes ∷ units)

-- How an element is parsed: `p.object(ref, depth+1)`.
abbrev pub Step : Type 0
Step = Progress → ℕ → Outcome (Value × Progress)

-- The loop over the elements of an array, from the `i`-th.
unfoldable pub read_items : Parser → Step → ℕ → Progress → ℕ → ℕ → Outcome (Values × Progress)
read_items p step from st i zero = done (Values.no_values, st)
read_items p step from st i (suc count) = do
  ref ← reference p from i
  (item, st) ← step st ref
  (items, st) ← read_items p step from st (suc i) count
  done (Values.value_then item items, st)

-- `result[key] = item`
unfoldable pub set_entry : Text → Value → Entries → Entries
set_entry key item Entries.no_entries = Entries.entry_then key item Entries.no_entries
set_entry key item (Entries.entry_then other old rest) =
    let further = Entries.entry_then other old (set_entry key item rest) in
    if eqb other key then Entries.entry_then key item rest else further

-- `keyValue.(string)`
unfoldable pub key_text : Value → Outcome Text
key_text (Value.text key) = done key
key_text _ = failed Error.key_not_string

-- The loop over the entries of a dictionary, from the `i`-th.
unfoldable pub read_entries :
    Parser → Step → ℕ → ℕ → Entries → Progress → ℕ → ℕ → Outcome (Entries × Progress)
read_entries p step from values_start result st i zero = done (result, st)
read_entries p step from values_start result st i (suc count) = do
  key_ref ← reference p from i
  value_ref ← reference p values_start i
  (key_value, st) ← step st key_ref
  key ← key_text key_value
  (item, st) ← step st value_ref
  read_entries p step from values_start (set_entry key item result) st (suc i) count

-- The kinds of objects that the parser tells apart.
pub data Kind : Type 0 where
  simple : Kind
  integer : Kind
  real : Kind
  data_kind : Kind
  ascii : Kind
  unicode : Kind
  array : Kind
  dictionary : Kind
  unsupported : Kind

unfoldable pub kind_of : ℕ → Kind
kind_of kind =
    if kind == 0x0
    then Kind.simple
    else if kind == 0x1
    then Kind.integer
    else if kind == 0x2
    then Kind.real
    else if kind == 0x4
    then Kind.data_kind
    else if kind == 0x5
    then Kind.ascii
    else if kind == 0x6
    then Kind.unicode
    else if kind == 0xa
    then Kind.array
    else if kind == 0xd
    then Kind.dictionary
    else Kind.unsupported

unfoldable pub simple_value : ℕ → Value
simple_value info =
    if info == 0x8
    then Value.boolean false
    else if info == 0x9
    then Value.boolean true
    else Value.nil_value

unfoldable pub read_integer : Parser → ℕ → ℕ → Outcome Value
read_integer p info at =
    let size = 2 ^ info in
    if ltb 8 size || ltb (length p.data_bytes) (add64 at size)
    then failed Error.invalid_integer
    else slice p.data_bytes at (add64 at size) >>= λ bytes.
        done (Value.integer (int64 (read_unsigned bytes)))

unfoldable pub read_real : Parser → ℕ → ℕ → Outcome Value
read_real p info at =
    let size = 2 ^ info in
    if ltb (length p.data_bytes) (add64 at size)
    then failed Error.invalid_real
    else if size == 4
    then slice p.data_bytes at (add64 at 4) >>= (λ bytes. done (Value.real32 (read_unsigned bytes)))
    else if size == 8
    then slice p.data_bytes at (add64 at 8) >>= (λ bytes. done (Value.real64 (read_unsigned bytes)))
    else failed Error.unsupported_real

-- The bytes of a data object or of an ASCII string; a slice of them that is out of range is a panic.
unfoldable pub read_bytes : Parser → Error → ℕ × ℕ → Outcome (List ℕ)
read_bytes p error (count, next) =
    if ltb (length p.data_bytes) (add64 next count)
    then failed error
    else slice p.data_bytes next (add64 next count)

-- `make` refuses more units than the address space holds.
abbrev pub units_max : ℕ
units_max = 2 ^ 47

unfoldable pub read_unicode : Parser → ℕ × ℕ → Outcome (List ℕ)
read_unicode p (count, next) =
    if ltb (length p.data_bytes) (add64 next (mul64 count 2))
    then failed Error.invalid_unicode
    else if ltb units_max count
    then panicked
    else read_units p next 0 count

unfoldable pub read_array : Parser → Step → Progress → ℕ × ℕ → Outcome (Value × Progress)
read_array p step st (count, next) =
    if ltb (2 ^ 20) count || ltb (length p.data_bytes) (add64 next (mul64 count p.ref_size))
    then failed Error.invalid_array
    else read_items p step next st 0 count >>= λ (items, st'). done (Value.array items, st')

unfoldable pub read_dictionary : Parser → Step → Progress → ℕ × ℕ → Outcome (Value × Progress)
read_dictionary p step st (count, next) =
    let refs_bytes = mul64 count p.ref_size in
    if ltb (2 ^ 20) count || ltb (length p.data_bytes) (add64 next (mul64 refs_bytes 2))
    then failed Error.invalid_dictionary
    else read_entries p step next (add64 next refs_bytes) Entries.no_entries st 0 count
      >>= λ (result, st'). done (Value.dictionary result, st')
