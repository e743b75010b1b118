-- ===== src/Macmeta/Macho.antt =====
-- macmeta/macho.go: the architectures in the header of a Mach-O file. `int` has 64 bits, so that the
-- sums of offsets do not wrap.
pub mod Names
pub mod Listing
mod Tests
use legacy_store.Base.{
  ℕ, zero, suc, ◌+◌, ◌*◌, ◌%◌, ◌^◌, Bool, true, false, not, ◌||◌, List, [], ◌∷◌, Text, codes,
  reverse, eqb, any, ltb, ◌==◌, if◌then◌else◌, length,
}
use legacy_store.Base.Sorting
use legacy_store.Macmeta.Bytes.{Outcome, ◌>>=◌, slice, read_unsigned}
use legacy_store.Macmeta.Values.{Error}
use Outcome.{failed, done}

-- `binary.LittleEndian.Uint32`; the big-endian one is `read_unsigned`.
abbrev pub little_endian : List ℕ → ℕ
little_endian bytes = read_unsigned (reverse bytes)

-- `machoArchitecture`, with the processor types of the format.
unfoldable pub macho_architecture : ℕ → ℕ → Text
macho_architecture cpu sub_cpu =
    let sub = sub_cpu % 2 ^ 24 in
    if cpu == 7
    then codes "i386"
    else if cpu == 0x1000007
    then codes "x86_64"
    else if cpu == 18
    then (if sub == 9
        then codes "ppc-g3"
        else if sub == 10 || sub == 11
        then codes "ppc-g4"
        else if sub == 100
        then codes "ppc-g5"
        else codes "ppc")
    else if cpu == 0x1000012
    then codes "ppc64"
    else []

abbrev pub is_seen : List Text → Text → Bool
is_seen seen value = any (λ s. eqb s value) seen

-- The first loop of `normalizeMachOArchitectures`.
unfoldable pub new_values : List Text → List Text → List Text
new_values seen [] = []
new_values seen (value ∷ values) =
    let skipped = new_values seen values in
    let taken = value ∷ new_values (value ∷ seen) values in
    if eqb value [] || is_seen seen value then skipped else taken

-- The map `order`; a missing key gives 0.
unfoldable pub order_of : Text → ℕ
order_of value =
    if eqb value (codes "i386")
    then 10
    else if eqb value (codes "i686")
    then 11
    else if eqb value (codes "x86_64")
    then 20
    else if eqb value (codes "ppc")
    then 30
    else if eqb value (codes "ppc-g3")
    then 31
    else if eqb value (codes "ppc-g4")
    then 32
    else if eqb value (codes "ppc-g5")
    then 33
    else if eqb value (codes "ppc64")
    then 34
    else 0

unfoldable pub is_before : Text → Text → Bool
is_before a b = ltb (order_of a) (order_of b)

abbrev pub sorted_values : List Text → Outcome (List Text)
sorted_values [] = failed Error.no_architectures
sorted_values (value ∷ values) = done (Sorting.sort is_before (value ∷ values))

-- `normalizeMachOArchitectures`
unfoldable pub normalize_macho_architectures : List Text → Outcome (List Text)
unfolding new_values
normalize_macho_architectures values = sorted_values (new_values [] values)

-- The loop over the entries of a universal file, from the `i`-th.
unfoldable pub read_entries : (List ℕ → ℕ) → ℕ → List ℕ → ℕ → ℕ → Outcome (List Text)
read_entries number size bytes i zero = done []
read_entries number size bytes i (suc count) = do
  let offset = 8 + i * size
  cpu ← slice bytes offset (offset + 4)
  sub_cpu ← slice bytes (offset + 4) (offset + 8)
  values ← read_entries number size bytes (suc i) count
  let value = macho_architecture (number cpu) (number sub_cpu)
  done (if not (eqb value []) then value ∷ values else values)

-- A universal file: its table must be within the prefix.
unfoldable pub inspect_fat : (List ℕ → ℕ) → Error → ℕ → List ℕ → Outcome (List Text)
inspect_fat number error size bytes = slice bytes 4 8 >>= λ head.
    let count = number head in
    if ltb count 1 || ltb 128 count || ltb (length bytes) (8 + count * size)
    then failed error
    else read_entries number size bytes 0 count >>= normalize_macho_architectures

-- A file for one processor.
unfoldable pub inspect_thin : (List ℕ → ℕ) → List ℕ → Outcome (List Text)
inspect_thin number bytes = do
  cpu ← slice bytes 4 8
  sub_cpu ← slice bytes 8 12
  let value = macho_architecture (number cpu) (number sub_cpu)
  if eqb value [] then failed Error.unsupported_cpu else done (value ∷ [])

unfoldable pub inspect_magic : ℕ → ℕ → List ℕ → Outcome (List Text)
inspect_magic magic_be magic_le bytes =
    if magic_be == 0xcafebabe
    then inspect_fat read_unsigned Error.invalid_table 20 bytes
    else if magic_be == 0xcafebabf
    then inspect_fat read_unsigned Error.invalid_table 32 bytes
    else if magic_be == 0xbebafeca
    then inspect_fat little_endian Error.invalid_swapped_table 20 bytes
    else if magic_be == 0xbfbafeca
    then inspect_fat little_endian Error.invalid_swapped_table 32 bytes
    else if magic_be == 0xfeedface || magic_be == 0xfeedfacf
    then inspect_thin read_unsigned bytes
    else if magic_le == 0xfeedface || magic_le == 0xfeedfacf
    then inspect_thin little_endian bytes
    else failed Error.not_executable

-- `inspectMachOPrefix`. Twelve bytes are there, so that the tests for eight never fail.
unfoldable pub inspect_macho_prefix : List ℕ → Outcome (List Text)
inspect_macho_prefix bytes =
    if ltb (length bytes) 12
    then failed Error.executable_too_small
    else slice bytes 0 4 >>= λ head. inspect_magic (read_unsigned head) (little_endian head) bytes
