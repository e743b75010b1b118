-- ===== src/Macmeta/Plist/Safe.antt =====
-- `parseBinaryPlist` never panics on a file whose announced lengths do not wrap.
use legacy_store.Base.{
  ℕ, zero, suc, ◌≡◌, ◌+◌, ◌-◌, ◌*◌, ◌^◌, ◌≤◌, ◌<◌, refl, ap, arith, true, false, not, ◌&&◌, ◌||◌,
  List, [], Text, codes, ltb, leb, ◌==◌, if◌then◌else◌, length,
}
use legacy_store.Base.Strings.{has_prefix}
use legacy_store.Macmeta.Bytes.{
  Outcome, IsSafe, ◌>>=◌, >>=-IsSafe, slice, slice-IsSafe, byte_at, byte_at-IsSafe, add64, mul64,
  add64_lem, read_unsigned,
}
use legacy_store.Macmeta.Values.{Error}
use legacy_store.Macmeta.Plist.Reading.{Parser}
use legacy_store.Macmeta.Plist.Object.{
  object, read_offsets, Trailer, read_trailer, is_size, open_table, open_plist, parse_binary_plist,
}
use legacy_store.Macmeta.Plist.Lengths.{times_mono, times_eight, guard, mul64_within}
use Outcome.{panicked, failed, done}
use legacy_store.Macmeta.Plist.Objects.{are_short_runs, object-IsSafe}

read_offsets-IsSafe :
    (bytes : List ℕ) (table size i count : ℕ)
    → length bytes < 2 ^ 48
    → size ≤ 8
    → i + count ≤ 2 ^ 20
    → table + (i + count) * size ≤ length bytes
    → IsSafe (read_offsets bytes table size i count)
unfolding read_offsets
read_offsets-IsSafe bytes table size i zero s z h k = tt
read_offsets-IsSafe bytes table size i (suc count) s z h k =
    let product = mul64_within i size z (omega arith) in
    let less = times_mono (suc i) (i + suc count) size (omega arith) in
    let same : (suc i + count) * size ≡ (i + suc count) * size = ap (λ n. n * size) (omega arith) in
    let start = add64_lem table (mul64 i size) (omega arith) in
    let stop = add64_lem (add64 table (mul64 i size)) size (omega arith) in
    >>=-IsSafe (slice bytes (add64 table (mul64 i size)) (add64 (add64 table (mul64 i size)) size))
      _ (slice-IsSafe bytes _ _ (omega arith) (omega arith))
      (λ entry _.
        >>=-IsSafe
          (if leb (length bytes - 32) (read_unsigned entry)
            then failed Error.offset_out_of_bounds
            else read_offsets bytes table size (suc i) count)
          _
          (guard IsSafe (leb (length bytes - 32) (read_unsigned entry)) _ _ tt (λ _.
            read_offsets-IsSafe bytes table size (suc i) count s z (omega arith) (omega arith)))
          (λ offsets _. tt))

read_trailer-IsSafe : (bytes : List ℕ) → 40 ≤ length bytes → IsSafe (read_trailer bytes)
unfolding read_trailer
read_trailer-IsSafe bytes h =
    let last = length bytes - 32 in
    >>=-IsSafe (byte_at bytes (last + 6)) _ (byte_at-IsSafe bytes (last + 6) (omega arith)) (λ a _.
      >>=-IsSafe (byte_at bytes (last + 7)) _ (byte_at-IsSafe bytes (last + 7) (omega arith))
        (λ b _.
          >>=-IsSafe (slice bytes (last + 8) (last + 16)) _
            (slice-IsSafe bytes _ _ (omega arith) (omega arith))
            (λ c _.
              >>=-IsSafe (slice bytes (last + 16) (last + 24)) _
                (slice-IsSafe bytes _ _ (omega arith) (omega arith))
                (λ d _.
                  >>=-IsSafe (slice bytes (last + 24) (last + 32)) _
                    (slice-IsSafe bytes _ _ (omega arith) (omega arith)) (λ e _. tt)))))

-- The parser that an open file gives is one for this file, with references of at most 8 bytes.
IsOpened : List ℕ → Outcome (Parser × ℕ) → Type 0
IsOpened bytes panicked = ⊥
IsOpened bytes (failed e) = Unit
IsOpened bytes (done (p, top)) = (p.data_bytes ≡ bytes) × (p.ref_size ≤ 8)

then-IsOpened :
    (bytes : List ℕ) (ref_size top : ℕ) (offsets : Outcome (List ℕ))
    → ref_size ≤ 8
    → IsSafe offsets
    → IsOpened bytes (
        offsets >>= λ found.
        done (record { data_bytes = bytes; offsets = found; ref_size = ref_size }, top))
unfolding IsOpened
then-IsOpened bytes ref_size top panicked h k = k
then-IsOpened bytes ref_size top (failed e) h k = tt
then-IsOpened bytes ref_size top (done offsets) h k = (refl, h)

sizes_fit : (a b : ℕ) → not (is_size a && is_size b) ≡ false → (a ≤ 8) × (b ≤ 8)
unfolding is_size
sizes_fit a b h = ground arith

open_table-IsOpened :
    (bytes : List ℕ) (t : Trailer) → length bytes < 2 ^ 48 → IsOpened bytes (open_table bytes t)
unfolding open_table IsOpened
open_table-IsOpened bytes t s =
    let end = add64 t.table_offset (mul64 t.num_objects t.offset_size) in
    guard (IsOpened bytes) (not (is_size t.offset_size && is_size t.ref_size)) _ _ tt (λ a.
      guard (IsOpened bytes)
        (t.num_objects == 0 || leb t.num_objects t.top_object || leb (length bytes) t.table_offset)
        _ _ tt
        (λ b. guard (IsOpened bytes) (ltb (2 ^ 20) t.num_objects) _ _ tt (λ c.
          guard (IsOpened bytes) (ltb (length bytes - 32) end) _ _ tt (λ d.
            let (z, w) = sizes_fit t.offset_size t.ref_size a in
            let inside : t.table_offset < length bytes = ground (arith, b) in
            let few : t.num_objects ≤ 2 ^ 20 = ground (arith, c) in
            let product = mul64_within t.num_objects t.offset_size z (omega arith) in
            let bound = times_eight t.num_objects t.offset_size z in
            let sum = add64_lem t.table_offset (mul64 t.num_objects t.offset_size) (omega arith) in
            let fits : end ≤ length bytes = ground (arith, d) in
            then-IsOpened bytes t.ref_size t.top_object _ w (
              read_offsets-IsSafe bytes t.table_offset t.offset_size 0 t.num_objects s z
                (omega arith) (omega arith))))))

open_plist-IsOpened : (bytes : List ℕ) → length bytes < 2 ^ 48 → IsOpened bytes (open_plist bytes)
unfolding open_plist IsOpened
open_plist-IsOpened bytes s =
    guard (IsOpened bytes) (ltb (length bytes) 40 || not (has_prefix bytes (codes "bplist00"))) _ _
      tt
      (λ e.
        let long : 40 ≤ length bytes = ground (arith, e) in
        opened (read_trailer bytes) (read_trailer-IsSafe bytes long))
  where
    opened : (t : Outcome Trailer) → IsSafe t → IsOpened bytes (t >>= open_table bytes)
    opened panicked h = h
    opened (failed e) h = tt
    opened (done t) h = open_table-IsOpened bytes t s

-- `parseBinaryPlist` ends with a value or an error, never with a panic, for a file of less than
-- 2^48 bytes in which no data object or string announces 2^62 bytes or units or more.
pub parse_binary_plist-IsSafe :
    (utf16_decode : List ℕ → Text) (bytes : List ℕ)
    → length bytes < 2 ^ 48
    → are_short_runs (open_plist bytes) ≡ true
    → IsSafe (parse_binary_plist utf16_decode bytes)
unfolding parse_binary_plist IsOpened
parse_binary_plist-IsSafe utf16_decode bytes s h =
    parsed (open_plist bytes) (open_plist-IsOpened bytes s) h
  where
    parsed :
        (o : Outcome (Parser × ℕ))
        → IsOpened bytes o
        → are_short_runs o ≡ true
        → IsSafe (
            o >>= λ (p, top).
            object utf16_decode p 65 (record { object_memo = []; parsing = [] }) top
            >>= λ (value, st). done value)
    parsed panicked k l = k
    parsed (failed e) k l = tt
    parsed (done (p, top)) (same, narrow) l =
        >>=-IsSafe (object utf16_decode p 65 (record { object_memo = []; parsing = [] }) top) _
          (object-IsSafe utf16_decode p 65 _ top (record { short = rw same s; narrow = narrow }) l)
          (λ found _. tt)
