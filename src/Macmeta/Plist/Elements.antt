-- ===== src/Macmeta/Plist/Elements.antt =====
-- The elements of arrays and dictionaries are read within the file, whatever their count.
use legacy_store.Base.{ℕ, zero, suc, ◌≡◌, ◌+◌, ◌*◌, ◌^◌, ◌≤◌, ◌<◌, ap, arith, ◌||◌, ltb, length}
use legacy_store.Macmeta.Bytes.{IsSafe, >>=-IsSafe, slice, slice-IsSafe, add64, mul64, mul64_lem}
use legacy_store.Macmeta.Values.{Value, Entries}
use legacy_store.Macmeta.Plist.Reading.{
  Parser, Progress, reference, Step, read_items, key_text, set_entry, read_entries, read_array,
  read_dictionary,
}
use legacy_store.Macmeta.Plist.Lengths.{
  IsSmall, guard, or_false, at_most, add64_within, times_mono, times_eight, mul64_within,
}

reference-IsSafe :
    (p : Parser) (from i : ℕ)
    → IsSmall p
    → i < 2 ^ 21
    → from + suc i * p.ref_size ≤ length p.data_bytes
    → IsSafe (reference p from i)
unfolding reference
reference-IsSafe p from i s h k =
    let n = s.short in
    let r = p.ref_size in
    let here = mul64_within i r s.narrow (omega arith) in
    let next = mul64_within (suc i) r s.narrow (omega arith) in
    let less = times_mono i (suc i) r (omega arith) in
    let start = add64_within p from (mul64 i r) s (omega arith) (omega arith) in
    let stop = add64_within p from (mul64 (suc i) r) s (omega arith) (omega arith) in
    >>=-IsSafe (slice p.data_bytes (add64 from (mul64 i r)) (add64 from (mul64 (suc i) r))) _
      (slice-IsSafe p.data_bytes _ _ (omega arith) (omega arith)) (λ bytes _. tt)

module _ (step : Step) (safe : (st : Progress) (i : ℕ) → IsSafe (step st i)) where
  read_items-IsSafe :
      (p : Parser) (from : ℕ) (st : Progress) (i count : ℕ)
      → IsSmall p
      → i + count ≤ 2 ^ 20
      → from + (i + count) * p.ref_size ≤ length p.data_bytes
      → IsSafe (read_items p step from st i count)
  unfolding read_items
  read_items-IsSafe p from st i zero s h k = tt
  read_items-IsSafe p from st i (suc count) s h k =
      let within = times_mono (suc i) (i + suc count) p.ref_size (omega arith) in
      let same : (suc i + count) * p.ref_size ≡ (i + suc count) * p.ref_size =
        ap (λ n. n * p.ref_size) (omega arith) in
      >>=-IsSafe (reference p from i) _ (reference-IsSafe p from i s (omega arith) (omega arith))
        (λ ref _. >>=-IsSafe (step st ref) _ (safe st ref) (λ (item, st') _.
          >>=-IsSafe (read_items p step from st' (suc i) count) _
            (read_items-IsSafe p from st' (suc i) count s (omega arith) (omega arith))
            (λ (items, st'') _. tt)))

  key_text-IsSafe : (value : Value) → IsSafe (key_text value)
  unfolding key_text
  key_text-IsSafe value = elim value as (λ v. IsSafe (key_text v)) [ Value.text t ↦ tt | _ ↦ tt ]

  read_entries-IsSafe :
      (p : Parser) (from values_start : ℕ) (result : Entries) (st : Progress) (i count : ℕ)
      → IsSmall p
      → i + count ≤ 2 ^ 20
      → from ≤ values_start
      → values_start + (i + count) * p.ref_size ≤ length p.data_bytes
      → IsSafe (read_entries p step from values_start result st i count)
  unfolding read_entries
  read_entries-IsSafe p from values_start result st i zero s h l k = tt
  read_entries-IsSafe p from values_start result st i (suc count) s h l k =
      let within = times_mono (suc i) (i + suc count) p.ref_size (omega arith) in
      let same : (suc i + count) * p.ref_size ≡ (i + suc count) * p.ref_size =
        ap (λ n. n * p.ref_size) (omega arith) in
      >>=-IsSafe (reference p from i) _ (reference-IsSafe p from i s (omega arith) (omega arith))
        (λ key_ref _.
          >>=-IsSafe (reference p values_start i) _
            (reference-IsSafe p values_start i s (omega arith) (omega arith))
            (λ value_ref _. >>=-IsSafe (step st key_ref) _ (safe st key_ref) (λ (key_value, st') _.
              >>=-IsSafe (key_text key_value) _ (key_text-IsSafe key_value) (λ key _.
                >>=-IsSafe (step st' value_ref) _ (safe st' value_ref) (λ (item, st'') _.
                  read_entries-IsSafe p from values_start (set_entry key item result) st'' (suc i)
                    count s (omega arith) l (omega arith))))))

  pub read_array-IsSafe :
      (p : Parser) (st : Progress) (count next : ℕ)
      → IsSmall p
      → next ≤ length p.data_bytes
      → IsSafe (read_array p step st (count, next))
  unfolding read_array
  read_array-IsSafe p st count next s h =
      let size = mul64 count p.ref_size in
      guard IsSafe (ltb (2 ^ 20) count || ltb (length p.data_bytes) (add64 next size)) _ _ tt (λ e.
        let (few, fits) =
          or_false (ltb (2 ^ 20) count) (ltb (length p.data_bytes) (add64 next size)) e in
        let few' : count ≤ 2 ^ 20 = ground (arith, few) in
        let product = mul64_within count p.ref_size s.narrow (omega arith) in
        let bound = times_eight count p.ref_size s.narrow in
        let sum = add64_within p next size s h (omega arith) in
        let within = at_most p (add64 next size) fits in
        >>=-IsSafe (read_items p step next st 0 count) _
          (read_items-IsSafe p next st 0 count s (omega arith) (omega arith))
          (λ (items, st') _. tt))

  pub read_dictionary-IsSafe :
      (p : Parser) (st : Progress) (count next : ℕ)
      → IsSmall p
      → next ≤ length p.data_bytes
      → IsSafe (read_dictionary p step st (count, next))
  unfolding read_dictionary
  read_dictionary-IsSafe p st count next s h =
      let size = mul64 count p.ref_size in
      guard IsSafe (ltb (2 ^ 20) count || ltb (length p.data_bytes) (add64 next (mul64 size 2))) _ _
        tt
        (λ e.
          let (few, fits) =
            or_false (ltb (2 ^ 20) count) (ltb (length p.data_bytes) (add64 next (mul64 size 2)))
              e in
          let few' : count ≤ 2 ^ 20 = ground (arith, few) in
          let product = mul64_within count p.ref_size s.narrow (omega arith) in
          let bound = times_eight count p.ref_size s.narrow in
          let double : mul64 size 2 ≡ size * 2 = mul64_lem size 2 (omega arith) in
          let sum = add64_within p next (mul64 size 2) s h (omega arith) in
          let start = add64_within p next size s h (omega arith) in
          let within = at_most p (add64 next (mul64 size 2)) fits in
          >>=-IsSafe (read_entries p step next (add64 next size) Entries.no_entries st 0 count) _
            (read_entries-IsSafe p next (add64 next size) Entries.no_entries st 0 count s
              (omega arith) (omega arith) (omega arith))
            (λ (result, st') _. tt))
