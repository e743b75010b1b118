-- ===== src/Macmeta/Macho/Listing.antt =====
-- What `inspectMachOPrefix` returns, and that it reads within the file.
use legacy_store.Base.{
  ℕ, zero, suc, ◌≡◌, ◌+◌, ◌*◌, ◌≤◌, refl, ap, arith, Bool, true, false, not, ◌||◌, List, [], ◌∷◌,
  Text, inl, inr, eqb, eqb_iff, ltb, ◌==◌, if◌then◌else◌, length, All, Bool-cases,
}
use legacy_store.Macmeta.Bytes.{Outcome, IsSafe, ◌>>=◌, slice, slice-IsSafe, read_unsigned}
use legacy_store.Macmeta.Values.{Error}
use legacy_store.Macmeta.Macho.{
  little_endian, macho_architecture, normalize_macho_architectures, read_entries, inspect_fat,
  inspect_thin, inspect_magic, inspect_macho_prefix,
}
use Outcome.{panicked, failed, done}
use legacy_store.Macmeta.Macho.Names.{
  IsKnown, IsListing, IsName, macho_architecture-IsName, normalize-IsListing,
}

-- What follows a read, when the read is within the file.
then_read :
    {A B : Type 0} (P : Outcome B → Type 0) (first : Outcome A) (continue : A → Outcome B)
    → IsSafe first
    → ((e : Error) → P (failed e))
    → ((a : A) → P (continue a))
    → P (first >>= continue)
then_read P panicked continue h f k = absurd h
then_read P (failed e) continue h f k = f e
then_read P (done a) continue h f k = k a

-- The names of a table's entries.
AreNames : Outcome (List Text) → Type 0
AreNames panicked = ⊥
AreNames (failed e) = Unit
AreNames (done values) = All IsKnown values

with_name :
    (value : Text) (values : List Text)
    → IsName value
    → All IsKnown values
    → All IsKnown (if not (eqb value []) then value ∷ values else values)
with_name value values n h = elim (Bool-cases (eqb value [])) [
  | inl blank ↦ rw blank h
  | inr given ↦ rw given (
    elim n [
      | inl none_there ↦ absurd (ground (arith, given, (eqb_iff value []).1 none_there))
      | inr known ↦ known
    ],
    h,
  )
]

append_name :
    (value : Text) (rest : Outcome (List Text))
    → IsName value
    → AreNames rest
    → AreNames (rest >>= λ values. done (if not (eqb value []) then value ∷ values else values))
unfolding AreNames
append_name value panicked n h = h
append_name value (failed e) n h = tt
append_name value (done values) n h = with_name value values n h

read_entries-AreNames :
    (number : List ℕ → ℕ) (size : ℕ) (bytes : List ℕ) (i count : ℕ)
    → 8 ≤ size
    → 8 + (i + count) * size ≤ length bytes
    → AreNames (read_entries number size bytes i count)
unfolding read_entries AreNames
read_entries-AreNames number size bytes i zero z h = tt
read_entries-AreNames number size bytes i (suc count) z h =
    let within : suc i * size ≤ (i + suc count) * size = grind arith in
    let same : (suc i + count) * size ≡ (i + suc count) * size = ap (λ n. n * size) (omega arith) in
    let offset = 8 + i * size in
    then_read AreNames (slice bytes offset (offset + 4)) _
      (slice-IsSafe bytes _ _ (omega arith) (omega arith)) (λ e. tt)
      (λ cpu.
        then_read AreNames (slice bytes (offset + 4) (offset + 8)) _
          (slice-IsSafe bytes _ _ (omega arith) (omega arith)) (λ e. tt)
          (λ sub_cpu.
            append_name (macho_architecture (number cpu) (number sub_cpu))
              (read_entries number size bytes (suc i) count)
              (macho_architecture-IsName (number cpu) (number sub_cpu))
              (read_entries-AreNames number size bytes (suc i) count z (omega arith))))

normalize_names :
    (names : Outcome (List Text))
    → AreNames names
    → IsListing (names >>= normalize_macho_architectures)
unfolding AreNames
normalize_names panicked h = h
normalize_names (failed e) h = tt
normalize_names (done values) h = normalize-IsListing values h

guard :
    (test : Bool) (e : Error) (rest : Outcome (List Text))
    → (test ≡ false → IsListing rest)
    → IsListing (if test then failed e else rest)
guard true e rest h = tt
guard false e rest h = h refl

inspect_fat-IsListing :
    (number : List ℕ → ℕ) (e : Error) (size : ℕ) (bytes : List ℕ)
    → 8 ≤ size
    → 12 ≤ length bytes
    → IsListing (inspect_fat number e size bytes)
unfolding inspect_fat
inspect_fat-IsListing number e size bytes z h =
    then_read IsListing (slice bytes 4 8) _ (slice-IsSafe bytes 4 8 (omega arith) (omega arith))
      (λ e. tt)
      (λ head.
        guard
          (ltb (number head) 1
            || ltb 128 (number head)
            || ltb (length bytes) (8 + number head * size))
          e _
          (λ t.
            let fits : 8 + number head * size ≤ length bytes = ground (arith, t) in
            normalize_names (read_entries number size bytes 0 (number head))
              (read_entries-AreNames number size bytes 0 (number head) z (omega arith))))

one_name :
    (value : Text)
    → IsName value
    → IsListing (if eqb value [] then failed Error.unsupported_cpu else done (value ∷ []))
one_name value n = guard (eqb value []) Error.unsupported_cpu (done (value ∷ [])) (λ given. (
  λ e. cc,
  (
    elim n [
      | inl none_there ↦ absurd (ground (arith, given, (eqb_iff value []).1 none_there))
      | inr known ↦ known
    ],
    tt,
  ),
  (λ m. m, tt),
  (tt, tt),
))

inspect_thin-IsListing :
    (number : List ℕ → ℕ) (bytes : List ℕ)
    → 12 ≤ length bytes
    → IsListing (inspect_thin number bytes)
unfolding inspect_thin
inspect_thin-IsListing number bytes h =
    then_read IsListing (slice bytes 4 8) _ (slice-IsSafe bytes 4 8 (omega arith) (omega arith))
      (λ e. tt)
      (λ cpu.
        then_read IsListing (slice bytes 8 12) _
          (slice-IsSafe bytes 8 12 (omega arith) (omega arith)) (λ e. tt)
          (λ sub_cpu.
            one_name (macho_architecture (number cpu) (number sub_cpu))
              (macho_architecture-IsName (number cpu) (number sub_cpu))))

inspect_magic-IsListing :
    (be le : ℕ) (bytes : List ℕ) → 12 ≤ length bytes → IsListing (inspect_magic be le bytes)
unfolding inspect_magic
inspect_magic-IsListing be le bytes h =
    choose (be == 0xcafebabe) _ _ (fat read_unsigned Error.invalid_table 20 (omega arith)) (
      choose (be == 0xcafebabf) _ _ (fat read_unsigned Error.invalid_table 32 (omega arith)) (
        choose (be == 0xbebafeca) _ _
          (fat little_endian Error.invalid_swapped_table 20 (omega arith))
          (choose (be == 0xbfbafeca) _ _
            (fat little_endian Error.invalid_swapped_table 32 (omega arith))
            (choose (be == 0xfeedface || be == 0xfeedfacf) _ _
              (inspect_thin-IsListing read_unsigned bytes h)
              (choose (le == 0xfeedface || le == 0xfeedfacf) _ _
                (inspect_thin-IsListing little_endian bytes h) tt)))))
  where
    choose :
        (test : Bool) (a b : Outcome (List Text))
        → IsListing a
        → IsListing b
        → IsListing (if test then a else b)
    choose true a b p q = p
    choose false a b p q = q

    fat :
        (number : List ℕ → ℕ) (e : Error) (size : ℕ)
        → 8 ≤ size
        → IsListing (inspect_fat number e size bytes)
    fat number e size z = inspect_fat-IsListing number e size bytes z h

-- For all bytes, `inspectMachOPrefix` reads within them, and returns an error or architectures
-- that the catalog knows: at least one, none twice, in the fixed order.
pub inspect_macho_prefix-IsListing : (bytes : List ℕ) → IsListing (inspect_macho_prefix bytes)
unfolding inspect_macho_prefix
inspect_macho_prefix-IsListing bytes =
    guard (ltb (length bytes) 12) Error.executable_too_small _ (λ t.
      let long : 12 ≤ length bytes = ground (arith, t) in
      then_read IsListing (slice bytes 0 4) _ (slice-IsSafe bytes 0 4 (omega arith) (omega arith))
        (λ e. tt)
        (λ head. inspect_magic-IsListing (read_unsigned head) (little_endian head) bytes long))
