-- ===== src/Macmeta/Plist/Lengths.antt =====
-- The reads of one object stay within the file, as long as the lengths do not wrap.
use legacy_store.Base.{
  ℕ, zero, suc, ◌≡◌, ◌+◌, ◌-◌, ◌*◌, ◌/◌, ◌%◌, ◌^◌, ◌≤◌, ◌<◌, refl, ◌∙◌, sym, subst, arith, Bool,
  true, false, not, ◌||◌, List, [], ◌∷◌, inl, inr, ltb, leb, ◌==◌, ==_iff, if◌then◌else◌, length,
  Bool-cases, take, drop, le→leb,
}
use legacy_store.Macmeta.Bytes.{
  Outcome, IsSafe, ◌>>=◌, >>=-IsSafe, slice, slice-IsSafe, byte_at, add64, mul64, add64_lem,
  mul64_lem, read_unsigned,
}
use legacy_store.Macmeta.Values.{Error, Value}
use legacy_store.Macmeta.Plist.Reading.{
  Parser, extended_length, object_length, read_units, read_integer, read_real, read_bytes,
  units_max, read_unicode,
}
use Outcome.{panicked, failed, done}

-- The sizes that the sums rely on.
pub record IsSmall (p : Parser) : Type 0 where
  pub short : length p.data_bytes < 2 ^ 48
  pub narrow : p.ref_size ≤ 8

-- Where the bytes of an object begin.
abbrev pub StartsWithin : Parser → Outcome (ℕ × ℕ) → Type 0
StartsWithin p panicked = ⊥
StartsWithin p (failed e) = Unit
StartsWithin p (done (count, next)) = next ≤ length p.data_bytes

slice_then :
    {B : Type 0} (bytes : List ℕ) (from to : ℕ) (continue : List ℕ → Outcome B)
    → from ≤ to
    → to ≤ length bytes
    → slice bytes from to >>= continue ≡ continue (take (to - from) (drop from bytes))
unfolding slice
slice_then bytes from to continue h k = rw (le→leb from to h, le→leb to (length bytes) k) refl

-- A guard that returns an error: what is left to show is the rest, where the guard's test fails.
pub guard :
    {B : Type 0} (P : Outcome B → Type 0) (test : Bool) (e : Error) (rest : Outcome B)
    → P (failed e)
    → (test ≡ false → P rest)
    → P (if test then failed e else rest)
guard P true e rest h k = h
guard P false e rest h k = k refl

pub or_false : (a b : Bool) → (a || b) ≡ false → (a ≡ false) × (b ≡ false)
or_false a b h = ground arith

pub add64_within :
    (p : Parser) (a b : ℕ) → IsSmall p → a ≤ length p.data_bytes → b < 2 ^ 63 → add64 a b ≡ a + b
add64_within p a b s h k = let n = s.short in add64_lem a b (omega arith)

pub at_most : (p : Parser) (n : ℕ) → ltb (length p.data_bytes) n ≡ false → n ≤ length p.data_bytes
at_most p n h = ground arith

byte_at-done : (bytes : List ℕ) (i : ℕ) → i < length bytes → (b : ℕ) × (byte_at bytes i ≡ done b)
unfolding byte_at
byte_at-done [] i h = absurd (omega arith)
byte_at-done (b ∷ bytes) zero h = (b, refl)
byte_at-done (b ∷ bytes) (suc i) h = byte_at-done bytes i (omega arith)

extended_length-StartsWithin :
    (p : Parser) (from marker : ℕ)
    → IsSmall p
    → from ≤ length p.data_bytes
    → StartsWithin p (extended_length p from marker)
unfolding extended_length
extended_length-StartsWithin p from marker s h =
    let size = 2 ^ (marker % 16) in
    guard (StartsWithin p) (not (marker / 16 == 1)) _ _ tt (λ _.
      guard (StartsWithin p) (ltb 8 size || ltb (length p.data_bytes) (add64 from size)) _ _ tt
        (λ e.
          let (short, fits) =
            or_false (ltb 8 size) (ltb (length p.data_bytes) (add64 from size)) e in
          let within = at_most p (add64 from size) fits in
          let sum = add64_within p from size s h (ground arith) in
          subst (StartsWithin p)
            (sym (slice_then p.data_bytes from (add64 from size) _ (omega (arith, sum)) within))
            within))

pub object_length-StartsWithin :
    (p : Parser) (info at : ℕ)
    → IsSmall p
    → at ≤ length p.data_bytes
    → StartsWithin p (object_length p info at)
unfolding object_length
object_length-StartsWithin p info at s h = elim (Bool-cases (ltb info 15)) [
  | inl e ↦ rw e h
  | inr e ↦ rw e (
      guard (StartsWithin p) (leb (length p.data_bytes) at) _ _ tt (λ k.
        let inside : at < length p.data_bytes = ground arith in
        let (marker, e') = byte_at-done p.data_bytes at inside in
        let next = add64_within p at 1 s h (omega arith) in
        rw e' (extended_length-StartsWithin p (add64 at 1) marker s (omega (arith, next)))))
]

pub read_bytes-IsSafe :
    (p : Parser) (e : Error) (count next : ℕ)
    → IsSmall p
    → next ≤ length p.data_bytes
    → count < 2 ^ 62
    → IsSafe (read_bytes p e (count, next))
unfolding read_bytes
read_bytes-IsSafe p e count next s h k =
    guard IsSafe (ltb (length p.data_bytes) (add64 next count)) _ _ tt (λ fits.
      let sum = add64_within p next count s h (omega arith) in
      slice-IsSafe p.data_bytes next (add64 next count) (omega (arith, sum))
        (at_most p (add64 next count) fits))

pub times_mono : (i j n : ℕ) → i ≤ j → i * n ≤ j * n
times_mono i j n h = grind arith

pub times_eight : (i n : ℕ) → n ≤ 8 → i * n ≤ i * 8
times_eight i n h = grind arith

-- The product of a count and a size is the plain one.
pub mul64_within : (i n : ℕ) → n ≤ 8 → i ≤ 2 ^ 60 → mul64 i n ≡ i * n
mul64_within i n h k = let m = times_eight i n h in mul64_lem i n (omega arith)

read_units-IsSafe :
    (p : Parser) (next i count : ℕ)
    → IsSmall p
    → next + (i + count) * 2 ≤ length p.data_bytes
    → IsSafe (read_units p next i count)
unfolding read_units
read_units-IsSafe p next i zero s h = tt
read_units-IsSafe p next i (suc count) s h =
    let n = s.short in
    let product : mul64 i 2 ≡ i * 2 = mul64_lem i 2 (omega arith) in
    let start = add64_within p next (mul64 i 2) s (omega arith) (omega arith) in
    let stop : add64 (add64 next (mul64 i 2)) 2 ≡ next + i * 2 + 2 =
      add64_within p (add64 next (mul64 i 2)) 2 s (omega arith) (omega arith) ∙ omega arith in
    >>=-IsSafe (slice p.data_bytes (add64 next (mul64 i 2)) (add64 (add64 next (mul64 i 2)) 2)) _
      (slice-IsSafe p.data_bytes _ _ (omega arith) (omega arith))
      (λ bytes _.
        >>=-IsSafe (read_units p next (suc i) count) _
          (read_units-IsSafe p next (suc i) count s (omega arith)) (λ units _. tt))

pub read_unicode-IsSafe :
    (p : Parser) (count next : ℕ)
    → IsSmall p
    → next ≤ length p.data_bytes
    → count < 2 ^ 62
    → IsSafe (read_unicode p (count, next))
unfolding read_unicode
read_unicode-IsSafe p count next s h k =
    guard IsSafe (ltb (length p.data_bytes) (add64 next (mul64 count 2))) _ _ tt (λ fits.
      let product : mul64 count 2 ≡ count * 2 = mul64_lem count 2 (omega arith) in
      let sum = add64_within p next (mul64 count 2) s h (omega arith) in
      let within = at_most p (add64 next (mul64 count 2)) fits in
      let few : ltb units_max count ≡ false = let n = s.short in ground arith in
      rw few (read_units-IsSafe p next 0 count s (omega arith)))

pub read_integer-IsSafe :
    (p : Parser) (info at : ℕ)
    → IsSmall p
    → at ≤ length p.data_bytes
    → IsSafe (read_integer p info at)
unfolding read_integer
read_integer-IsSafe p info at s h =
    let size = 2 ^ info in
    guard IsSafe (ltb 8 size || ltb (length p.data_bytes) (add64 at size)) _ _ tt (λ e.
      let (short, fits) = or_false (ltb 8 size) (ltb (length p.data_bytes) (add64 at size)) e in
      let sum = add64_within p at size s h (ground (arith, short)) in
      >>=-IsSafe (slice p.data_bytes at (add64 at size)) _
        (slice-IsSafe p.data_bytes at (add64 at size) (omega (arith, sum))
          (at_most p (add64 at size) fits))
        (λ bytes _. tt))

read_sized-IsSafe :
    (p : Parser) (n at : ℕ) (make : ℕ → Value)
    → IsSmall p
    → at ≤ length p.data_bytes
    → n ≤ 8
    → add64 at n ≤ length p.data_bytes
    → IsSafe (slice p.data_bytes at (add64 at n) >>= λ bytes. done (make (read_unsigned bytes)))
read_sized-IsSafe p n at make s h k within =
    let sum = add64_within p at n s h (omega arith) in
    >>=-IsSafe (slice p.data_bytes at (add64 at n)) _
      (slice-IsSafe p.data_bytes at (add64 at n) (omega (arith, sum)) within) (λ bytes _. tt)

pub read_real-IsSafe :
    (p : Parser) (info at : ℕ) → IsSmall p → at ≤ length p.data_bytes → IsSafe (read_real p info at)
unfolding read_real
read_real-IsSafe p info at s h =
    let size = 2 ^ info in
    guard IsSafe (ltb (length p.data_bytes) (add64 at size)) _ _ tt (λ fits.
      let within = at_most p (add64 at size) fits in
      elim (Bool-cases (size == 4)) [
        | inl four ↦
            let e : size ≡ 4 = (==_iff size 4).0 four in
            rw four (read_sized-IsSafe p 4 at Value.real32 s h (omega arith) (rw e at within))
        | inr e ↦ rw e (elim (Bool-cases (size == 8)) [
          | inl eight ↦
              let e' : size ≡ 8 = (==_iff size 8).0 eight in
              rw eight (read_sized-IsSafe p 8 at Value.real64 s h (omega arith) (rw e' at within))
          | inr e' ↦ rw e' tt
        ])
      ])
