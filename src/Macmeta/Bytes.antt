-- ===== src/Macmeta/Bytes.antt =====
-- Byte slices as the parsers of macmeta read them, and what a read comes to: a value, an error or a
-- panic of the program.
use legacy_store.Base.{
  ℕ, zero, suc, ◌≡◌, ◌+◌, ◌-◌, ◌*◌, ◌%◌, ◌^◌, ◌≤◌, ◌<◌, refl, arith, List, [], ◌∷◌, none, some, leb,
  if◌then◌else◌, length, take, drop, get_elem?,
}
use legacy_store.Macmeta.Values.{Error}

pub data Outcome {ℓ} (Value : Type ℓ) : Type ℓ where
  panicked : Outcome Value
  failed : Error → Outcome Value
  done : Value → Outcome Value

module _ {ℓ κ} {Value : Type ℓ} {Next : Type κ} where
  infixl 5 ◌>>=◌
  abbrev pub ◌>>=◌ : Outcome Value → (Value → Outcome Next) → Outcome Next
  Outcome.panicked >>= continue = Outcome.panicked
  Outcome.failed failure >>= continue = Outcome.failed failure
  Outcome.done value >>= continue = continue value

-- The program goes on: with a value or with an error.
module _ {ℓ} {Value : Type ℓ} where
  abbrev pub IsSafe : Outcome Value → Type 0
  IsSafe Outcome.panicked = ⊥
  IsSafe (Outcome.failed failure) = Unit
  IsSafe (Outcome.done value) = Unit

module _ {ℓ κ} {Value : Type ℓ} {Next : Type κ} where
  pub >>=-IsSafe :
      (first : Outcome Value) (continue : Value → Outcome Next)
      → IsSafe first
      → ((value : Value) → first ≡ Outcome.done value → IsSafe (continue value))
      → IsSafe (first >>= continue)
  >>=-IsSafe Outcome.panicked continue h k = h
  >>=-IsSafe (Outcome.failed failure) continue h k = tt
  >>=-IsSafe (Outcome.done value) continue h k = k value refl

-- `data[from:to]`
unfoldable pub slice : List ℕ → ℕ → ℕ → Outcome (List ℕ)
slice bytes from to =
    if leb from to
    then (if leb to (length bytes)
        then Outcome.done (take (to - from) (drop from bytes))
        else Outcome.panicked)
    else Outcome.panicked

pub slice-IsSafe :
    (bytes : List ℕ) (from to : ℕ) → from ≤ to → to ≤ length bytes → IsSafe (slice bytes from to)
unfolding slice
slice-IsSafe bytes from to h k = ground arith

-- `data[i]`
unfoldable pub byte_at : List ℕ → ℕ → Outcome ℕ
byte_at bytes i = elim (get_elem? bytes i) [ none ↦ Outcome.panicked | some b ↦ Outcome.done b ]

pub byte_at-IsSafe : (bytes : List ℕ) (i : ℕ) → i < length bytes → IsSafe (byte_at bytes i)
unfolding byte_at
byte_at-IsSafe [] i h = absurd (omega arith)
byte_at-IsSafe (b ∷ bytes) zero h = tt
byte_at-IsSafe (b ∷ bytes) (suc i) h = byte_at-IsSafe bytes i (omega arith)

-- The sums and products of `uint64`.
unfoldable pub add64 : ℕ → ℕ → ℕ
add64 a b = (a + b) % 2 ^ 64

unfoldable pub mul64 : ℕ → ℕ → ℕ
mul64 a b = (a * b) % 2 ^ 64

pub add64_lem : (a b : ℕ) → a + b < 2 ^ 64 → add64 a b ≡ a + b
unfolding add64
add64_lem a b h = omega arith

pub mul64_lem : (a b : ℕ) → a * b < 2 ^ 64 → mul64 a b ≡ a * b
unfolding mul64
mul64_lem a b h = grind arith

-- `readUnsigned`: `value<<8 | b`, where the low byte of the shifted value is 0.
unfoldable pub read_from : ℕ → List ℕ → ℕ
unfolding add64 mul64
read_from value [] = value
read_from value (b ∷ bytes) = read_from (add64 (mul64 value 256) b) bytes

unfoldable pub read_unsigned : List ℕ → ℕ
unfolding read_from
read_unsigned bytes = read_from 0 bytes
