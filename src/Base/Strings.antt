-- ===== src/Base/Strings.antt =====
-- What the program uses of Go's `strings` and `strconv`, on lists of bytes. Case and white space
-- are those of ASCII: on a text whose bytes are all below 128 the functions are Go's own.
pub mod Laws
pub mod Hosts
use Prim.Native.Nat.{◌^◌, ◌+◌, ◌*◌, ◌-◌, ℕ}
use mathlib.Core.Bool.{Bool, true, false, ◌&&◌, ◌||◌}
use mathlib.Core.List.{List, [], ◌∷◌, ◌++◌, reverse, map}
use mathlib.Core.Option.{Option, none, some}
use legacy_store.Base.Int.{ℤ, pos, neg}
use legacy_store.Base.Tests.{ltb, leb, ◌==◌, if◌then◌else◌}
use legacy_store.Base.Texts.{Text}

unfoldable pub is_space : ℕ → Bool
is_space c = (leb 9 c && leb c 13) || c == b' '

unfoldable pub trim_left : Text → Text
trim_left [] = []
trim_left (c ∷ s) = if is_space c then trim_left s else c ∷ s

-- `strings.TrimSpace`
unfoldable pub trim_space : Text → Text
unfolding trim_left
trim_space s = reverse (trim_left (reverse (trim_left s)))

unfoldable pub lower_byte : ℕ → ℕ
lower_byte c = if leb b'A' c && leb c b'Z' then c + 32 else c

-- `strings.ToLower`
unfoldable pub to_lower : Text → Text
unfolding lower_byte
to_lower s = map lower_byte s

unfoldable pub upper_byte : ℕ → ℕ
upper_byte c = if leb b'a' c && leb c b'z' then c - 32 else c

-- `strings.ToUpper`
unfoldable pub to_upper : Text → Text
unfolding upper_byte
to_upper s = map upper_byte s

-- `strings.ReplaceAll` of one byte by nothing.
unfoldable pub without : ℕ → Text → Text
without c [] = []
without c (b ∷ s) = let rest = without c s in if b == c then rest else b ∷ rest

-- `strings.HasPrefix`
unfoldable pub has_prefix : Text → Text → Bool
has_prefix s [] = true
has_prefix [] (p ∷ ps) = false
has_prefix (c ∷ s) (p ∷ ps) = c == p && has_prefix s ps

-- `strings.HasSuffix`
unfoldable pub has_suffix : Text → Text → Bool
unfolding has_prefix
has_suffix s p = has_prefix (reverse s) (reverse p)

-- `strings.Contains`
unfoldable pub contains : Text → Text → Bool
unfolding has_prefix
contains [] p = has_prefix [] p
contains (c ∷ s) p = has_prefix (c ∷ s) p || contains s p

-- `strings.Split` at one byte: always at least one part.
unfoldable pub split_from : ℕ → Text → Text → List Text
split_from sep cur [] = reverse cur ∷ []
split_from sep cur (c ∷ s) =
    let closed = reverse cur ∷ split_from sep [] s in
    let longer = split_from sep (c ∷ cur) s in if c == sep then closed else longer

unfoldable pub split : Text → ℕ → List Text
unfolding split_from
split s sep = split_from sep [] s

-- `strings.Join`
unfoldable pub join : List Text → Text → Text
join [] sep = []
join (x ∷ []) sep = x
join (x ∷ y ∷ xs) sep = x ++ (sep ++ join (y ∷ xs) sep)

unfoldable pub is_digit : ℕ → Bool
is_digit c = leb b'0' c && leb c b'9'

unfoldable pub digits_value : ℕ → Text → Option ℕ
digits_value n [] = some n
digits_value n (c ∷ s) =
    let rest = digits_value (n * 10 + (c - b'0')) s in if is_digit c then rest else none

-- A magnitude below `bound`, with at least one digit.
unfoldable pub magnitude : ℕ → Text → Option ℕ
magnitude bound [] = none
magnitude bound (c ∷ s) = elim (digits_value 0 (c ∷ s)) [
  | none ↦ none
  | some n ↦ if ltb n bound then some n else none
]

abbrev pub int_bound : ℕ
int_bound = 2 ^ 63

-- `strconv.Atoi` and `strconv.ParseInt(s, 10, 64)`: one sign at most, digits, and the range of a
-- 64-bit integer.
unfoldable pub atoi : Text → Option ℤ
atoi [] = none
atoi (c ∷ s) =
    if c == b'+'
    then elim (magnitude int_bound s) [ none ↦ none | some n ↦ some (pos n) ]
    else if c == b'-'
    then elim (magnitude (int_bound + 1) s) [ none ↦ none | some n ↦ some (neg (pos n)) ]
    else elim (magnitude int_bound (c ∷ s)) [ none ↦ none | some n ↦ some (pos n) ]

-- `utf8.RuneCountInString` on valid UTF-8: the bytes that do not continue a character.
unfoldable pub rune_count : Text → ℕ
rune_count [] = 0
rune_count (c ∷ s) = (if leb 128 c && ltb c 192 then 0 else 1) + rune_count s
