-- ===== src/Base/Strings/Hosts.antt =====
-- `net.SplitHostPort`, and the string functions that it needs.
use legacy_store.Base.Lists.{any}
use legacy_store.Base.Strings.{to_lower}
use legacy_store.Base.Tests.{◌==◌, if◌then◌else◌}
use legacy_store.Base.Texts.{Text, eqb}
use mathlib.Core.Bool.{Bool, true, false, ◌||◌}
use mathlib.Core.List.{[], ◌∷◌, reverse}
use mathlib.Core.Option.{Option, none, some}
use Prim.Native.Nat.{ℕ}

-- `strings.EqualFold` on ASCII.
unfoldable pub equal_fold : Text → Text → Bool
equal_fold a b = eqb (to_lower a) (to_lower b)

unfoldable pub has_byte : ℕ → Text → Bool
has_byte b s = any (λ c. c == b) s

-- What stands before and after the first `sep`.
unfoldable pub cut : ℕ → Text → Option (Text × Text)
cut sep [] = none
cut sep (c ∷ s) = elim (c == sep) [
  | true ↦ some ([], s)
  | false ↦ elim (cut sep s) [ none ↦ none | some (a, b) ↦ some (c ∷ a, b) ]
]

-- What stands before and after the last `sep`.
unfoldable pub cut_last : ℕ → Text → Option (Text × Text)
unfolding cut
cut_last sep s = elim (cut sep (reverse s)) [
  | none ↦ none
  | some (b, a) ↦ some (reverse a, reverse b)
]

after_bracket : Text → Option (Text × Text)
unfolding cut has_byte
after_bracket s = elim (cut b']' s) [
  | none ↦ none
  | some (host, []) ↦ none
  | some (host, c ∷ port) ↦
      if c == b':'
      then (if has_byte b':' port || has_byte b'[' s || has_byte b']' port
          then none
          else some (host, port))
      else none
]

no_bracket : Text → Option (Text × Text)
unfolding cut_last has_byte
no_bracket s = elim (cut_last b':' s) [
  | none ↦ none
  | some (host, port) ↦
      if has_byte b':' host || has_byte b'[' s || has_byte b']' s then none else some (host, port)
]

-- Host and port; `none` for each of the function's errors.
unfoldable pub split_host_port : Text → Option (Text × Text)
unfolding after_bracket no_bracket
split_host_port [] = none
split_host_port (c ∷ s) = if c == b'[' then after_bracket s else no_bracket (c ∷ s)

trim_brackets_left : Text → Text
trim_brackets_left [] = []
trim_brackets_left (c ∷ s) = if c == b'[' || c == b']' then trim_brackets_left s else c ∷ s

-- `strings.Trim(value, "[]")`
unfoldable pub trim_brackets : Text → Text
unfolding trim_brackets_left
trim_brackets s = reverse (trim_brackets_left (reverse (trim_brackets_left s)))
