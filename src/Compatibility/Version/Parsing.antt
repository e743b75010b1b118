-- ===== src/Compatibility/Version/Parsing.antt =====
-- What `ParseVersion` makes of texts of decimal digits.
use legacy_store.Base.{
  ℕ, ◌+◌, ◌*◌, ◌-◌, ◌<◌, ◌≡◌, ◌≢◌, refl, arith, some, List, [], ◌∷◌, ◌++◌, All, All-append,
  All-reverse, Text, reverse, false, true, take,
}
use legacy_store.Base.Int.{pos}
use legacy_store.Base.Strings.{
  is_space, is_digit, digits_value, magnitude, int_bound, atoi, trim_space, split,
}
use legacy_store.Base.Strings.Laws.{Lacks, IsSolid, trim_space_of_IsSolid, split-Lacks, split-part}
use legacy_store.Compatibility.Version.{
  parse_part, parse_parts, parse_trimmed, parse_version, from_parts,
}

abbrev pub AreDigits : List ℕ → Type 0
AreDigits ds = All (λ d. d < 10) ds

-- The text of a list of decimal digits, most significant first, and its value.
abbrev pub numeral : List ℕ → Text
numeral [] = []
numeral (d ∷ ds) = (b'0' + d) ∷ numeral ds

abbrev pub value_from : ℕ → List ℕ → ℕ
value_from n [] = n
value_from n (d ∷ ds) = value_from (n * 10 + d) ds

abbrev pub value : List ℕ → ℕ
value ds = value_from 0 ds

digits_value-numeral :
    (n : ℕ) (ds : List ℕ) → AreDigits ds → digits_value n (numeral ds) ≡ some (value_from n ds)
unfolding digits_value
digits_value-numeral n [] h = refl
digits_value-numeral n (d ∷ ds) (p, h) =
    let same : n * 10 + (48 + d - 48) ≡ n * 10 + d = omega arith in
    let digit : is_digit (48 + d) ≡ true = unfold is_digit in ground arith in
    rw digit (rw same (digits_value-numeral (n * 10 + d) ds h))

-- One component: at least one digit, and a value in the range of a 64-bit integer.
abbrev pub IsComponent : List ℕ → Type 0
IsComponent [] = ⊥
IsComponent (d ∷ ds) = AreDigits (d ∷ ds) × (value (d ∷ ds) < int_bound)

atoi-numeral : (ds : List ℕ) → IsComponent ds → atoi (numeral ds) ≡ some (pos (value ds))
unfolding atoi magnitude
atoi-numeral [] h = absurd h
atoi-numeral (d ∷ ds) (h, small) = ground (arith, digits_value-numeral 0 (d ∷ ds) h)

parse_part-numeral : (ds : List ℕ) → IsComponent ds → parse_part (numeral ds) ≡ some (value ds)
unfolding parse_part
parse_part-numeral [] h = absurd h
parse_part-numeral (d ∷ ds) h = ground (arith, atoi-numeral (d ∷ ds) h)

-- The bytes of version texts: none of them is white space.
abbrev IsInk : Text → Type 0
IsInk s = All (λ c. is_space c ≡ false) s

IsInk-numeral : (ds : List ℕ) → AreDigits ds → IsInk (numeral ds)
unfolding is_space
IsInk-numeral [] h = tt
IsInk-numeral (d ∷ ds) (p, h) = (ground arith, IsInk-numeral ds h)

Lacks-numeral : (ds : List ℕ) → AreDigits ds → Lacks b'.' (numeral ds)
Lacks-numeral [] h = tt
Lacks-numeral (d ∷ ds) (p, h) = (ground arith, Lacks-numeral ds h)

IsSolid-of_IsInk : (s : Text) → IsInk s → IsSolid s
IsSolid-of_IsInk [] h = tt
IsSolid-of_IsInk (c ∷ s) (p, h) = p

trim_space_of_IsInk : (s : Text) → IsInk s → trim_space s ≡ s
trim_space_of_IsInk s h =
    trim_space_of_IsSolid s (IsSolid-of_IsInk s h)
      (IsSolid-of_IsInk (reverse s) (All-reverse _ s h))

AreDigits-of_IsComponent : (ds : List ℕ) → IsComponent ds → AreDigits ds
AreDigits-of_IsComponent [] h = absurd h
AreDigits-of_IsComponent (d ∷ ds) h = h.0

abbrev pub dotted : List ℕ → List ℕ → List ℕ → Text
dotted a b c = numeral a ++ (b'.' ∷ (numeral b ++ (b'.' ∷ numeral c)))

parse_trimmed_of_split :
    (t : Text) {ps : List Text} {ns : List ℕ}
    → t ≢ []
    → split t b'.' ≡ ps
    → parse_parts (take 3 ps) ≡ some ns
    → parse_trimmed t ≡ some (from_parts ns)
unfolding parse_trimmed
parse_trimmed_of_split [] ne e k = absurd (ne refl)
parse_trimmed_of_split (c ∷ s) ne e k = rw (e, parse_trimmed) (rw (k, parse_trimmed))

parse_parts-cons :
    (ds : List ℕ) (ps : List Text) {ns : List ℕ}
    → IsComponent ds
    → parse_parts ps ≡ some ns
    → parse_parts (numeral ds ∷ ps) ≡ some (value ds ∷ ns)
unfolding parse_parts
parse_parts-cons ds ps h k = rw (parse_part-numeral ds h, parse_parts) (rw (k, parse_parts))

parse_parts-nil : parse_parts [] ≡ some []
unfolding parse_parts
parse_parts-nil = refl

dotted-ne-nil : (a b c : List ℕ) → IsComponent a → dotted a b c ≢ []
dotted-ne-nil [] b c h = absurd h
dotted-ne-nil (d ∷ a) b c h = cc

module _ (a b c : List ℕ) (ha : IsComponent a) (hb : IsComponent b) (hc : IsComponent c) where
  IsInk-dotted : IsInk (dotted a b c)
  unfolding is_space
  IsInk-dotted = All-append _ (numeral a) _ (IsInk-numeral a (AreDigits-of_IsComponent a ha)) (
    refl,
    All-append _ (numeral b) _ (IsInk-numeral b (AreDigits-of_IsComponent b hb))
        (refl, IsInk-numeral c (AreDigits-of_IsComponent c hc)),
  )

  split-dotted : split (dotted a b c) b'.' ≡ numeral a ∷ numeral b ∷ numeral c ∷ []
  split-dotted =
      rw (split-part b'.' (numeral a) _ (Lacks-numeral a (AreDigits-of_IsComponent a ha))) (
        rw (split-part b'.' (numeral b) _ (Lacks-numeral b (AreDigits-of_IsComponent b hb)))
          (rw (split-Lacks b'.' (numeral c) (Lacks-numeral c (AreDigits-of_IsComponent c hc)))))

  -- The text "a.b.c" of three decimal numbers below the bound of an int is parsed as the version
  -- of these numbers, leading zeros included.
  pub parse_version-dotted :
      parse_version (dotted a b c)
      ≡ some (record { major = value a; minor = value b; patch = value c })
  unfolding parse_version
  parse_version-dotted = rw (trim_space_of_IsInk (dotted a b c) IsInk-dotted) (
      parse_trimmed_of_split (dotted a b c) (dotted-ne-nil a b c ha) split-dotted (
        parse_parts-cons a (numeral b ∷ numeral c ∷ []) ha
          (parse_parts-cons b (numeral c ∷ []) hb (parse_parts-cons c [] hc parse_parts-nil))))
