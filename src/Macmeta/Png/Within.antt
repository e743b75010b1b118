-- ===== src/Macmeta/Png/Within.antt =====
-- `extractPNG` ends, and what it returns is a part of the bytes that begins with the signature.
use legacy_store.Base.{
  ℕ, zero, suc, ◌≡◌, ◌+◌, ◌-◌, ◌≤◌, refl, sym, ap, ◌∙◌, arith, true, false, List, [], ◌∷◌, none,
  some, codes, inl, inr, eqb, ltb, leb, length, take, drop, Bool-cases, Option-cases, length-drop,
}
use legacy_store.Base.Strings.{has_prefix}
use legacy_store.Macmeta.Bytes.{read_unsigned}
use legacy_store.Macmeta.Png.{Search, signature, index_of, scan_chunks, find_png, extract_png}
use Search.{out_of_fuel, missing, found}

-- Nothing, or a part of the bytes that begins with the signature.
abbrev pub IsPart : List ℕ → Search → Type 0
IsPart bytes out_of_fuel = ⊥
IsPart bytes missing = Unit
IsPart bytes (found png) =
    (from : ℕ) × (count : ℕ) × (png ≡ take count (drop from bytes))
    × (has_prefix png signature ≡ true)

has_prefix-length : (xs p : List ℕ) → has_prefix xs p ≡ true → length p ≤ length xs
unfolding has_prefix
has_prefix-length xs [] h = omega arith
has_prefix-length [] (c ∷ p) h = cc
has_prefix-length (x ∷ xs) (c ∷ p) h = ground (arith, h, has_prefix-length xs p)

has_prefix-take :
    (n : ℕ) (xs p : List ℕ)
    → has_prefix xs p ≡ true
    → length p ≤ n
    → has_prefix (take n xs) p ≡ true
unfolding has_prefix
has_prefix-take n xs [] h k = refl
has_prefix-take n [] (c ∷ p) h k = cc
has_prefix-take zero (x ∷ xs) (c ∷ p) h k = absurd (omega arith)
has_prefix-take (suc n) (x ∷ xs) (c ∷ p) h k = ground (arith, h, has_prefix-take n xs p)

drop-empty : (n : ℕ) → drop {A = ℕ} n [] ≡ []
drop-empty zero = refl
drop-empty (suc n) = refl

drop-drop : (m n : ℕ) (xs : List ℕ) → drop n (drop m xs) ≡ drop (m + n) xs
drop-drop zero n xs = ap (λ k. drop k xs) (omega arith)
drop-drop (suc m) n [] = drop-empty n ∙ sym (drop-empty (suc m + n))
drop-drop (suc m) n (x ∷ xs) =
    drop-drop m n xs ∙ ap (λ k. drop k (x ∷ xs)) {x = suc (m + n)} (omega arith)

-- The signature stands at the place that was found.
index_of-prefix :
    (part bytes : List ℕ) (n : ℕ)
    → index_of part bytes ≡ some n
    → has_prefix (drop n bytes) part ≡ true
unfolding index_of
index_of-prefix part [] n h = elim (Bool-cases (has_prefix [] part)) [
  | inl e ↦ let start : n ≡ 0 = ground (arith, e, h) in rw start e
  | inr e ↦ absurd (let clash : none ≡ some n = rw e at h in cc)
]
index_of-prefix part (b ∷ bytes) n h = elim (Bool-cases (has_prefix (b ∷ bytes) part)) [
  | inl e ↦ let start : n ≡ 0 = ground (arith, e, h) in rw start e
  | inr e ↦ elim (Option-cases (index_of part bytes)) [
    | inl none_there ↦ absurd (let clash : none ≡ some n = rw none_there at (rw e at h) in cc)
    | inr (m, there) ↦
        let next : n ≡ suc m = let same : some (suc m) ≡ some n = rw there at (rw e at h) in cc in
        rw next (index_of-prefix part bytes m there)
  ]
]

scan_chunks-IsPart :
    (fuel : ℕ) (bytes : List ℕ) (offset pos : ℕ)
    → length bytes ≤ pos + fuel
    → offset + 8 ≤ pos
    → has_prefix (drop offset bytes) signature ≡ true
    → IsPart bytes (scan_chunks fuel bytes offset pos)
unfolding scan_chunks
scan_chunks-IsPart zero bytes offset pos h k s =
    let past : leb (pos + 12) (length bytes) ≡ false = ground (arith, h) in rw past tt
scan_chunks-IsPart (suc fuel) bytes offset pos h k s =
    let next = pos + 12 + read_unsigned (take 4 (drop pos bytes)) in
    elim (Bool-cases (leb (pos + 12) (length bytes))) [
      | inr e ↦ rw e tt
      | inl e ↦ rw e (elim (Bool-cases (ltb (length bytes) next)) [
        | inl long ↦ rw long tt
        | inr fits ↦
            rw fits (elim (Bool-cases (eqb (take 4 (drop (pos + 4) bytes)) (codes "IEND"))) [
              | inl last ↦ rw last (
                offset,
                next - offset,
                refl,
                has_prefix-take (next - offset) (drop offset bytes) signature s (omega arith),
              )
              | inr other ↦
                  rw other (scan_chunks-IsPart fuel bytes offset next (omega arith) (omega arith) s)
            ])
      ])
    ]

find_png-IsPart :
    (fuel : ℕ) (bytes : List ℕ) (offset : ℕ)
    → length bytes ≤ offset + 7 + fuel
    → has_prefix (drop offset bytes) signature ≡ true
    → IsPart bytes (find_png fuel bytes offset)
unfolding find_png
find_png-IsPart zero bytes offset h s = absurd (
    let long = has_prefix-length (drop offset bytes) signature s in
    omega (arith, length-drop offset bytes))
find_png-IsPart (suc fuel) bytes offset h s =
    searched (scan_chunks (length bytes) bytes offset (offset + 8))
      (scan_chunks-IsPart (length bytes) bytes offset (offset + 8) (omega arith) (omega arith) s)
      (λ next e. find_png-IsPart fuel bytes (offset + 8 + next) (omega arith) (
        rw (drop-drop (offset + 8) next bytes) at
          (index_of-prefix signature (drop (offset + 8) bytes) next e)))
  where
    searched :
        (result : Search)
        → IsPart bytes result
        → ((next : ℕ)
            → index_of signature (drop (offset + 8) bytes) ≡ some next
            → IsPart bytes (find_png fuel bytes (offset + 8 + next)))
        → IsPart bytes (elim result [
          | out_of_fuel ↦ out_of_fuel
          | found png ↦ found png
          | missing ↦ elim (index_of signature (drop (offset + 8) bytes)) [
            | none ↦ missing
            | some next ↦ find_png fuel bytes (offset + 8 + next)
          ]
        ])
    searched out_of_fuel p further = p
    searched (found png) p further = p
    searched missing p further =
        elim (Option-cases (index_of signature (drop (offset + 8) bytes))) [
          | inl e ↦ rw e tt
          | inr (next, e) ↦ rw e (further next e)
        ]

-- For all bytes, `extractPNG` ends: its two loops, given as many rounds as there are bytes, never
-- use them up. What it returns is a part of the bytes that begins with the signature of PNG.
pub extract_png-IsPart : (bytes : List ℕ) → IsPart bytes (extract_png bytes)
unfolding extract_png
extract_png-IsPart bytes = elim (Option-cases (index_of signature bytes)) [
  | inl e ↦ rw (extract_png, e) tt
  | inr (offset, e) ↦
      rw (extract_png, e)
        (find_png-IsPart (length bytes) bytes offset (omega arith)
          (index_of-prefix signature bytes offset e))
]
