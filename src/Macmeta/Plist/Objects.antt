-- ===== src/Macmeta/Plist/Objects.antt =====
-- `object` never panics, if no run of bytes announces a length that wraps.
use legacy_store.Base.{
  ℕ, zero, suc, ◌≡◌, ◌/◌, ◌%◌, ◌^◌, ◌≤◌, ◌<◌, refl, arith, Bool, true, false, not, ◌||◌, List, [],
  ◌∷◌, inl, inr, some, Text, ltb, leb, length, get_elem?, all, Option-cases, and_true,
}
use legacy_store.Macmeta.Bytes.{Outcome, IsSafe, ◌>>=◌, >>=-IsSafe, byte_at, byte_at-IsSafe, add64}
use legacy_store.Macmeta.Values.{Error}
use legacy_store.Macmeta.Plist.Reading.{
  Parser, Progress, object_length, Step, read_bytes, read_unicode, read_integer, read_real, Kind,
  kind_of, memo_of, is_parsing,
}
use legacy_store.Macmeta.Plist.Object.{read_kind, read_object, finish, object}
use legacy_store.Macmeta.Plist.Lengths.{
  IsSmall, StartsWithin, guard, add64_within, object_length-StartsWithin, read_bytes-IsSafe,
  read_unicode-IsSafe, read_integer-IsSafe, read_real-IsSafe,
}
use Outcome.{panicked, failed, done}
use legacy_store.Macmeta.Plist.Elements.{read_array-IsSafe, read_dictionary-IsSafe}

-- The objects whose announced length is added to a position with no other test of it.
abbrev is_run : Kind → Bool
is_run Kind.data_kind = true
is_run Kind.ascii = true
is_run Kind.unicode = true
is_run _ = false

abbrev is_short_length : Outcome (ℕ × ℕ) → Bool
is_short_length panicked = true
is_short_length (failed e) = true
is_short_length (done (count, next)) = ltb count (2 ^ 62)

-- The object at an offset announces less than 2^62 bytes or units, if it is data or a string.
abbrev pub is_short_run : Parser → ℕ → Bool
is_short_run p offset = elim (byte_at p.data_bytes offset) [
  | panicked ↦ true
  | failed e ↦ true
  | done marker ↦
      not (is_run (kind_of (marker / 16)))
      || is_short_length (object_length p (marker % 16) (add64 offset 1))
]

-- All objects of a file do.
abbrev pub are_short_runs : Outcome (Parser × ℕ) → Bool
are_short_runs panicked = true
are_short_runs (failed e) = true
are_short_runs (done (p, top)) = all (is_short_run p) p.offsets

StartsWithin-IsSafe : (p : Parser) (place : Outcome (ℕ × ℕ)) → StartsWithin p place → IsSafe place
StartsWithin-IsSafe p panicked h = h
StartsWithin-IsSafe p (failed e) h = tt
StartsWithin-IsSafe p (done place) h = tt

-- A length is read, and what follows keeps to it.
with_place :
    {B : Type 0} (p : Parser) (place : Outcome (ℕ × ℕ)) (continue : ℕ × ℕ → Outcome B)
    → StartsWithin p place
    → ((count next : ℕ)
        → place ≡ done (count, next)
        → next ≤ length p.data_bytes
        → IsSafe (continue (count, next)))
    → IsSafe (place >>= continue)
with_place p panicked continue h k = h
with_place p (failed e) continue h k = tt
with_place p (done (count, next)) continue h k = k count next refl h

module _ (utf16_decode : List ℕ → Text) (step : Step)
    (safe : (st : Progress) (i : ℕ) → IsSafe (step st i)) where
  read_kind-IsSafe :
      (p : Parser) (st : Progress) (kind : Kind) (n info at : ℕ)
      → IsSmall p
      → at ≤ length p.data_bytes
      → (not (is_run kind) || is_short_length (object_length p info at)) ≡ true
      → IsSafe (read_kind utf16_decode p step st kind n info at)
  unfolding read_kind
  read_kind-IsSafe p st Kind.simple n info at s h l = tt
  read_kind-IsSafe p st Kind.integer n info at s h l =
      >>=-IsSafe (read_integer p info at) _ (read_integer-IsSafe p info at s h) (λ value _. tt)
  read_kind-IsSafe p st Kind.real n info at s h l =
      >>=-IsSafe (read_real p info at) _ (read_real-IsSafe p info at s h) (λ value _. tt)
  read_kind-IsSafe p st Kind.data_kind n info at s h l =
      with_place p (object_length p info at) _ (object_length-StartsWithin p info at s h)
        (λ count next e k.
          let short : ltb count (2 ^ 62) ≡ true = rw e at l in
          >>=-IsSafe (read_bytes p Error.invalid_data (count, next)) _
            (read_bytes-IsSafe p Error.invalid_data count next s k (ground (arith, short)))
            (λ bytes _. tt))
  read_kind-IsSafe p st Kind.ascii n info at s h l =
      with_place p (object_length p info at) _ (object_length-StartsWithin p info at s h)
        (λ count next e k.
          let short : ltb count (2 ^ 62) ≡ true = rw e at l in
          >>=-IsSafe (read_bytes p Error.invalid_string (count, next)) _
            (read_bytes-IsSafe p Error.invalid_string count next s k (ground (arith, short)))
            (λ bytes _. tt))
  read_kind-IsSafe p st Kind.unicode n info at s h l =
      with_place p (object_length p info at) _ (object_length-StartsWithin p info at s h)
        (λ count next e k.
          let short : ltb count (2 ^ 62) ≡ true = rw e at l in
          >>=-IsSafe (read_unicode p (count, next)) _
            (read_unicode-IsSafe p count next s k (ground (arith, short))) (λ units _. tt))
  read_kind-IsSafe p st Kind.array n info at s h l =
      with_place p (object_length p info at) _ (object_length-StartsWithin p info at s h)
        (λ count next e k. read_array-IsSafe step safe p st count next s k)
  read_kind-IsSafe p st Kind.dictionary n info at s h l =
      with_place p (object_length p info at) _ (object_length-StartsWithin p info at s h)
        (λ count next e k. read_dictionary-IsSafe step safe p st count next s k)
  read_kind-IsSafe p st Kind.unsupported n info at s h l = tt

  read_object-IsSafe :
      (p : Parser) (st : Progress) (offset : ℕ)
      → IsSmall p
      → is_short_run p offset ≡ true
      → IsSafe (read_object utf16_decode p step st offset)
  unfolding read_object
  read_object-IsSafe p st offset s h = guard IsSafe (leb (length p.data_bytes) offset) _ _ tt (λ e.
      let inside : offset < length p.data_bytes = ground (arith, e) in
      let next = add64_within p offset 1 s (omega arith) (omega arith) in
      >>=-IsSafe (byte_at p.data_bytes offset) _ (byte_at-IsSafe p.data_bytes offset inside)
        (λ marker k.
          read_kind-IsSafe p st (kind_of (marker / 16)) (marker / 16) (marker % 16) (add64 offset 1)
            s (omega (arith, next)) (rw (is_short_run, k) at h)))

all-get_elem? :
    (q : ℕ → Bool) (xs : List ℕ) (i x : ℕ) → all q xs ≡ true → get_elem? xs i ≡ some x → q x ≡ true
all-get_elem? q [] i x h e = absurd cc
all-get_elem? q (y ∷ xs) zero x h e = ground (arith, h, e)
all-get_elem? q (y ∷ xs) (suc i) x h e = all-get_elem? q xs i x (and_true (q y) (all q xs) h).1 e

module _ (utf16_decode : List ℕ → Text) where
  pub object-IsSafe :
      (p : Parser) (room : ℕ) (st : Progress) (index : ℕ)
      → IsSmall p
      → all (is_short_run p) p.offsets ≡ true
      → IsSafe (object utf16_decode p room st index)
  unfolding object finish
  object-IsSafe p zero st index s h = tt
  object-IsSafe p (suc room) st index s h = elim (Option-cases (memo_of index st.object_memo)) [
    | inr (value, e) ↦ rw (object, e) tt
    | inl e ↦
        rw (object, e)
          (guard IsSafe (is_parsing index st.parsing) _ _ tt (λ _.
            elim (Option-cases (get_elem? p.offsets index)) [
              | inl k ↦ rw k tt
              | inr (offset, k) ↦
                  let started = record st { parsing = index ∷ st.parsing } in
                  rw k (
                    >>=-IsSafe
                      (read_object utf16_decode p (object utf16_decode p room) started offset)
                      (finish index)
                      (read_object-IsSafe utf16_decode (object utf16_decode p room)
                        (λ st' i. object-IsSafe p room st' i s h) p started offset s
                        (all-get_elem? (is_short_run p) p.offsets index offset h k))
                      (λ found _. tt))
            ]))
  ]
