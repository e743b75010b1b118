-- ===== src/Architecture/Canonical.antt =====
-- The canonical names: `NormalizeOne` returns one of them, and keeps each of them.
use legacy_store.Base.{
  ◌≡◌, arith, true, List, [], ◌∷◌, some, Text, eqb, eqb_iff, Mem, inl, inr, Bool-cases,
}
use legacy_store.Base.Strings.{trim_space, to_lower, is_space, lower_byte}
use legacy_store.Architecture.{has, supported, check_supported, resolve_alias, normalize_one}

-- Membership and the test of it agree.
pub has-mem : (set : List Text) (v : Text) → has set v ≡ true → Mem v set
unfolding has
has-mem (w ∷ set) v h = ground (arith, eqb_iff v w, has-mem set v)
has-mem [] v h = cc

pub mem-has : (set : List Text) (v : Text) → Mem v set → has set v ≡ true
unfolding has
mem-has [] v m = absurd m
mem-has (w ∷ set) v (inl e) = ground (arith, eqb_iff v w)
mem-has (w ∷ set) v (inr m) = ground (arith, mem-has set v m)

check_supported-some : (v w : Text) → check_supported v ≡ some w → (Mem v supported) × (v ≡ w)
unfolding check_supported
check_supported-some v w h = elim (Bool-cases (has supported v)) [
  | inl e ↦ (has-mem supported v e, ground arith)
  | inr e ↦ ground arith
]

pub normalize_one-supported : (v w : Text) → normalize_one v ≡ some w → Mem w supported
unfolding normalize_one
normalize_one-supported v w h =
    let (m, e) = check_supported-some (resolve_alias (to_lower (trim_space v))) w h in rw (← e) m

-- Each canonical name is its own normal form.
pub normalize_one_of_supported : (w : Text) → Mem w supported → normalize_one w ≡ some w
unfolding normalize_one trim_space is_space to_lower lower_byte eqb has
normalize_one_of_supported w (inl e) = rw e
normalize_one_of_supported w (inr (inl e)) = rw e
normalize_one_of_supported w (inr (inr (inl e))) = rw e
normalize_one_of_supported w (inr (inr (inr (inl e)))) = rw e
normalize_one_of_supported w (inr (inr (inr (inr (inl e))))) = rw e
normalize_one_of_supported w (inr (inr (inr (inr (inr (inl e)))))) = rw e
normalize_one_of_supported w (inr (inr (inr (inr (inr (inr (inl e))))))) = rw e
normalize_one_of_supported w (inr (inr (inr (inr (inr (inr (inr (inl e)))))))) = rw e
normalize_one_of_supported w (inr (inr (inr (inr (inr (inr (inr (inr m)))))))) = absurd m

-- A name that `NormalizeOne` returns is returned unchanged by it.
pub normalize_one_idem : (v w : Text) → normalize_one v ≡ some w → normalize_one w ≡ some w
normalize_one_idem v w h = normalize_one_of_supported w (normalize_one-supported v w h)
