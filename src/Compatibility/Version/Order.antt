-- ===== src/Compatibility/Version/Order.antt =====
-- The comparison of versions is a linear order, and that of version texts a linear preorder.
use legacy_store.Base.{◌≡◌, refl, arith, Option, none, some, [], ◌∷◌, Text, true, false, ◌<◌, ◌⊎◌}
use legacy_store.Base.Int.{ℤ, pos, neg, is_negative, is_positive, minus_one}
use legacy_store.Compatibility.Version.{
  Version, compare, compare_text, compare_parsed, compare_versions, parse_version,
}

-- `v` comes before `w` component by component, the earlier components first.
abbrev pub Before : Version → Version → Type 0
Before v w =
    (v.major < w.major)
    ⊎ (((v.major ≡ w.major) × (v.minor < w.minor))
        ⊎ ((v.major ≡ w.major) × (v.minor ≡ w.minor) × (v.patch < w.patch)))

pub compare-negative : (v w : Version) → is_negative (compare v w) ≡ true → Before v w
unfolding compare
compare-negative v w h = ground arith

pub Before-compare : (v w : Version) → Before v w → compare v w ≡ minus_one
unfolding compare
Before-compare v w h = ground arith

pub compare-zero : (v w : Version) → compare v w ≡ pos 0 → v ≡ w
unfolding compare
compare-zero v w h = ground arith

pub compare_refl : (v : Version) → compare v v ≡ pos 0
unfolding compare
compare_refl v = ground arith

pub compare-flip : (v w : Version) → compare w v ≡ neg (compare v w)
unfolding compare
compare-flip v w = ground arith

pub compare_text-flip : (a b : Text) → compare_text b a ≡ neg (compare_text a b)
unfolding compare_text
compare_text-flip [] [] = refl
compare_text-flip [] (d ∷ t) = refl
compare_text-flip (c ∷ s) [] = refl
compare_text-flip (c ∷ s) (d ∷ t) = ground (arith, compare_text-flip s t)

compare_parsed-flip :
    (v w : Option Version) (a b : Text) → compare_parsed w v b a ≡ neg (compare_parsed v w a b)
unfolding compare_parsed
compare_parsed-flip none none a b = compare_text-flip a b
compare_parsed-flip none (some w) a b = refl
compare_parsed-flip (some v) none a b = refl
compare_parsed-flip (some v) (some w) a b = compare-flip v w

-- Swapping the arguments of `CompareVersions` changes the sign of its result.
pub compare_versions-flip : (a b : Text) → compare_versions b a ≡ neg (compare_versions a b)
unfolding compare_versions
compare_versions-flip a b = compare_parsed-flip (parse_version a) (parse_version b) a b

-- `a` is not after `b`.
abbrev pub NotAfter : ℤ → Type 0
NotAfter n = is_positive n ≡ false

compare_trans :
    (u v w : Version) → NotAfter (compare u v) → NotAfter (compare v w) → NotAfter (compare u w)
unfolding compare
compare_trans u v w h k = ground arith

compare_text_trans :
    (a b c : Text)
    → NotAfter (compare_text a b)
    → NotAfter (compare_text b c)
    → NotAfter (compare_text a c)
unfolding compare_text
compare_text_trans [] b [] h k = refl
compare_text_trans [] b (z ∷ c) h k = refl
compare_text_trans (x ∷ a) [] c h k = ground arith
compare_text_trans (x ∷ a) (y ∷ b) [] h k = ground arith
compare_text_trans (x ∷ a) (y ∷ b) (z ∷ c) h k = ground (arith, compare_text_trans a b c)

compare_parsed_trans :
    (u v w : Option Version) (a b c : Text)
    → NotAfter (compare_parsed u v a b)
    → NotAfter (compare_parsed v w b c)
    → NotAfter (compare_parsed u w a c)
unfolding compare_parsed
compare_parsed_trans none none none a b c h k = compare_text_trans a b c h k
compare_parsed_trans none _ (some w) a b c h k = refl
compare_parsed_trans none (some v) none a b c h k = cc
compare_parsed_trans (some u) none _ a b c h k = cc
compare_parsed_trans (some u) (some v) none a b c h k = cc
compare_parsed_trans (some u) (some v) (some w) a b c h k = compare_trans u v w h k

-- That `CompareVersions` puts one text not after another is transitive, whether or not the texts
-- parse.
pub compare_versions_trans :
    (a b c : Text)
    → NotAfter (compare_versions a b)
    → NotAfter (compare_versions b c)
    → NotAfter (compare_versions a c)
unfolding compare_versions
compare_versions_trans a b c h k =
    compare_parsed_trans (parse_version a) (parse_version b) (parse_version c) a b c h k
