-- ===== src/Storage/Paths.antt =====
-- `Resolve` and `safeExtension`, with what they use of Go's `path/filepath` on Unix. A cleaned
-- path is the list of its elements; `texts_of` puts the separators back.
pub mod Cleaning
pub mod Inside
pub mod Extensions
mod Tests
use legacy_store.Base.{
  ℕ, Bool, true, false, not, ◌&&◌, ◌||◌, List, [], ◌∷◌, ◌++◌, Option, none, some, Text, codes, eqb,
  reverse, length, leb, ltb, ◌==◌, all, if◌then◌else◌,
}
use legacy_store.Base.Strings.{trim_space, to_lower, split, join, has_prefix}

abbrev is_empty : Text → Bool
is_empty [] = true
is_empty (c ∷ s) = false

abbrev is_dot : Text → Bool
is_dot p = eqb p (codes ".")

abbrev is_dot_dot : Text → Bool
is_dot_dot p = eqb p (codes "..")

-- `filepath.IsAbs`
abbrev is_abs : Text → Bool
is_abs [] = false
is_abs (c ∷ s) = c == b'/'

-- One element of `filepath.Clean`; the stack has its top at the head. A ".." takes an element
-- off, except another ".."; at the root of an absolute path it is dropped.
unfoldable pub push_element : Bool → List Text → Text → List Text
push_element rooted [] p =
    if is_empty p || is_dot p then [] else if is_dot_dot p && rooted then [] else p ∷ []
push_element rooted (top ∷ stack) p =
    if is_empty p || is_dot p
    then top ∷ stack
    else if is_dot_dot p
    then (if is_dot_dot top then p ∷ top ∷ stack else stack)
    else p ∷ top ∷ stack

unfoldable pub clean_from : Bool → List Text → List Text → List Text
unfolding push_element
clean_from rooted stack [] = reverse stack
clean_from rooted stack (p ∷ ps) = clean_from rooted (push_element rooted stack p) ps

-- The elements that `filepath.Clean` leaves; none stands for "." or "/".
unfoldable pub clean_elements : Text → List Text
unfolding clean_from
clean_elements path = clean_from (is_abs path) [] (split path b'/')

-- `filepath.Clean` of a relative path.
unfoldable pub relative_text : List Text → Text
relative_text [] = codes "."
relative_text (p ∷ ps) = join (p ∷ ps) (codes "/")

-- The text of an absolute path.
unfoldable pub absolute_text : List Text → Text
absolute_text [] = codes "/"
absolute_text (p ∷ ps) = codes "/" ++ join (p ∷ ps) (codes "/")

-- `filepath.Join(root, clean)` for an absolute root and a clean path.
unfoldable pub join_elements : List Text → List Text → List Text
unfolding clean_from
join_elements root path = clean_from true [] (root ++ path)

unfoldable pub strip_common : List Text → List Text → List Text × List Text
strip_common [] target = ([], target)
strip_common (b ∷ base) [] = (b ∷ base, [])
strip_common (b ∷ base) (t ∷ target) =
    let further = strip_common base target in if eqb b t then further else (b ∷ base, t ∷ target)

unfoldable pub up : List Text → List Text
up [] = []
up (b ∷ base) = codes ".." ∷ up base

-- `filepath.Rel` of two absolute clean paths: it has no error there.
unfoldable pub rel_elements : List Text → List Text → List Text
unfolding strip_common up
rel_elements base target = let (rest, below) = strip_common base target in up rest ++ below

-- The path is "..", or begins with "../".
unfoldable pub escapes : List Text → Bool
escapes [] = false
escapes (p ∷ ps) = is_dot_dot p

unfoldable pub check_inside : List Text → List Text → Option (List Text)
unfolding escapes
check_inside root absolute = if escapes (rel_elements root absolute) then none else some absolute

unfoldable pub check_clean : List Text → List Text → Option (List Text)
unfolding escapes check_inside
check_clean root [] = none
check_clean root (p ∷ ps) =
    if escapes (p ∷ ps) then none else check_inside root (join_elements root (p ∷ ps))

-- `Resolve`: the elements of the absolute path, or `ErrInvalidPath`. `root` are the elements of
-- the storage's root, which `NewLocal` has made absolute.
unfoldable pub resolve : List Text → Text → Option (List Text)
unfolding check_clean
resolve root relative =
    let path = trim_space relative in
    if is_empty path || is_abs path then none else check_clean root (clean_elements path)
