-- ===== src/Storage/Paths/Extensions.antt =====
-- `safeExtension`, with `filepath.Base` and `filepath.Ext` of Go on Unix.
use legacy_store.Base.{
  ℕ, Bool, not, ◌&&◌, ◌||◌, [], ◌∷◌, ◌++◌, Text, codes, ltb, leb, ◌==◌, reverse, length, all,
  if◌then◌else◌,
}
use legacy_store.Base.Strings.{trim_space, to_lower}

-- The bytes before the first `sep`, or all of them.
unfoldable pub before : ℕ → Text → Text
before sep [] = []
before sep (c ∷ s) = let rest = before sep s in if c == sep then [] else c ∷ rest

unfoldable pub skip_all : ℕ → Text → Text
skip_all sep [] = []
skip_all sep (c ∷ s) = let rest = skip_all sep s in if c == sep then rest else c ∷ s

abbrev or_slash : Text → Text
or_slash [] = codes "/"
or_slash (c ∷ s) = c ∷ s

-- `filepath.Base`: the last element, without the slashes that follow it.
unfoldable pub base_name : Text → Text
unfolding before skip_all
base_name [] = codes "."
base_name (c ∷ s) = or_slash (reverse (before b'/' (skip_all b'/' (reverse (c ∷ s)))))

abbrev has_dot : Text → Bool
has_dot s = not (all (λ c. not (c == b'.')) s)

-- `filepath.Ext` of one element: from the last dot on.
unfoldable pub extension : Text → Text
unfolding before
extension name = if has_dot name then codes "." ++ reverse (before b'.' (reverse name)) else []

abbrev is_safe_byte : ℕ → Bool
is_safe_byte c = (c == b'.') || (leb b'a' c && leb c b'z') || (leb b'0' c && leb c b'9')

-- `safeExtension`
unfoldable pub safe_extension : Text → Text
unfolding base_name extension
safe_extension name =
    let ext = to_lower (extension (base_name (trim_space name))) in
    if ltb 12 (length ext) then [] else if all is_safe_byte ext then ext else []
