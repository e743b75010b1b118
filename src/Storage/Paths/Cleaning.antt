-- ===== src/Storage/Paths/Cleaning.antt =====
-- What `filepath.Clean` leaves of a relative path.
use mathlib.Core.List.{append-nil, append_assoc, reverse-append, reverse-cons}
use legacy_store.Base.{
  ◌≡◌, refl, sym, ◌∙◌, subst, arith, Bool, true, false, ◌||◌, List, [], ◌∷◌, ◌++◌, Text, reverse,
  Bool-cases, All, All-reverse, inl, inr,
}
use legacy_store.Base.Strings.{split}
use legacy_store.Base.Strings.Laws.{Lacks, split-parts}
use legacy_store.Storage.Paths.{
  is_empty, is_dot, is_dot_dot, is_abs, push_element, clean_from, clean_elements, escapes,
}

-- An element that names an entry of the directory it stands in.
pub record IsPlain (p : Text) : Type 0 where
  pub nonempty : is_empty p ≡ false
  pub not_dot : is_dot p ≡ false
  pub not_dot_dot : is_dot_dot p ≡ false
  pub no_slash : Lacks b'/' p

pub push_element-IsPlain :
    (rooted : Bool) (stack : List Text) (p : Text)
    → IsPlain p
    → push_element rooted stack p ≡ p ∷ stack
unfolding push_element
push_element-IsPlain rooted [] p h = ground (arith, h.nonempty, h.not_dot, h.not_dot_dot)
push_element-IsPlain rooted (top ∷ stack) p h = ground (arith, h.nonempty, h.not_dot, h.not_dot_dot)

pub clean_from-IsPlain :
    (rooted : Bool) (stack ps : List Text)
    → All IsPlain ps
    → clean_from rooted stack ps ≡ reverse stack ++ ps
unfolding clean_from
clean_from-IsPlain rooted stack [] h = sym (append-nil (reverse stack))
clean_from-IsPlain rooted stack (p ∷ ps) (q, h) =
    rw (push_element-IsPlain rooted stack p q)
      (clean_from-IsPlain rooted (p ∷ stack) ps h ∙ simp (reverse-cons, append_assoc))

-- What an element does to the stack.
data Kind (p : Text) : Type 0 where
  skipped : (is_empty p || is_dot p) ≡ true → Kind p
  upward : (is_empty p || is_dot p) ≡ false → is_dot_dot p ≡ true → Kind p
  plain : IsPlain p → Kind p

kind : (p : Text) → Lacks b'/' p → Kind p
kind p slash = elim (Bool-cases (is_empty p || is_dot p)) [
  | inl e ↦ skipped e
  | inr e ↦ elim (Bool-cases (is_dot_dot p)) [
    | inl d ↦ upward e d
    | inr d ↦ plain (record {
      nonempty = ground arith;
      not_dot = ground arith;
      not_dot_dot = d;
      no_slash = slash;
    })
  ]
]

abbrev AreDots : List Text → Type 0
AreDots dots = All (λ p. is_dot_dot p ≡ true) dots

-- Plain elements, on top of the ".." elements that a relative path begins with.
record Shape (stack : List Text) : Type 0 where
  plains : List Text
  dots : List Text
  are_plain : All IsPlain plains
  are_dots : AreDots dots
  splits : stack ≡ plains ++ dots

Shape-push :
    (plains dots : List Text) (p : Text)
    → All IsPlain plains
    → AreDots dots
    → Kind p
    → Shape (push_element false (plains ++ dots) p)
unfolding push_element
Shape-push [] [] p h k (skipped e) = record {
  plains = [];
  dots = [];
  are_plain = tt;
  are_dots = tt;
  splits = rw e;
}
Shape-push [] (d ∷ dots) p h k (skipped e) = record {
  plains = [];
  dots = d ∷ dots;
  are_plain = tt;
  are_dots = k;
  splits = rw e;
}
Shape-push (q ∷ plains) dots p h k (skipped e) = record {
  plains = q ∷ plains;
  dots = dots;
  are_plain = h;
  are_dots = k;
  splits = rw e;
}
Shape-push [] [] p h k (upward e u) = record {
  plains = [];
  dots = p ∷ [];
  are_plain = tt;
  are_dots = (u, tt);
  splits = rw e (rw u);
}
Shape-push [] (d ∷ dots) p h k (upward e u) = record {
  plains = [];
  dots = p ∷ d ∷ dots;
  are_plain = tt;
  are_dots = (u, k);
  splits = rw e (rw u (rw k.0));
}
Shape-push (q ∷ plains) dots p h k (upward e u) =
    let not_up = (h.0).not_dot_dot in
    record {
      plains = plains;
      dots = dots;
      are_plain = h.1;
      are_dots = k;
      splits = rw e (rw u (rw not_up));
    }
Shape-push plains dots p h k (plain a) = record {
  plains = p ∷ plains;
  dots = dots;
  are_plain = (a, h);
  are_dots = k;
  splits = push_element-IsPlain false (plains ++ dots) p a;
}

clean_from-Shape :
    (stack ps : List Text)
    → Shape stack
    → All (Lacks b'/') ps
    → (last : List Text) × Shape last × (clean_from false stack ps ≡ reverse last)
unfolding clean_from
clean_from-Shape stack [] s h = (stack, s, refl)
clean_from-Shape stack (p ∷ ps) s (slash, h) =
    let pushed = Shape-push s.plains s.dots p s.are_plain s.are_dots (kind p slash) in
    clean_from-Shape (push_element false stack p) ps
      (subst (λ x. Shape (push_element false x p)) (sym s.splits) pushed) h

-- A reversed stack that does not begin with ".." is plain.
Shape-IsPlain :
    (stack : List Text)
    → Shape stack
    → escapes (reverse stack) ≡ false
    → All IsPlain (reverse stack)
unfolding escapes
Shape-IsPlain stack s h = rw s.splits (
    rw (reverse-append s.plains s.dots) (
      ends (reverse s.dots) (All-reverse _ s.dots s.are_dots)
        (rw (reverse-append s.plains s.dots) at (rw s.splits at h))))
  where
    ends :
        (ds : List Text)
        → AreDots ds
        → escapes (ds ++ reverse s.plains) ≡ false
        → All IsPlain (ds ++ reverse s.plains)
    ends [] k e = All-reverse _ s.plains s.are_plain
    ends (d ∷ ds) (a, k) e = cc

Shape-nil : Shape []
Shape-nil = record { plains = []; dots = []; are_plain = tt; are_dots = tt; splits = refl }

pub clean_elements-IsPlain :
    (path : Text)
    → is_abs path ≡ false
    → escapes (clean_elements path) ≡ false
    → All IsPlain (clean_elements path)
unfolding clean_elements
clean_elements-IsPlain path relative h =
    let (last, shape, e) =
      clean_from-Shape [] (split path b'/') Shape-nil (split-parts b'/' path) in
    let same : clean_elements path ≡ reverse last = rw relative e in
    rw relative (rw e (Shape-IsPlain last shape (rw same at h)))
