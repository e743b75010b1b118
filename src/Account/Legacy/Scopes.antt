-- ===== src/Account/Legacy/Scopes.antt =====
-- The scopes of a legacy password.
use legacy_store.Base.{
  ◌≡◌, ◌⊎◌, ◌↔◌, refl, sym, subst, map, All-mem, All-of_mem, any-mem, mem-any, arith, Bool, true,
  false, List, [], ◌∷◌, Text, eqb, eqb_iff, inl, inr, Mem, All, Distinct, Bool-cases, All-map,
}
use legacy_store.Base.Strings.{trim_space, is_space}
use legacy_store.Account.LegacyRows.{
  default_legacy_scopes, is_listed, clean_scopes, sanitize_legacy_scopes, or_default,
}

clean-fresh :
    (seen scopes : List Text) → All (λ s. is_listed seen s ≡ false) (clean_scopes seen scopes)
unfolding clean_scopes
clean-fresh seen [] = tt
clean-fresh seen (raw ∷ scopes) =
    let scope = trim_space raw in
    elim (Bool-cases (is_listed default_legacy_scopes scope)) [
      | inr unknown ↦ rw unknown (clean-fresh seen scopes)
      | inl known ↦ elim (Bool-cases (is_listed seen scope)) [
        | inl again ↦ rw known (rw again (clean-fresh seen scopes))
        | inr fresh ↦ rw known (
            rw fresh (
              fresh,
              All-map _ (λ s. is_listed seen s ≡ false) (λ s h. ground (arith, h)) _
                  (clean-fresh (scope ∷ seen) scopes),
            ))
      ]
    ]

fresh-absent :
    (scope : Text) (seen scopes : List Text)
    → All (λ s. is_listed (scope ∷ seen) s ≡ false) scopes
    → ¬ Mem scope scopes
fresh-absent scope seen [] h m = m
fresh-absent scope seen (s ∷ scopes) (a, h) (inl e) = ground (arith, a, (eqb_iff scope s).1 e)
fresh-absent scope seen (s ∷ scopes) (a, h) (inr m) = fresh-absent scope seen scopes h m

clean-Distinct : (seen scopes : List Text) → Distinct (clean_scopes seen scopes)
unfolding clean_scopes
clean-Distinct seen [] = tt
clean-Distinct seen (raw ∷ scopes) =
    let scope = trim_space raw in
    elim (Bool-cases (is_listed default_legacy_scopes scope)) [
      | inr unknown ↦ rw unknown (clean-Distinct seen scopes)
      | inl known ↦ elim (Bool-cases (is_listed seen scope)) [
        | inl again ↦ rw known (rw again (clean-Distinct seen scopes))
        | inr fresh ↦ rw known (
            rw fresh (
              fresh-absent scope seen _ (clean-fresh (scope ∷ seen) scopes),
              clean-Distinct (scope ∷ seen) scopes,
            ))
      ]
    ]

default-Distinct : Distinct default_legacy_scopes
unfolding eqb clean_scopes trim_space is_space
default-Distinct = clean-Distinct [] default_legacy_scopes

listed_iff : (scopes : List Text) (s : Text) → (is_listed scopes s ≡ true) ↔ Mem s scopes
listed_iff scopes s = (
  λ h.
      let (a, m, e) = any-mem (λ x. eqb x s) scopes h in
      subst (λ x. Mem x scopes) ((eqb_iff a s).0 e) m,
  λ m. mem-any (λ x. eqb x s) s scopes m ((eqb_iff s s).1 refl),
)

tells_apart : (p : Text → Bool) {s t : Text} → s ≡ t → p s ≡ true → p t ≡ false → ⊥
tells_apart p e passes fails = let moved = subst (λ x. p x ≡ true) e passes in ground arith

-- The loop keeps the known scopes that were given and not seen before.
clean_iff :
    (seen scopes : List Text) (s : Text)
    → Mem s (clean_scopes seen scopes)
      ↔ (Mem s default_legacy_scopes × (is_listed seen s ≡ false) × Mem s (map trim_space scopes))
unfolding clean_scopes
clean_iff seen [] s = ((λ m. absurd m), λ h. h.2)
clean_iff seen (raw ∷ scopes) s =
    let scope = trim_space raw in
    let (to, from) = clean_iff seen scopes s in
    elim (Bool-cases (is_listed default_legacy_scopes scope)) [
      | inr unknown ↦ rw unknown (
        λ m. let (known, unseen, given) = to m in (known, unseen, inr given),
        λ h.
            let (known, unseen, given) = h in
            elim given [
              | inl e ↦
                  let is_one = (listed_iff default_legacy_scopes s).1 known in
                  absurd (tells_apart (is_listed default_legacy_scopes) e is_one unknown)
              | inr m ↦ from (known, unseen, m)
            ],
      )
      | inl known ↦ elim (Bool-cases (is_listed seen scope)) [
        | inl again ↦ rw known (
            rw again (
              λ m. let (listed, unseen, given) = to m in (listed, unseen, inr given),
              λ h.
                  let (listed, unseen, given) = h in
                  elim given [
                    | inl e ↦ absurd (tells_apart (is_listed seen) (sym e) again unseen)
                    | inr m ↦ from (listed, unseen, m)
                  ],
            ))
        | inr fresh ↦
            let (to', from') = clean_iff (scope ∷ seen) scopes s in
            rw known (
              rw fresh (
                λ m. elim m [
                  | inl e ↦ (
                    subst (λ x. Mem x default_legacy_scopes) (sym e)
                        ((listed_iff default_legacy_scopes scope).0 known),
                    subst (λ x. is_listed seen x ≡ false) (sym e) fresh,
                    inl e,
                  )
                  | inr later ↦
                      let (listed, unseen, given) = to' later in (listed, ground arith, inr given)
                ],
                λ h.
                    let (listed, unseen, given) = h in
                    elim (Bool-cases (eqb scope s)) [
                      | inl e ↦ inl (sym ((eqb_iff scope s).0 e))
                      | inr other ↦ inr (
                          from' (
                            listed,
                            rw other unseen,
                            elim given [
                              | inl e ↦
                                  absurd (tells_apart (λ x. eqb x s) e ((eqb_iff s s).1 refl) other)
                              | inr m ↦ m
                            ],
                          ))
                    ],
              ))
      ]
    ]

-- No scope that was given is known.
abbrev pub HasNoneKnown : List Text → Type 0
HasNoneKnown scopes = All (λ t. ¬ Mem t default_legacy_scopes) (map trim_space scopes)

or_default_iff :
    (scopes clean : List Text) (s : Text)
    → clean_scopes [] scopes ≡ clean
    → Mem s (or_default clean)
      ↔ (Mem s default_legacy_scopes × (Mem s (map trim_space scopes) ⊎ HasNoneKnown scopes))
or_default_iff scopes [] s e = (
  λ m. (
    m,
    inr (
        All-of_mem _ (map trim_space scopes) (λ t given known.
          subst (λ l. Mem t l) e ((clean_iff [] scopes t).1 (known, refl, given)))),
  ),
  λ h. h.0,
)
or_default_iff scopes (c ∷ clean) s e = (
  λ m.
      let (known, unseen, given) = (clean_iff [] scopes s).0 (subst (λ l. Mem s l) (sym e) m) in
      (known, inl given),
  λ h. elim h.1 [
    | inl given ↦ subst (λ l. Mem s l) e ((clean_iff [] scopes s).1 (h.0, refl, given))
    | inr none_known ↦
        let (known, unseen, given) =
          (clean_iff [] scopes c).0 (subst (λ l. Mem c l) (sym e) (inl refl)) in
        absurd (All-mem _ c (map trim_space scopes) none_known given known)
  ],
)

or_default-Distinct : (clean : List Text) → Distinct clean → Distinct (or_default clean)
or_default-Distinct [] d = default-Distinct
or_default-Distinct (c ∷ clean) d = d

-- The scopes of a legacy password are the known scopes among those that were given, with white
-- space cut off at both ends, or all known ones if none that was given is known; none is listed
-- twice.
pub sanitize_legacy_scopes_iff :
    (scopes : List Text) (s : Text)
    → Distinct (sanitize_legacy_scopes scopes)
      × (Mem s (sanitize_legacy_scopes scopes)
          ↔ (Mem s default_legacy_scopes × (Mem s (map trim_space scopes) ⊎ HasNoneKnown scopes)))
unfolding sanitize_legacy_scopes
sanitize_legacy_scopes_iff scopes s = (
  or_default-Distinct _ (clean-Distinct [] scopes),
  or_default_iff scopes (clean_scopes [] scopes) s refl,
)
