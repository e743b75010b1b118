-- ===== src/Catalog/Selection/Best.antt =====
-- `chooseArtifact` picks the newest artifact that the host may use.
use legacy_store.Base.{
  ◌≡◌, ◌≢◌, refl, true, false, List, [], ◌∷◌, Option, none, some, Mem, All, All-mem, inl, inr,
  Bool-cases,
}
use legacy_store.Base.Sorting
use legacy_store.Base.Sorting.{IsOrdered}
use legacy_store.Catalog.Row.{ArtifactRow}
use legacy_store.Catalog.Selection.{
  comes_before, judge_row, is_offered, choose_from, choose_artifact, as_pair,
}
use legacy_store.Catalog.Selection.Newer.{comes_before-asym, comes_before_trans}
use legacy_store.Compatibility.Engine.{Target, Verdict}

module _ (target : Target) where
  -- The host may use the artifact, if not without reservations.
  abbrev pub IsOffered : ArtifactRow → Type 0
  IsOffered row = is_offered (judge_row target row).status ≡ true

  abbrev IsRefused : ArtifactRow → Type 0
  IsRefused row = is_offered (judge_row target row).status ≡ false

  -- An offered row, and no offered one comes before it.
  pub record IsNewestOffered (rows : List ArtifactRow) (row : ArtifactRow) : Type 0 where
    pub listed : Mem row rows
    pub offered : IsOffered row
    pub newest : (a : ArtifactRow) → Mem a rows → IsOffered a → comes_before a row ≡ false

  -- No row is offered; this is one that no other comes before.
  pub record IsNewestRefused (rows : List ArtifactRow) (row : ArtifactRow) : Type 0 where
    pub listed : Mem row rows
    pub refused : (a : ArtifactRow) → Mem a rows → IsRefused a
    pub newest : (a : ArtifactRow) → Mem a rows → comes_before a row ≡ false

  irreflexive : (row : ArtifactRow) → comes_before row row ≡ false
  irreflexive row = elim (Bool-cases (comes_before row row)) [
    | inl e ↦ comes_before-asym row row e
    | inr e ↦ e
  ]

  -- The first row of an ordered list comes before or beside every other.
  IsNewestOffered-head :
      (row : ArtifactRow) (rows : List ArtifactRow)
      → All (λ a. comes_before a row ≡ false) rows
      → IsOffered row
      → IsNewestOffered (row ∷ rows) row
  IsNewestOffered-head row rows first h = record {
    listed = inl refl;
    offered = h;
    newest = λ a m _. elim m [
      | inl e ↦ rw e (irreflexive row)
      | inr k ↦ All-mem (λ b. comes_before b row ≡ false) a rows first k
    ];
  }

  IsNewestOffered-cons :
      {rows : List ArtifactRow} {best : ArtifactRow} (row : ArtifactRow)
      → IsRefused row
      → IsNewestOffered rows best
      → IsNewestOffered (row ∷ rows) best
  IsNewestOffered-cons row no_row best = record {
    listed = inr best.listed;
    offered = best.offered;
    newest = λ a m h. elim m [
      | inl e ↦ let h' : IsOffered row = rw (← e) h in cc
      | inr k ↦ best.newest a k h
    ];
  }

  -- What the loop returns once it has a fallback.
  data Outcome (fallback : ArtifactRow × Verdict) (rows : List ArtifactRow)
      : Option (ArtifactRow × Verdict) → Type 0 where
    found :
        (row : ArtifactRow)
        → IsNewestOffered rows row
        → Outcome fallback rows (some (row, judge_row target row))
    fell_back :
        ((a : ArtifactRow) → Mem a rows → IsRefused a) → Outcome fallback rows (some fallback)

  Outcome-cons :
      {fallback : ArtifactRow × Verdict} {rows : List ArtifactRow}
      {r : Option (ArtifactRow × Verdict)} (row : ArtifactRow)
      → IsRefused row
      → Outcome fallback rows r
      → Outcome fallback (row ∷ rows) r
  Outcome-cons row no_row (found best h) = found best (IsNewestOffered-cons row no_row h)
  Outcome-cons row no_row (fell_back h) =
      fell_back (λ a m. elim m [ inl e ↦ rw e no_row | inr k ↦ h a k ])

  choose_from-Outcome :
      (fallback : ArtifactRow × Verdict) (rows : List ArtifactRow)
      → IsOrdered comes_before rows
      → Outcome fallback rows (choose_from target (some fallback) rows)
  unfolding choose_from
  choose_from-Outcome fallback [] h = fell_back (λ a m. absurd m)
  choose_from-Outcome fallback (row ∷ rows) (first, h) =
      elim (Bool-cases (is_offered (judge_row target row).status)) [
        | inl e ↦ rw e (found row (IsNewestOffered-head row rows first e))
        | inr e ↦ rw e (Outcome-cons row e (choose_from-Outcome fallback rows h))
      ]

  -- What `chooseArtifact` returns for these rows.
  pub data IsChoice (rows : List ArtifactRow) : Option ArtifactRow × Verdict → Type 0 where
    offers :
        (row : ArtifactRow)
        → IsNewestOffered rows row
        → IsChoice rows (some row, judge_row target row)
    refuses :
        (row : ArtifactRow)
        → IsNewestRefused rows row
        → IsChoice rows (some row, judge_row target row)

  IsChoice-cons :
      {r : Option (ArtifactRow × Verdict)} (row : ArtifactRow) (rows : List ArtifactRow)
      → IsRefused row
      → All (λ a. comes_before a row ≡ false) rows
      → Outcome (row, judge_row target row) rows r
      → IsChoice (row ∷ rows) (as_pair r)
  IsChoice-cons row rows no_row first (found best h) =
      offers best (IsNewestOffered-cons row no_row h)
  IsChoice-cons row rows no_row first (fell_back h) = refuses row (record {
    listed = inl refl;
    refused = λ a m. elim m [ inl e ↦ rw e no_row | inr k ↦ h a k ];
    newest = λ a m. elim m [
      | inl e ↦ rw e (irreflexive row)
      | inr k ↦ All-mem (λ b. comes_before b row ≡ false) a rows first k
    ];
  })

  ordered-IsChoice :
      (row : ArtifactRow) (rows : List ArtifactRow)
      → IsOrdered comes_before (row ∷ rows)
      → IsChoice (row ∷ rows) (as_pair (choose_from target none (row ∷ rows)))
  unfolding choose_from
  ordered-IsChoice row rows (first, h) =
      elim (Bool-cases (is_offered (judge_row target row).status)) [
        | inl e ↦ rw e (offers row (IsNewestOffered-head row rows first e))
        | inr e ↦ rw e (
            IsChoice-cons row rows e first (choose_from-Outcome (row, judge_row target row) rows h))
      ]

  -- A choice from a list is one from any list with the same members.
  IsChoice-members :
      {r : Option ArtifactRow × Verdict} (xs ys : List ArtifactRow)
      → ((a : ArtifactRow) → Mem a xs → Mem a ys)
      → ((a : ArtifactRow) → Mem a ys → Mem a xs)
      → IsChoice xs r
      → IsChoice ys r
  IsChoice-members xs ys f g (offers row n) = offers row (record {
    listed = f row n.listed;
    offered = n.offered;
    newest = λ a m h. n.newest a (g a m) h;
  })
  IsChoice-members xs ys f g (refuses row n) = refuses row (record {
    listed = f row n.listed;
    refused = λ a m. n.refused a (g a m);
    newest = λ a m. n.newest a (g a m);
  })

  sorted-IsChoice :
      (rows : List ArtifactRow)
      → rows ≢ []
      → IsOrdered comes_before rows
      → IsChoice rows (as_pair (choose_from target none rows))
  sorted-IsChoice [] ne h = absurd (ne refl)
  sorted-IsChoice (row ∷ rows) ne h = ordered-IsChoice row rows h

  -- For a list of artifacts that is not empty, `chooseArtifact` returns one of them with its own
  -- verdict. If the host may use any of them, it is one that the host may use and none such comes
  -- before it in the order of version, recommendation and id; otherwise it is the first in that
  -- order.
  pub choose_artifact-IsChoice :
      (rows : List ArtifactRow) → rows ≢ [] → IsChoice rows (choose_artifact target rows)
  unfolding choose_artifact
  choose_artifact-IsChoice [] ne = absurd (ne refl)
  choose_artifact-IsChoice (row ∷ rows) ne =
      let sorted = Sorting.sort comes_before (row ∷ rows) in
      let keeps = Sorting.sort-mem comes_before row (row ∷ rows) (inl refl) in
      IsChoice-members sorted (row ∷ rows) (λ a m. Sorting.mem-sort comes_before a (row ∷ rows) m)
        (λ a m. Sorting.sort-mem comes_before a (row ∷ rows) m)
        (sorted-IsChoice sorted (λ e. rw e at keeps)
          (Sorting.sort-IsOrdered comes_before comes_before-asym comes_before_trans (row ∷ rows)))
