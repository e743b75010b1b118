-- ===== src/Account/Reviews/Permissions.antt =====
-- Who can change a review.
use legacy_store.Base.{
  ℕ, ◌≡◌, ◌⊎◌, sym, ap, inl, inr, arith, true, [], ◌∷◌, Option, Text, Mem, Bool-cases, Option-cases,
  ok, >>=-eq-ok, ok-injective, err-is-not-ok,
}
use legacy_store.Base.Int.{ℤ}
use legacy_store.Account.Rows.{User, Client, admin, moder, has_role}
use legacy_store.Account.Tables.{first, update}
use legacy_store.Account.Tables.Laws.{first-mem, first-pass}
use legacy_store.Account.ReviewRows.{ReviewRow, ReviewTables, ReviewContext, ReviewInput, Review}
use legacy_store.Account.Reviews.{
  is_live_id, can_change_review, review_by_ref, review_version_id, normalize_review_input,
  rewritten,
}
use legacy_store.Account.Reviews.Operations.{rewrite_review, update_review, delete_review, deleted}

-- The caller is an administrator or a moderator, or has written the live review.
pub IsPermitted : ReviewTables → User → ℕ → Type 0
IsPermitted t who n =
    (has_role who (admin ∷ moder ∷ []) ≡ true)
    ⊎ ((r : ReviewRow) × Mem r t.reviews × (is_live_id n r ≡ true) × (r.user_id ≡ who.id))

can_change_review-IsPermitted :
    (t : ReviewTables) (who : User) (n : ℕ)
    → can_change_review t who n ≡ ok true
    → IsPermitted t who n
unfolding can_change_review IsPermitted
can_change_review-IsPermitted t who n h = elim (Bool-cases (has_role who (admin ∷ moder ∷ []))) [
  | inl role ↦ inl role
  | inr other ↦ elim (Option-cases (first (is_live_id n) t.reviews)) [
    | inl missing ↦ absurd (err-is-not-ok (rw (missing, can_change_review) at (rw other at h)))
    | inr (r, found) ↦
        let mine = ok-injective (rw (found, can_change_review) at (rw other at h)) in
        inr (r, first-mem _ t.reviews found, first-pass _ t.reviews found, ground (arith, mine))
  ]
]

rewrite_review-reviews :
    (t : ReviewTables) (who : User) (n : ℕ) (version_id : Option ℕ) (input : ReviewInput)
    (client : Client) (now : ℕ) {after : ReviewTables} {review : Review}
    → rewrite_review t who n version_id input client now ≡ ok (after, review)
    → after.reviews ≡ update (is_live_id n) (rewritten input version_id now) t.reviews
unfolding rewrite_review
rewrite_review-reviews t who n version_id input client now h =
    elim (Option-cases (first (is_live_id n) t.reviews)) [
      | inl missing ↦ absurd (err-is-not-ok (rw (missing, rewrite_review) at h))
      | inr (row, found) ↦
          sym (ap (λ p. (p.0).reviews) (ok-injective (rw (found, rewrite_review) at h)))
    ]

-- An `UpdateReview` that succeeds comes from an administrator, a moderator or the author of the
-- live review, and the reviews after it are those before, with the accepted text written to the
-- live review of one id.
pub update_review-IsPermitted :
    (t : ReviewTables) (who : User) (ref : Text) (rating : ℤ) (title body : Text)
    (meta : ReviewContext) (client : Client) (now : ℕ) {after : ReviewTables} {review : Review}
    → update_review t who ref rating title body meta client now ≡ ok (after, review)
    → (n : ℕ) × (input : ReviewInput) × (version_id : Option ℕ) × IsPermitted t who n
      × (normalize_review_input rating title body meta ≡ ok input)
      × (after.reviews ≡ update (is_live_id n) (rewritten input version_id now) t.reviews)
unfolding update_review
update_review-IsPermitted t who ref rating title body meta client now h =
    let (input, e, h₁) = >>=-eq-ok (normalize_review_input rating title body meta) _ h in
    let (r, e₁, h₂) = >>=-eq-ok (review_by_ref t ref) _ h₁ in
    let (allowed, e₂, h₃) = >>=-eq-ok (can_change_review t who r.id) _ h₂ in
    elim (Bool-cases allowed) [
      | inr refused ↦ absurd (err-is-not-ok (rw refused at h₃))
      | inl granted ↦
          let (version_id, e₃, h₄) =
            >>=-eq-ok (review_version_id t r.app_id (input.meta).app_version) _
              (rw granted at h₃) in
          (
            r.id,
            input,
            version_id,
            can_change_review-IsPermitted t who r.id (rw granted at e₂),
            e,
            rewrite_review-reviews t who r.id version_id input client now h₄,
          )
    ]

-- A `DeleteReview` that succeeds comes from an administrator, a moderator or the author of the
-- live review, and the reviews after it are those before, with the live review of one id marked
-- as deleted.
pub delete_review-IsPermitted :
    (t : ReviewTables) (who : User) (ref : Text) (client : Client) (now : ℕ) {after : ReviewTables}
    → delete_review t who ref client now ≡ ok after
    → (n : ℕ) × IsPermitted t who n
      × (after.reviews ≡ update (is_live_id n) (deleted now) t.reviews)
unfolding delete_review
delete_review-IsPermitted t who ref client now h =
    let (r, e₁, h₂) = >>=-eq-ok (review_by_ref t ref) _ h in
    let (allowed, e₂, h₃) = >>=-eq-ok (can_change_review t who r.id) _ h₂ in
    elim (Bool-cases allowed) [
      | inr refused ↦ absurd (err-is-not-ok (rw refused at h₃))
      | inl granted ↦ elim (Option-cases (first (is_live_id r.id) t.reviews)) [
        | inl missing ↦ absurd (err-is-not-ok (rw missing at (rw granted at h₃)))
        | inr (row, found) ↦ (
          r.id,
          can_change_review-IsPermitted t who r.id (rw granted at e₂),
          sym (ap (λ t. t.reviews) (ok-injective (rw found at (rw granted at h₃)))),
        )
      ]
    ]
