-- ===== src/Account/Reviews/Reachable.antt =====
-- What the reviews keep, whatever operations run.
use legacy_store.Base.{
  ℕ, ◌≡◌, sym, ap, inl, inr, not, Option, Text, Bool-cases, any, ok, >>=-eq-ok, ok-injective,
  err-is-not-ok, ltb, ◌||◌,
}
use legacy_store.Base.Int.{ℤ}
use legacy_store.Base.Strings.{trim_space, rune_count}
use legacy_store.Account.Rows.{User, Client, is_blank}
use legacy_store.Account.ReviewRows.{ReviewTables, ReviewContext, Review, ReviewReply}
use legacy_store.Account.Reviews.{review_by_ref, review_exists}
use legacy_store.Account.Reviews.Operations.{
  create_review, update_review, delete_review, like_review, unlike_review, create_review_reply,
  is_like,
}
use legacy_store.Account.Reviews.Valid.{
  IsValid, create_review-IsValid, rewritten-IsValid, deleted-IsValid,
  normalize_review_input-IsAcceptable,
}
use legacy_store.Account.Reviews.Permissions.{update_review-IsPermitted, delete_review-IsPermitted}

-- One operation that succeeds.
pub data Change (t after : ReviewTables) : Type 0 where
  created :
      (who : User) (slug : Text) (rating : ℤ) (title body : Text) (meta : ReviewContext)
      (client : Client) (uid : Option Text) (now : ℕ) (review : Review)
      → create_review t who slug rating title body meta client uid now ≡ ok (after, review)
      → Change t after
  updated :
      (who : User) (ref : Text) (rating : ℤ) (title body : Text) (meta : ReviewContext)
      (client : Client) (now : ℕ) (review : Review)
      → update_review t who ref rating title body meta client now ≡ ok (after, review)
      → Change t after
  removed :
      (who : User) (ref : Text) (client : Client) (now : ℕ)
      → delete_review t who ref client now ≡ ok after
      → Change t after
  liked : (who : User) (ref : Text) → like_review t who ref ≡ ok after → Change t after
  unliked : (user_id : ℕ) (ref : Text) → unlike_review t user_id ref ≡ ok after → Change t after
  answered :
      (who : User) (ref text : Text) (client : Client) (now : ℕ) (reply : ReviewReply)
      → create_review_reply t who ref text client now ≡ ok (after, reply)
      → Change t after

-- The tables after any number of operations.
pub data Reachable (t : ReviewTables) : ReviewTables → Type 0 where
  start : Reachable t t
  step : {mid after : ReviewTables} → Reachable t mid → Change mid after → Reachable t after

same_reviews-IsValid :
    (t after : ReviewTables) → IsValid t → after.reviews ≡ t.reviews → IsValid after
same_reviews-IsValid t after v same = record {
  sound = rw same v.sound;
  one_live = λ a u. rw same (v.one_live a u);
}

like_review-same :
    (t : ReviewTables) (who : User) (ref : Text) {after : ReviewTables}
    → like_review t who ref ≡ ok after
    → after.reviews ≡ t.reviews
unfolding like_review
like_review-same t who ref h =
    let (r, e, h₁) = >>=-eq-ok (review_by_ref t ref) _ h in
    elim (Bool-cases (not (review_exists t r.id))) [
      | inl gone ↦ absurd (err-is-not-ok (rw gone at h₁))
      | inr there ↦ elim (Bool-cases (any (is_like r.id who.id) t.likes)) [
        | inl before ↦ sym (ap (λ t. t.reviews) (ok-injective (rw before at (rw there at h₁))))
        | inr never ↦ sym (ap (λ t. t.reviews) (ok-injective (rw never at (rw there at h₁))))
      ]
    ]

unlike_review-same :
    (t : ReviewTables) (user_id : ℕ) (ref : Text) {after : ReviewTables}
    → unlike_review t user_id ref ≡ ok after
    → after.reviews ≡ t.reviews
unfolding unlike_review
unlike_review-same t user_id ref h =
    let (r, e, h₁) = >>=-eq-ok (review_by_ref t ref) _ h in
    sym (ap (λ t. t.reviews) (ok-injective h₁))

create_review_reply-same :
    (t : ReviewTables) (who : User) (ref text : Text) (client : Client) (now : ℕ)
    {after : ReviewTables} {reply : ReviewReply}
    → create_review_reply t who ref text client now ≡ ok (after, reply)
    → after.reviews ≡ t.reviews
unfolding create_review_reply
create_review_reply-same t who ref text client now h =
    let body = trim_space text in
    elim (Bool-cases (is_blank body || ltb 1000 (rune_count body))) [
      | inl bad ↦ absurd (err-is-not-ok (rw bad at h))
      | inr good ↦
          let (r, e, h₁) = >>=-eq-ok (review_by_ref t ref) _ (rw good at h) in
          elim (Bool-cases (not (review_exists t r.id))) [
            | inl gone ↦ absurd (err-is-not-ok (rw gone at h₁))
            | inr there ↦ sym (ap (λ p. (p.0).reviews) (ok-injective (rw there at h₁)))
          ]
    ]

Change-IsValid : {t after : ReviewTables} → IsValid t → Change t after → IsValid after
Change-IsValid {t} v (created who slug rating title body meta client uid now review e) =
    create_review-IsValid t who slug rating title body meta client uid now v e
Change-IsValid {t} {after} v (updated who ref rating title body meta client now review e) =
    let (n, input, version_id, p, normal, same) =
      update_review-IsPermitted t who ref rating title body meta client now e in
    rewritten-IsValid t after _ input version_id now
      (normalize_review_input-IsAcceptable rating title body meta normal) v same
Change-IsValid {t} {after} v (removed who ref client now e) =
    let (n, p, same) = delete_review-IsPermitted t who ref client now e in
    deleted-IsValid t after _ now v same
Change-IsValid {t} {after} v (liked who ref e) =
    same_reviews-IsValid t after v (like_review-same t who ref e)
Change-IsValid {t} {after} v (unliked user_id ref e) =
    same_reviews-IsValid t after v (unlike_review-same t user_id ref e)
Change-IsValid {t} {after} v (answered who ref text client now reply e) =
    same_reviews-IsValid t after v (create_review_reply-same t who ref text client now e)

-- From valid reviews, every run of operations that succeed leads to valid ones: each stored
-- review has one to five stars and a text of one to 300 characters, and no user has two live
-- reviews of one application.
pub Reachable-IsValid : {t after : ReviewTables} → IsValid t → Reachable t after → IsValid after
Reachable-IsValid v start = v
Reachable-IsValid v (step before change) = Change-IsValid (Reachable-IsValid v before) change
