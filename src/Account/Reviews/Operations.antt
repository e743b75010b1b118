-- ===== src/Account/Reviews/Operations.antt =====
-- store_reviews.go: the operations, each with the tables after it.
use legacy_store.Base.{
  ℕ, suc, Bool, not, ◌&&◌, ◌||◌, List, [], ◌∷◌, ◌++◌, Option, none, some, Text, codes, ltb, ◌==◌,
  eqb, if◌then◌else◌, any, Result, ok, err, ◌>>=◌,
}
use legacy_store.Base.Int.{ℤ}
use legacy_store.Base.Strings.{trim_space, rune_count}
use legacy_store.Account.Rows.{
  Error, invalid_credential, not_found, forbidden, no_randomness, database, User, Client, AuditRow,
  is_blank, audit, display_name,
}
use legacy_store.Account.Tables.{first, update, select}
use legacy_store.Account.ReviewRows.{
  ReviewRow, ReplyRow, ReviewTables, ReviewContext, ReviewInput, Review, ReviewReply,
}
use legacy_store.Account.Reviews.{
  normalize_review_input, is_live_id, is_live_of, review_version_id, review_by_ref, app_id_by_slug,
  review_exists, can_change_review, rewritten, blank_row, shown,
}

abbrev pub with_reviews : List ReviewRow → ℕ → List AuditRow → ReviewTables → ReviewTables
with_reviews rows next log t = record {
  apps = t.apps;
  versions = t.versions;
  reviews = rows;
  next_review = next;
  likes = t.likes;
  replies = t.replies;
  next_reply = t.next_reply;
  audit_log = log;
}

abbrev pub with_likes : List (ℕ × ℕ) → ReviewTables → ReviewTables
with_likes likes t = record {
  apps = t.apps;
  versions = t.versions;
  reviews = t.reviews;
  next_review = t.next_review;
  likes = likes;
  replies = t.replies;
  next_reply = t.next_reply;
  audit_log = t.audit_log;
}

abbrev pub with_replies : List ReplyRow → List AuditRow → ReviewTables → ReviewTables
with_replies rows log t = record {
  apps = t.apps;
  versions = t.versions;
  reviews = t.reviews;
  next_review = t.next_review;
  likes = t.likes;
  replies = rows;
  next_reply = suc t.next_reply;
  audit_log = log;
}

abbrev log_review : Text → User → Text → Client → ReviewTables → List AuditRow
log_review action who uid client t = audit who.id action (codes "review") uid client t.audit_log

-- The `INSERT ... ON CONFLICT (app_id, user_id) WHERE deleted_at IS NULL DO UPDATE` and what
-- follows; `public_uid` is unique.
unfoldable pub upsert :
    ReviewTables
    → User
    → Text
    → ℕ
    → Option ℕ
    → Text
    → ReviewInput
    → Client
    → ℕ
    → Result Error (ReviewTables × Review)
unfolding first update
upsert t who slug app_id version_id uid input client now =
    let write = rewritten input version_id now in
    let fresh = write (blank_row t.next_review uid app_id who.id now) in
    elim (first (is_live_of app_id who.id) t.reviews) [
      | some r ↦ ok (
        with_reviews (update (is_live_of app_id who.id) write t.reviews) t.next_review
            (log_review (codes "reviews.write") who r.public_uid client t) t,
        shown slug who (write r),
      )
      | none ↦
          if any (λ r. eqb r.public_uid uid) t.reviews
          then err database
          else ok (
            with_reviews (t.reviews ++ fresh ∷ []) (suc t.next_review)
                (log_review (codes "reviews.write") who uid client t) t,
            shown slug who fresh,
          )
    ]

abbrev pub drawn : Option Text → Result Error Text
drawn none = err no_randomness
drawn (some uid) = ok uid

-- `CreateReview`
unfoldable pub create_review :
    ReviewTables
    → User
    → Text
    → ℤ
    → Text
    → Text
    → ReviewContext
    → Client
    → Option Text
    → ℕ
    → Result Error (ReviewTables × Review)
unfolding upsert
create_review t who slug rating title body meta client uid now =
    normalize_review_input rating title body meta >>= λ input. app_id_by_slug t slug >>= λ app_id.
    review_version_id t app_id (input.meta).app_version >>= λ version_id.
    drawn uid >>= λ public_uid. upsert t who slug app_id version_id public_uid input client now

-- The `UPDATE reviews ... WHERE id = $1 AND deleted_at IS NULL` of `UpdateReview`.
unfoldable pub rewrite_review :
    ReviewTables
    → User
    → ℕ
    → Option ℕ
    → ReviewInput
    → Client
    → ℕ
    → Result Error (ReviewTables × Review)
unfolding first update
rewrite_review t who n version_id input client now = elim (first (is_live_id n) t.reviews) [
  | none ↦ err not_found
  | some r ↦ ok (
    with_reviews (update (is_live_id n) (rewritten input version_id now) t.reviews) t.next_review
        (log_review (codes "reviews.update") who r.public_uid client t) t,
    shown [] who (rewritten input version_id now r),
  )
]

-- `UpdateReview`
unfoldable pub update_review :
    ReviewTables
    → User
    → Text
    → ℤ
    → Text
    → Text
    → ReviewContext
    → Client
    → ℕ
    → Result Error (ReviewTables × Review)
unfolding rewrite_review
update_review t who ref rating title body meta client now =
    normalize_review_input rating title body meta >>= λ input. review_by_ref t ref >>= λ r.
    can_change_review t who r.id >>= λ allowed.
    if not allowed
    then err forbidden
    else review_version_id t r.app_id (input.meta).app_version >>= λ version_id.
        rewrite_review t who r.id version_id input client now

abbrev pub deleted : ℕ → ReviewRow → ReviewRow
deleted now r = record {
  id = r.id;
  public_uid = r.public_uid;
  app_id = r.app_id;
  user_id = r.user_id;
  rating = r.rating;
  title = r.title;
  body = r.body;
  app_version_id = r.app_version_id;
  app_version = r.app_version;
  os_version = r.os_version;
  os_arch = r.os_arch;
  device_model = r.device_model;
  client_version = r.client_version;
  source = r.source;
  created_at = r.created_at;
  updated_at = now;
  deleted_at = some now;
}

-- `DeleteReview`
unfoldable pub delete_review : ReviewTables → User → Text → Client → ℕ → Result Error ReviewTables
unfolding first update
delete_review t who ref client now = review_by_ref t ref >>= λ r.
    can_change_review t who r.id >>= λ allowed.
    if not allowed then err forbidden else elim (first (is_live_id r.id) t.reviews) [
      | none ↦ err not_found
      | some row ↦ ok (
          with_reviews (update (is_live_id r.id) (deleted now) t.reviews) t.next_review
            (log_review (codes "reviews.delete") who row.public_uid client t) t)
    ]

abbrev pub is_like : ℕ → ℕ → ℕ × ℕ → Bool
is_like review_id user_id l = (l.0 == review_id) && (l.1 == user_id)

-- `LikeReview`
unfoldable pub like_review : ReviewTables → User → Text → Result Error ReviewTables
like_review t who ref = review_by_ref t ref >>= λ r.
    if not (review_exists t r.id)
    then err not_found
    else if any (is_like r.id who.id) t.likes
    then ok t
    else ok (with_likes (t.likes ++ (r.id, who.id) ∷ []) t)

-- `UnlikeReview`
unfoldable pub unlike_review : ReviewTables → ℕ → Text → Result Error ReviewTables
unfolding select
unlike_review t user_id ref = review_by_ref t ref >>= λ r.
    ok (with_likes (select (λ l. not (is_like r.id user_id l)) t.likes) t)

-- `CreateReviewReply`
unfoldable pub create_review_reply :
    ReviewTables → User → Text → Text → Client → ℕ → Result Error (ReviewTables × ReviewReply)
create_review_reply t who ref text client now =
    let body = trim_space text in
    if is_blank body || ltb 1000 (rune_count body)
    then err invalid_credential
    else review_by_ref t ref >>= λ r.
        if not (review_exists t r.id)
        then err not_found
        else let row : ReplyRow = record {
          id = t.next_reply;
          review_id = r.id;
          user_id = who.id;
          body = body;
          created_at = now;
        } in
          ok (
            with_replies (t.replies ++ row ∷ [])
                (log_review (codes "reviews.reply") who ref client t) t,
            record {
              id = row.id;
              review_id = r.id;
              user_id = who.id;
              author = display_name who;
              body = body;
              created_at = now;
            },
          )
