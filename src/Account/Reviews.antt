-- ===== src/Account/Reviews.antt =====
-- store_reviews.go: writing, changing, deleting, liking and answering reviews. An operation that
-- fails leaves the tables as they were.
pub mod Operations
pub mod Valid
pub mod Reachable
pub mod Permissions
mod Tests
use legacy_store.Base.{
  ℕ, suc, Bool, true, false, not, ◌&&◌, ◌||◌, List, [], ◌∷◌, ◌++◌, Option, none, some, Text, codes,
  ltb, leb, ◌==◌, eqb, if◌then◌else◌, length, any, Result, ok, err, ◌>>=◌,
}
use legacy_store.Base.Int.{ℤ, pos, negsuc}
use legacy_store.Base.Strings.{trim_space, atoi, rune_count}
use legacy_store.Account.Rows.{
  Error, invalid_credential, not_found, forbidden, no_randomness, database, admin, moder, User,
  Client, coalesce, is_blank, null_if_empty, truncate, audit, has_role, display_name,
}
use legacy_store.Account.Tables.{first, update, select}
use legacy_store.Account.ReviewRows.{
  ReviewRow, AppRow, VersionRow, ReplyRow, ReviewTables, ReviewContext, ReviewInput, Review,
  ReviewReply,
}

abbrev pub is_rating : ℤ → Bool
is_rating (pos n) = leb 1 n && leb n 5
is_rating (negsuc n) = false

abbrev pub is_os_arch : Text → Bool
is_os_arch arch = is_blank arch || eqb arch (codes "i386") || eqb arch (codes "x86_64")

abbrev is_source : Text → Bool
is_source source =
    eqb source (codes "web") || eqb source (codes "legacy") || eqb source (codes "native")

abbrev pub trimmed : ReviewContext → ReviewContext
trimmed meta = record {
  app_version = trim_space meta.app_version;
  os_version = truncate (trim_space meta.os_version) 32;
  os_arch = trim_space meta.os_arch;
  device_model = truncate (trim_space meta.device_model) 160;
  client_version = truncate (trim_space meta.client_version) 64;
  source = let source = trim_space meta.source in if is_source source then source else codes "web";
}

abbrev pub is_refused : ℤ → Text → Text → Bool
is_refused rating title body =
    not (is_rating rating)
    || is_blank body
    || ltb 300 (rune_count body)
    || ltb 120 (rune_count title)

-- `normalizeReviewInput`
unfoldable pub normalize_review_input : ℤ → Text → Text → ReviewContext → Result Error ReviewInput
normalize_review_input rating title body meta =
    let kept = trimmed meta in
    if is_refused rating (trim_space title) (trim_space body)
    then err invalid_credential
    else if ltb 64 (length kept.app_version)
    then err invalid_credential
    else if not (is_os_arch kept.os_arch)
    then err invalid_credential
    else ok
        record { rating = rating; title = trim_space title; body = trim_space body; meta = kept }

abbrev pub is_live : ReviewRow → Bool
is_live r = elim r.deleted_at [ none ↦ true | some t ↦ false ]

abbrev pub is_live_id : ℕ → ReviewRow → Bool
is_live_id n r = (r.id == n) && is_live r

-- The rows that the index `reviews_one_active_per_user_app` lets exist once.
abbrev pub is_live_of : ℕ → ℕ → ReviewRow → Bool
is_live_of app_id user_id r = (r.app_id == app_id) && (r.user_id == user_id) && is_live r

-- `reviewVersionID`
unfoldable pub review_version_id : ReviewTables → ℕ → Text → Result Error (Option ℕ)
unfolding first
review_version_id t app_id version =
    let wanted = trim_space version in
    if is_blank wanted
    then ok none
    else elim (first (λ v. (v.app_id == app_id) && eqb v.version wanted) t.versions) [
      | none ↦ err invalid_credential
      | some v ↦ ok (some v.id)
    ]

abbrev found : Option ReviewRow → Result Error ReviewRow
found none = err not_found
found (some r) = ok r

-- `reviewIDByRef`: the live review of the reference; its id and its app are what the code uses.
unfoldable pub review_by_ref : ReviewTables → Text → Result Error ReviewRow
unfolding first
review_by_ref t ref =
    let wanted = trim_space ref in
    if is_blank wanted then err not_found else elim (atoi wanted) [
      | none ↦ found (first (λ r. eqb r.public_uid wanted && is_live r) t.reviews)
      | some (pos n) ↦ found (first (is_live_id n) t.reviews)
      | some (negsuc n) ↦ err not_found
    ]

-- `appIDBySlug`
unfoldable pub app_id_by_slug : ReviewTables → Text → Result Error ℕ
unfolding first
app_id_by_slug t slug = elim (first (λ a. eqb a.slug slug && a.is_approved) t.apps) [
  | none ↦ err not_found
  | some a ↦ ok a.id
]

-- `reviewExists`
abbrev pub review_exists : ReviewTables → ℕ → Bool
review_exists t n = any (is_live_id n) t.reviews

-- `canChangeReview`
unfoldable pub can_change_review : ReviewTables → User → ℕ → Result Error Bool
unfolding first
can_change_review t who n =
    if has_role who (admin ∷ moder ∷ []) then ok true else elim (first (is_live_id n) t.reviews) [
      | none ↦ err not_found
      | some r ↦ ok (r.user_id == who.id)
    ]

-- The columns that a new text sets.
abbrev pub rewritten : ReviewInput → Option ℕ → ℕ → ReviewRow → ReviewRow
rewritten input version_id now r = record {
  id = r.id;
  public_uid = r.public_uid;
  app_id = r.app_id;
  user_id = r.user_id;
  rating = input.rating;
  title = null_if_empty input.title;
  body = null_if_empty input.body;
  app_version_id = version_id;
  app_version = null_if_empty (input.meta).app_version;
  os_version = null_if_empty (input.meta).os_version;
  os_arch = null_if_empty (input.meta).os_arch;
  device_model = null_if_empty (input.meta).device_model;
  client_version = null_if_empty (input.meta).client_version;
  source = (input.meta).source;
  created_at = r.created_at;
  updated_at = now;
  deleted_at = r.deleted_at;
}

abbrev pub blank_row : ℕ → Text → ℕ → ℕ → ℕ → ReviewRow
blank_row n uid app_id user_id now = record {
  id = n;
  public_uid = uid;
  app_id = app_id;
  user_id = user_id;
  rating = pos 0;
  title = none;
  body = none;
  app_version_id = none;
  app_version = none;
  os_version = none;
  os_arch = none;
  device_model = none;
  client_version = none;
  source = [];
  created_at = now;
  updated_at = now;
  deleted_at = none;
}

-- What is scanned from the row, with the author that the code sets: the caller.
abbrev pub shown : Text → User → ReviewRow → Review
shown app_slug who r = record {
  id = r.id;
  uid = r.public_uid;
  app_slug = app_slug;
  user_id = who.id;
  author = display_name who;
  avatar_url = who.avatar_url;
  rating = r.rating;
  title = coalesce r.title;
  body = coalesce r.body;
  app_version = coalesce r.app_version;
  os_version = coalesce r.os_version;
  os_arch = coalesce r.os_arch;
  device_model = coalesce r.device_model;
  client_version = coalesce r.client_version;
  source = r.source;
  likes = 0;
  replies = 0;
  created_at = r.created_at;
  updated_at = r.updated_at;
}
