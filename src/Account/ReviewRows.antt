-- ===== src/Account/ReviewRows.antt =====
-- The rows of the reviews, and what store_reviews.go takes and returns.
use legacy_store.Base.{ℕ, Bool, List, Option, Text}
use legacy_store.Base.Int.{ℤ}
use legacy_store.Account.Rows.{AuditRow}

-- A row of `reviews`.
pub record ReviewRow : Type 0 where
  pub id : ℕ
  pub public_uid : Text
  pub app_id : ℕ
  pub user_id : ℕ
  pub rating : ℤ
  pub title : Option Text
  pub body : Option Text
  pub app_version_id : Option ℕ
  pub app_version : Option Text
  pub os_version : Option Text
  pub os_arch : Option Text
  pub device_model : Option Text
  pub client_version : Option Text
  pub source : Text
  pub created_at : ℕ
  pub updated_at : ℕ
  pub deleted_at : Option ℕ

-- The columns of `apps` that a review needs.
pub record AppRow : Type 0 where
  pub id : ℕ
  pub slug : Text
  pub is_approved : Bool

-- The columns of `app_versions` that a review needs.
pub record VersionRow : Type 0 where
  pub id : ℕ
  pub app_id : ℕ
  pub version : Text

pub record ReplyRow : Type 0 where
  pub id : ℕ
  pub review_id : ℕ
  pub user_id : ℕ
  pub body : Text
  pub created_at : ℕ

pub record ReviewTables : Type 0 where
  pub apps : List AppRow
  pub versions : List VersionRow
  pub reviews : List ReviewRow
  pub next_review : ℕ
  pub likes : List (ℕ × ℕ)
  pub replies : List ReplyRow
  pub next_reply : ℕ
  pub audit_log : List AuditRow

pub record ReviewContext : Type 0 where
  pub app_version : Text
  pub os_version : Text
  pub os_arch : Text
  pub device_model : Text
  pub client_version : Text
  pub source : Text

-- What `normalizeReviewInput` returns, with the rating it has checked.
pub record ReviewInput : Type 0 where
  pub rating : ℤ
  pub title : Text
  pub body : Text
  pub meta : ReviewContext

pub record Review : Type 0 where
  pub id : ℕ
  pub uid : Text
  pub app_slug : Text
  pub user_id : ℕ
  pub author : Text
  pub avatar_url : Text
  pub rating : ℤ
  pub title : Text
  pub body : Text
  pub app_version : Text
  pub os_version : Text
  pub os_arch : Text
  pub device_model : Text
  pub client_version : Text
  pub source : Text
  pub likes : ℕ
  pub replies : ℕ
  pub created_at : ℕ
  pub updated_at : ℕ

pub record ReviewReply : Type 0 where
  pub id : ℕ
  pub review_id : ℕ
  pub user_id : ℕ
  pub author : Text
  pub body : Text
  pub created_at : ℕ
