-- ===== src/Account/Moderation.antt =====
-- store_admin.go: the moderation queue. The rows of applications and artifacts are kept as far as the
-- queue changes them; an entity is named by the decimal text of its id.
mod Tests
use legacy_store.Base.{
  ℕ, Bool, true, false, ◌&&◌, List, [], ◌∷◌, map, Option, none, some, Text, codes, String, ltb,
  ◌==◌, eqb, if◌then◌else◌, take, Result, ok, err,
}
use legacy_store.Base.Queries.{first, update, select}
use legacy_store.Base.Sorting.{sort}
use legacy_store.Base.Strings.{trim_space}
use legacy_store.Account.Rows.{
  Error, not_found, User, AuditRow, Client, is_blank, null_if_empty, coalesce, audit,
}

-- A row of `moderation_queue`.
pub record QueueRow : Type 0 where
  pub id : ℕ
  pub entity_type : Text
  pub entity_id : Text
  pub status : Text
  pub submitted_by : Option ℕ
  pub moderator_id : Option ℕ
  pub moderator_comment : Option Text
  pub created_at : ℕ
  pub updated_at : ℕ

-- The id and the moderation status of an application or of an artifact.
pub record EntityRow : Type 0 where
  pub id : ℕ
  pub moderation_status : Text
  pub updated_at : ℕ

pub record ModerationTables : Type 0 where
  pub queue : List QueueRow
  pub apps : List EntityRow
  pub artifacts : List EntityRow
  pub audit_log : List AuditRow

pub record ModerationItem : Type 0 where
  pub id : ℕ
  pub entity_type : Text
  pub entity_id : Text
  pub status : Text
  pub submitted_by : ℕ
  pub moderator_id : ℕ
  pub moderator_comment : Text
  pub created_at : ℕ
  pub updated_at : ℕ

abbrev or_zero : Option ℕ → ℕ
or_zero none = 0
or_zero (some n) = n

abbrev visible_item : QueueRow → ModerationItem
visible_item row = record {
  id = row.id;
  entity_type = row.entity_type;
  entity_id = row.entity_id;
  status = row.status;
  submitted_by = or_zero row.submitted_by;
  moderator_id = or_zero row.moderator_id;
  moderator_comment = coalesce row.moderator_comment;
  created_at = row.created_at;
  updated_at = row.updated_at;
}

-- `ListModeration`: at most a hundred items, newer ones first.
unfoldable pub list_moderation : ModerationTables → Text → List ModerationItem
list_moderation t status =
    let wanted = if is_blank status then codes "pending" else status in
    let rows = select (λ row. eqb row.status wanted) t.queue in
    map visible_item (take 100 (sort (λ a b. ltb b.created_at a.created_at) rows))

abbrev is_waiting : ℕ → QueueRow → Bool
is_waiting queue_id row = (row.id == queue_id) && eqb row.status (codes "pending")

abbrev decided : Text → ℕ → Text → ℕ → QueueRow → QueueRow
decided status moderator comment now row = record row {
  status = status;
  moderator_id = some moderator;
  moderator_comment = null_if_empty comment;
  updated_at = now;
}

module _ (int_string : ℕ → Text) where
  -- `UPDATE ... SET moderation_status = $2 WHERE id = $1`, where the entity is of the table's kind.
  abbrev with_decision : String → QueueRow → Text → ℕ → List EntityRow → List EntityRow
  with_decision kind row status now rows =
      if eqb row.entity_type (codes kind)
      then update (λ e. eqb (int_string e.id) row.entity_id)
          (λ e. record e { moderation_status = status; updated_at = now }) rows
      else rows

  -- `Moderate`
  unfoldable pub moderate :
      ModerationTables → User → ℕ → Bool → Text → Client → ℕ → Result Error ModerationTables
  unfolding first update
  moderate t actor queue_id approve comment client now =
      elim (first (is_waiting queue_id) t.queue) [
        | none ↦ err not_found
        | some row ↦
            let status = if approve then codes "approved" else codes "rejected" in
            let action =
              if approve then codes "moderation.approve" else codes "moderation.reject" in
            ok (record {
              queue =
                  update (λ r. r.id == queue_id) (decided status actor.id (trim_space comment) now)
                    t.queue;
              apps = with_decision "app" row status now t.apps;
              artifacts = with_decision "artifact" row status now t.artifacts;
              audit_log = audit actor.id action row.entity_type row.entity_id client t.audit_log;
            })
      ]
