-- ===== src/Account/Moderation/Tests.antt =====
-- Runs of the moderation queue.
use legacy_store.Base.{ℕ, ◌≡◌, refl, true, List, [], ◌∷◌, map, none, Text, codes, Result, ok, err}
use legacy_store.Account.Moderation.{ModerationTables, moderate}
use legacy_store.Account.Rows.{Error, not_found}
use legacy_store.Account.Samples.{alice, safari, two_users, result_of}
use legacy_store.Account.Tables.{visible_user}

abbrev one_app : ModerationTables
one_app = record {
  queue =
      record {
        id = 4;
        entity_type = codes "app";
        entity_id = codes "x";
        status = codes "pending";
        submitted_by = none;
        moderator_id = none;
        moderator_comment = none;
        created_at = 1;
        updated_at = 1;
      }
      ∷ [];
  apps = record { id = 7; moderation_status = codes "pending"; updated_at = 1 } ∷ [];
  artifacts = record { id = 7; moderation_status = codes "pending"; updated_at = 1 } ∷ [];
  audit_log = [];
}

abbrev approved : Result Error ModerationTables
approved = moderate (λ n. codes "x") one_app (visible_user two_users alice) 4 true [] safari 9

app_run : map (λ e. e.moderation_status) (result_of one_app approved).apps ≡ codes "approved" ∷ []
unfolding moderate legacy_store.Base.eqb
app_run = refl

artifact_run :
    map (λ e. e.moderation_status) (result_of one_app approved).artifacts ≡ codes "pending" ∷ []
unfolding moderate legacy_store.Base.eqb
artifact_run = refl

-- A decision is made once.
again_run :
    moderate
      (λ n. codes "x")
      (result_of one_app approved)
      (visible_user two_users alice)
      4
      true
      []
      safari
      9
    ≡ err not_found
unfolding moderate legacy_store.Base.eqb
again_run = refl
