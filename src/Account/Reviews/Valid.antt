-- ===== src/Account/Reviews/Valid.antt =====
-- The well-formedness of the reviews, and what keeps it.
use legacy_store.Base.{
  ℕ, ◌≡◌, ◌≤◌, refl, sym, ap, subst, inl, inr, arith, Bool, true, false, not, [], ◌∷◌, ◌++◌, Option,
  none, Text, eqb, ltb, length, any, All, All-append, Bool-cases, Option-cases, ok, >>=-eq-ok,
  ok-injective, err-is-not-ok,
}
use legacy_store.Base.Int.{ℤ}
use legacy_store.Base.Strings.{trim_space, rune_count}
use legacy_store.Account.Rows.{User, Client, coalesce, is_blank, null_if_empty}
use legacy_store.Account.Tables.{first, update, select}
use legacy_store.Account.Tables.Laws.{select-update, select-append, select-none, All-update}
use legacy_store.Account.ReviewRows.{ReviewRow, ReviewTables, ReviewContext, ReviewInput, Review}
use legacy_store.Account.Reviews.{
  is_rating, normalize_review_input, is_live_of, rewritten, blank_row, trimmed, is_refused,
  is_os_arch, review_version_id, app_id_by_slug,
}
use legacy_store.Account.Reviews.Operations.{upsert, create_review, deleted, drawn}

-- A stored review: one to five stars, and a text of one to 300 characters.
pub record IsSound (r : ReviewRow) : Type 0 where
  pub rated : is_rating r.rating ≡ true
  pub has_body : is_blank (coalesce r.body) ≡ false
  pub short_body : ltb 300 (rune_count (coalesce r.body)) ≡ false

pub record IsValid (t : ReviewTables) : Type 0 where
  pub sound : All IsSound t.reviews
  -- At most one review of an app by a user that is not deleted.
  pub one_live : (app_id user_id : ℕ) → length (select (is_live_of app_id user_id) t.reviews) ≤ 1

pub record IsAcceptable (input : ReviewInput) : Type 0 where
  pub rated : is_rating input.rating ≡ true
  pub has_body : is_blank input.body ≡ false
  pub short_body : ltb 300 (rune_count input.body) ≡ false

pub normalize_review_input-IsAcceptable :
    (rating : ℤ) (title body : Text) (meta : ReviewContext) {input : ReviewInput}
    → normalize_review_input rating title body meta ≡ ok input
    → IsAcceptable input
unfolding normalize_review_input
normalize_review_input-IsAcceptable rating title body meta {input} h =
    let kept = trimmed meta in
    elim (Bool-cases (is_refused rating (trim_space title) (trim_space body))) [
      | inl bad ↦ absurd (err-is-not-ok (rw bad at h))
      | inr good ↦ elim (Bool-cases (ltb 64 (length kept.app_version))) [
        | inl long ↦ absurd (err-is-not-ok (rw long at (rw good at h)))
        | inr short ↦ elim (Bool-cases (not (is_os_arch kept.os_arch))) [
          | inl strange ↦ absurd (err-is-not-ok (rw strange at (rw short at (rw good at h))))
          | inr usual ↦
              subst IsAcceptable (ok-injective (rw usual at (rw short at (rw good at h)))) (record {
                rated = ground arith;
                has_body = ground arith;
                short_body = ground arith;
              })
        ]
      ]
    ]

coalesce-null_if_empty : (s : Text) → coalesce (null_if_empty s) ≡ s
coalesce-null_if_empty [] = refl
coalesce-null_if_empty (c ∷ s) = refl

rewritten-IsSound :
    (input : ReviewInput) (version_id : Option ℕ) (now : ℕ) (r : ReviewRow)
    → IsAcceptable input
    → IsSound (rewritten input version_id now r)
rewritten-IsSound input version_id now r a = record {
  rated = a.rated;
  has_body = rw (coalesce-null_if_empty input.body) a.has_body;
  short_body = rw (coalesce-null_if_empty input.body) a.short_body;
}

pub rewritten-IsValid :
    (t after : ReviewTables) (p : ReviewRow → Bool) (input : ReviewInput) (version_id : Option ℕ)
    (now : ℕ)
    → IsAcceptable input
    → IsValid t
    → after.reviews ≡ update p (rewritten input version_id now) t.reviews
    → IsValid after
rewritten-IsValid t after p input version_id now a v same = record {
  sound = rw same (
      All-update IsSound p _ t.reviews (λ r s. rewritten-IsSound input version_id now r a) v.sound);
  one_live = λ app_id user_id.
      let few =
        select-update p (is_live_of app_id user_id) (rewritten input version_id now) t.reviews
          (λ r e. e) in
      rw same (omega (arith, few, v.one_live app_id user_id));
}

pub deleted-IsValid :
    (t after : ReviewTables) (p : ReviewRow → Bool) (now : ℕ)
    → IsValid t
    → after.reviews ≡ update p (deleted now) t.reviews
    → IsValid after
deleted-IsValid t after p now v same = record {
  sound = rw same (
      All-update IsSound p (deleted now) t.reviews
        (λ r s. record { rated = s.rated; has_body = s.has_body; short_body = s.short_body })
        v.sound);
  one_live = λ app_id user_id.
      let few =
        select-update p (is_live_of app_id user_id) (deleted now) t.reviews (λ r e. ground arith) in
      rw same (omega (arith, few, v.one_live app_id user_id));
}

inserted-IsValid :
    (t after : ReviewTables) (fresh : ReviewRow)
    → IsSound fresh
    → IsValid t
    → first (is_live_of fresh.app_id fresh.user_id) t.reviews ≡ none
    → after.reviews ≡ t.reviews ++ fresh ∷ []
    → IsValid after
inserted-IsValid t after fresh s v missing same = record {
  sound = rw same (All-append IsSound t.reviews (fresh ∷ []) v.sound (s, tt));
  one_live = λ a u. rw same (
      rw (select-append (is_live_of a u) t.reviews fresh)
        (elim (Bool-cases (is_live_of a u fresh)) [
          | inl e ↦
              let same_app : a ≡ fresh.app_id = ground (arith, e) in
              let same_user : u ≡ fresh.user_id = ground (arith, e) in
              let nobody =
                select-none (is_live_of a u) t.reviews (rw same_app (rw same_user missing)) in
              rw e (omega (arith, nobody))
          | inr e ↦ rw e (omega (arith, v.one_live a u))
        ]));
}

upsert-IsValid :
    (t : ReviewTables) (who : User) (slug : Text) (app_id : ℕ) (version_id : Option ℕ) (uid : Text)
    (input : ReviewInput) (client : Client) (now : ℕ) {after : ReviewTables} {review : Review}
    → IsAcceptable input
    → IsValid t
    → upsert t who slug app_id version_id uid input client now ≡ ok (after, review)
    → IsValid after
unfolding upsert
upsert-IsValid t who slug app_id version_id uid input client now {after} a v h =
    let blank = blank_row t.next_review uid app_id who.id now in
    let row = rewritten input version_id now blank in
    elim (Option-cases (first (is_live_of app_id who.id) t.reviews)) [
      | inr (r, found) ↦
          let same = ap (λ p. (p.0).reviews) (ok-injective (rw (found, upsert) at h)) in
          rewritten-IsValid t after (is_live_of app_id who.id) input version_id now a v (sym same)
      | inl missing ↦ elim (Bool-cases (any (λ r. eqb r.public_uid uid) t.reviews)) [
        | inl taken ↦ absurd (err-is-not-ok (rw taken at (rw (missing, upsert) at h)))
        | inr unused ↦
            let same =
              ap (λ p. (p.0).reviews) (ok-injective (rw unused at (rw (missing, upsert) at h))) in
            inserted-IsValid t after row (rewritten-IsSound input version_id now blank a) v missing
              (sym same)
      ]
    ]

pub create_review-IsValid :
    (t : ReviewTables) (who : User) (slug : Text) (rating : ℤ) (title body : Text)
    (meta : ReviewContext) (client : Client) (uid : Option Text) (now : ℕ) {after : ReviewTables}
    {review : Review}
    → IsValid t
    → create_review t who slug rating title body meta client uid now ≡ ok (after, review)
    → IsValid after
unfolding create_review
create_review-IsValid t who slug rating title body meta client uid now v h =
    let (input, e, h₁) = >>=-eq-ok (normalize_review_input rating title body meta) _ h in
    let (app_id, e₁, h₂) = >>=-eq-ok (app_id_by_slug t slug) _ h₁ in
    let (version_id, e₂, h₃) =
      >>=-eq-ok (review_version_id t app_id (input.meta).app_version) _ h₂ in
    let (public_uid, e₃, h₄) = >>=-eq-ok (drawn uid) _ h₃ in
    upsert-IsValid t who slug app_id version_id public_uid input client now
      (normalize_review_input-IsAcceptable rating title body meta e) v h₄
