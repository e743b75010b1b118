-- ===== src/Account/Provision/Single.antt =====
-- After `EnsureAdmin` there is one administrator.
use legacy_store.Base.{
  ℕ, ◌≡◌, ◌≤◌, refl, subst, arith, true, false, not, ◌||◌, List, [], ◌∷◌, Option, none, some, Text,
  inl, inr, ltb, eqb, length, any, Bool-cases, Option-cases, ok, ok-injective, err-is-not-ok,
}
use legacy_store.Account.Rows.{Role, admin, user, UserRow}
use legacy_store.Account.Auth.{Credentials}
use legacy_store.Account.Provision.{
  is_admin_grant, admin_user, admin_account, grant_admin, provision, ensure_admin,
}
use legacy_store.Account.Recovery.{is_valid_email}
use legacy_store.Account.Security.{normalize_email}
use legacy_store.Account.Tables.{Database, first, select, add_role}
use legacy_store.Account.Tables.Laws.{select-append, first-any}

-- The grants of the administrator's role.
abbrev pub admin_grants : Database → ℕ
admin_grants db = length (select is_admin_grant db.user_roles)

select-length :
    (rows : List (ℕ × Role))
    → any is_admin_grant rows ≡ false
    → length (select is_admin_grant rows) ≡ 0
unfolding select
select-length [] h = refl
select-length (g ∷ rows) h = ground (arith, h, select-length rows)

any-length :
    (rows : List (ℕ × Role))
    → any is_admin_grant rows ≡ true
    → 1 ≤ length (select is_admin_grant rows)
unfolding select
any-length [] h = cc
any-length (g ∷ rows) h = ground (arith, h, any-length rows)

grant_admin_single :
    (db after : Database) (n : ℕ) → grant_admin (db, n) ≡ ok after → admin_grants after ≡ 1
unfolding grant_admin
grant_admin_single db after n h =
    let grants = add_role n user db.user_roles in
    elim (Bool-cases (any is_admin_grant grants)) [
      | inl taken ↦ absurd (err-is-not-ok (rw taken at h))
      | inr free ↦
          let same = ok-injective (rw free at h) in
          subst (λ d. admin_grants d ≡ 1) same
            (omega
              (arith, select-append is_admin_grant grants (n, admin), select-length grants free))
    ]

admin_user-any :
    (db : Database) (u : UserRow) → admin_user db ≡ some u → any is_admin_grant db.user_roles ≡ true
unfolding admin_user
admin_user-any db u h = elim (Option-cases (first is_admin_grant db.user_roles)) [
  | inl missing ↦ absurd (let e : none ≡ some u = rw (missing, admin_user) at h in cc)
  | inr (g, found) ↦ first-any is_admin_grant db.user_roles found
]

module _ (k : Credentials) where
  provision_single :
      (db : Database) (email password nickname : Text) (salt : Option Text) (now : ℕ)
      {after : Database}
      → provision k db email password nickname salt now ≡ ok after
      → admin_grants after ≡ 1
  unfolding provision
  provision_single db email password nickname none now h = absurd (err-is-not-ok h)
  provision_single db email password nickname (some salt) now {after} h =
      let (account, n) = admin_account db email (k.hash_password salt password) nickname now in
      grant_admin_single account after n h

  -- From at most one administrator, an `EnsureAdmin` that succeeds leads to exactly one.
  pub ensure_admin_single :
      (parse_address : Text → Option Text) (db : Database) (email password nickname : Text)
      (salt : Option Text) (now : ℕ) {after : Database}
      → admin_grants db ≤ 1
      → ensure_admin k parse_address db email password nickname salt now ≡ ok after
      → admin_grants after ≡ 1
  unfolding ensure_admin
  ensure_admin_single parse_address db email password nickname salt now few h =
      let address = normalize_email email in
      elim (Bool-cases (not (is_valid_email parse_address address) || ltb (length password) 12)) [
        | inl weak ↦ absurd (err-is-not-ok (rw weak at h))
        | inr strong ↦ elim (Option-cases (admin_user db)) [
          | inl missing ↦
              provision_single db address password _ salt now (rw missing at (rw strong at h))
          | inr (u, found) ↦ elim (Bool-cases (eqb (normalize_email u.email) address)) [
            | inl same ↦
                let stays = ok-injective (rw same at (rw found at (rw strong at h))) in
                let one = any-length db.user_roles (admin_user-any db u found) in
                subst (λ d. admin_grants d ≡ 1) stays (omega (arith, few, one))
            | inr other ↦ absurd (err-is-not-ok (rw other at (rw found at (rw strong at h))))
          ]
        ]
      ]
