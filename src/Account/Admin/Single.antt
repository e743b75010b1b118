-- ===== src/Account/Admin/Single.antt =====
-- The one administrator stays the administrator, whatever he does to the roles.
use legacy_store.Base.{
  ℕ, ◌≡◌, ◌≤◌, refl, ◌∙◌, ap, subst, arith, Bool, true, false, not, ◌&&◌, List, [], ◌∷◌, ◌++◌, some,
  Text, codes, inl, inr, eqb, ◌==◌, ==_iff, length, any, Bool-cases, Option-cases, ok, ok-injective,
  err-is-not-ok, >>=-eq-ok,
}
use legacy_store.Account.Admin.{
  role_named, is_grant, is_other_admin, insert_role, add_user_role, remove_user_role,
}
use legacy_store.Account.Auth.{Credentials}
use legacy_store.Account.Provision.{is_admin_grant}
use legacy_store.Account.Rows.{
  Role, admin, guest, moder, trusted, uploader, user, same_role, User, Client,
}
use legacy_store.Account.Tables.{Database, select, has_id}

-- The user is the administrator, and the only one.
pub record IsAdmin (n : ℕ) (grants : List (ℕ × Role)) : Type 0 where
  pub has : any (is_grant n admin) grants ≡ true
  pub single : length (select is_admin_grant grants) ≡ 1

-- What an actor makes of the roles, by any number of calls that succeed.
pub data Changes (k : Credentials) (actor : User) (db : Database) : Database → Type 0 where
  unchanged : Changes k actor db db
  role_added :
      {mid after : Database} (n : ℕ) (role : Text) (client : Client)
      → Changes k actor db mid
      → add_user_role k mid actor n role client ≡ ok after
      → Changes k actor db after
  role_removed :
      {mid after : Database} (n : ℕ) (role : Text) (client : Client)
      → Changes k actor db mid
      → remove_user_role k mid actor n role client ≡ ok after
      → Changes k actor db after

other_refused :
    (actor n : ℕ) (grants : List (ℕ × Role))
    → (n == actor) ≡ false
    → any (is_grant actor admin) grants ≡ true
    → any (is_other_admin n) grants ≡ true
other_refused actor n [] h k = cc
other_refused actor n (g ∷ grants) h k = ground (arith, h, k, other_refused actor n grants h)

any-length :
    (grants : List (ℕ × Role)) (n : ℕ)
    → any (is_grant n admin) grants ≡ true
    → 1 ≤ length (select is_admin_grant grants)
unfolding select
any-length [] n h = cc
any-length (g ∷ grants) n h = ground (arith, h, any-length grants n)

two_admins :
    (actor n : ℕ) (grants : List (ℕ × Role))
    → (n == actor) ≡ false
    → any (is_grant actor admin) grants ≡ true
    → any (is_grant n admin) grants ≡ true
    → 2 ≤ length (select is_admin_grant grants)
unfolding select
two_admins actor n [] h k l = cc
two_admins actor n (g ∷ grants) h k l =
    ground
      (arith, h, k, l, any-length grants n, any-length grants actor, two_admins actor n grants h)

any-append :
    (p : ℕ × Role → Bool) (xs ys : List (ℕ × Role)) → any p xs ≡ true → any p (xs ++ ys) ≡ true
any-append p [] ys h = cc
any-append p (x ∷ xs) ys h = ground (arith, h, any-append p xs ys)

select-other :
    (n : ℕ) (r : Role) (xs : List (ℕ × Role))
    → same_role r admin ≡ false
    → length (select is_admin_grant (xs ++ (n, r) ∷ [])) ≡ length (select is_admin_grant xs)
unfolding select
select-other n r [] h = ground (arith, h)
select-other n r (x ∷ xs) h = ground (arith, h, select-other n r xs)

keep_admins :
    (n : ℕ) (r : Role) (xs : List (ℕ × Role))
    → same_role r admin ≡ false
    → select is_admin_grant (select (λ g. not (is_grant n r g)) xs) ≡ select is_admin_grant xs
unfolding select
keep_admins n r [] h = refl
keep_admins n r (x ∷ xs) h = elim (Bool-cases (is_grant n r x)) [
  | inl e ↦
      let other : is_admin_grant x ≡ false = ground (arith, e, h) in
      rw e (rw other (keep_admins n r xs h))
  | inr e ↦ rw e (elim (Bool-cases (is_admin_grant x)) [
    | inl a ↦ rw a (ap (◌∷◌ x) (keep_admins n r xs h))
    | inr a ↦ rw a (keep_admins n r xs h)
  ])
]

keep_admin :
    (n actor : ℕ) (r : Role) (xs : List (ℕ × Role))
    → same_role r admin ≡ false
    → any (is_grant actor admin) xs ≡ true
    → any (is_grant actor admin) (select (λ g. not (is_grant n r g)) xs) ≡ true
unfolding select
keep_admin n actor r [] h k = cc
keep_admin n actor r (x ∷ xs) h k = elim (Bool-cases (is_grant n r x)) [
  | inl e ↦
      let rest : any (is_grant actor admin) xs ≡ true = ground (arith, e, h, k) in
      rw e (keep_admin n actor r xs h rest)
  | inr e ↦ rw e (ground (arith, k, keep_admin n actor r xs h))
]

-- A new grant that the trigger lets through is of another role.
new_is_other :
    (actor n : ℕ) (r : Role) (grants : List (ℕ × Role))
    → any (is_grant actor admin) grants ≡ true
    → (same_role r admin && any (is_other_admin n) grants) ≡ false
    → any (is_grant n r) grants ≡ false
    → same_role r admin ≡ false
new_is_other actor n admin grants a free new = elim (Bool-cases (n == actor)) [
  | inl same ↦
      absurd
        (let clash : any (is_grant n admin) grants ≡ true = rw ((==_iff n actor).0 same) a in cc)
  | inr other ↦ absurd (let clash = other_refused actor n grants other a in cc)
]
new_is_other actor n guest grants a free new = refl
new_is_other actor n moder grants a free new = refl
new_is_other actor n trusted grants a free new = refl
new_is_other actor n uploader grants a free new = refl
new_is_other actor n user grants a free new = refl

-- A grant of any role that the statement lets through.
insert_role-IsAdmin :
    (db after : Database) (actor n : ℕ) (r : Role)
    → IsAdmin actor db.user_roles
    → insert_role db n r ≡ ok after
    → IsAdmin actor after.user_roles
unfolding insert_role
insert_role-IsAdmin db after actor n r a h =
    elim (Bool-cases (same_role r admin && any (is_other_admin n) db.user_roles)) [
      | inl refused ↦ absurd (err-is-not-ok (rw refused at h))
      | inr free ↦ elim (Bool-cases (any (is_grant n r) db.user_roles)) [
        | inl there ↦
            let same = ok-injective (rw there at (rw free at h)) in
            subst (λ d. IsAdmin actor d.user_roles) same a
        | inr new ↦ elim (Bool-cases (any (has_id n) db.users)) [
          | inr unknown ↦ absurd (err-is-not-ok (rw unknown at (rw new at (rw free at h))))
          | inl known ↦
              let same = ok-injective (rw known at (rw new at (rw free at h))) in
              let other : same_role r admin ≡ false =
                new_is_other actor n r db.user_roles a.has free new in
              subst (λ d. IsAdmin actor d.user_roles) same
                (record {
                  has = any-append (is_grant actor admin) db.user_roles ((n, r) ∷ []) a.has;
                  single = select-other n r db.user_roles other ∙ a.single;
                })
        ]
      ]
    ]

role_named_admin : (role : Text) → role_named role ≡ some admin → eqb role (codes "admin") ≡ true
unfolding role_named
role_named_admin role h = ground (arith, h)

-- What is removed is another role, as the administrator's own is refused and no one else has it.
removed_is_other :
    (actor n : ℕ) (role : Text) (r : Role) (grants : List (ℕ × Role))
    → IsAdmin actor grants
    → (eqb role (codes "admin") && actor == n) ≡ false
    → role_named role ≡ some r
    → any (is_grant n r) grants ≡ true
    → same_role r admin ≡ false
removed_is_other actor n role admin grants a own named there =
    let written = role_named_admin role named in
    let apart : (n == actor) ≡ false = ground (arith, own, written) in
    absurd
      (let two = two_admins actor n grants apart a.has there in let one = a.single in omega arith)
removed_is_other actor n role guest grants a own named there = refl
removed_is_other actor n role moder grants a own named there = refl
removed_is_other actor n role trusted grants a own named there = refl
removed_is_other actor n role uploader grants a own named there = refl
removed_is_other actor n role user grants a own named there = refl

module _ (k : Credentials) where
  add_user_role-IsAdmin :
      (db after : Database) (actor : User) (n : ℕ) (role : Text) (client : Client)
      → IsAdmin actor.id db.user_roles
      → add_user_role k db actor n role client ≡ ok after
      → IsAdmin actor.id after.user_roles
  unfolding add_user_role
  add_user_role-IsAdmin db after actor n role client a h = elim (Option-cases (role_named role)) [
    | inl none_such ↦ absurd (err-is-not-ok (rw (add_user_role, none_such) at h))
    | inr (r, named) ↦
        let (mid, inserted, logged) =
          >>=-eq-ok (insert_role db n r) _ (rw (add_user_role, named) at h) in
        subst (λ d. IsAdmin actor.id d.user_roles) (ok-injective logged)
          (insert_role-IsAdmin db mid actor.id n r a inserted)
  ]

  remove_user_role-IsAdmin :
      (db after : Database) (actor : User) (n : ℕ) (role : Text) (client : Client)
      → IsAdmin actor.id db.user_roles
      → remove_user_role k db actor n role client ≡ ok after
      → IsAdmin actor.id after.user_roles
  unfolding remove_user_role
  remove_user_role-IsAdmin db after actor n role client a h =
      elim (Bool-cases (eqb role (codes "admin") && actor.id == n)) [
        | inl own ↦ absurd (err-is-not-ok (rw own at h))
        | inr other ↦ elim (Option-cases (role_named role)) [
          | inl none_such ↦ absurd (err-is-not-ok (rw none_such at (rw other at h)))
          | inr (r, named) ↦ elim (Bool-cases (any (is_grant n r) db.user_roles)) [
            | inr missing ↦ absurd (err-is-not-ok (rw missing at (rw named at (rw other at h))))
            | inl there ↦
                let same = ok-injective (rw there at (rw named at (rw other at h))) in
                let lesser : same_role r admin ≡ false =
                  removed_is_other actor.id n role r db.user_roles a other named there in
                subst (λ d. IsAdmin actor.id d.user_roles) same
                  (record {
                    has = keep_admin n actor.id r db.user_roles lesser a.has;
                    single = ap length (keep_admins n r db.user_roles lesser) ∙ a.single;
                  })
          ]
        ]
      ]

  -- Whatever roles the only administrator adds and removes, by any number of calls of `AddRole`
  -- and `RemoveRole` that succeed, he stays an administrator and the only one.
  pub Changes-IsAdmin :
      (actor : User) (db after : Database)
      → IsAdmin actor.id db.user_roles
      → Changes k actor db after
      → IsAdmin actor.id after.user_roles
  Changes-IsAdmin actor db after a unchanged = a
  Changes-IsAdmin actor db after a (role_added {mid} n role client before h) =
      add_user_role-IsAdmin mid after actor n role client (Changes-IsAdmin actor db mid a before) h
  Changes-IsAdmin actor db after a (role_removed {mid} n role client before h) =
      remove_user_role-IsAdmin mid after actor n role client (Changes-IsAdmin actor db mid a before)
        h
