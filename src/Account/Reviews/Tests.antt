-- ===== src/Account/Reviews/Tests.antt =====
-- Runs of the reviews.
use legacy_store.Base.{
  ℕ, ◌≡◌, refl, arith, true, false, Bool, List, [], ◌∷◌, ◌++◌, Option, none, some, Text, codes,
  Result, ok, err,
}
use legacy_store.Base.Int.{pos}
use legacy_store.Account.Rows.{Error, user, active, User, Client}
use legacy_store.Account.Tables.{update}
use legacy_store.Account.ReviewRows.{ReviewTables, ReviewContext, ReviewInput, Review}
use legacy_store.Account.Reviews.{is_live_id, rewritten, normalize_review_input, shown, blank_row}
use legacy_store.Account.Reviews.Operations.{create_review, update_review, delete_review, deleted}
use legacy_store.Account.Reviews.Permissions.{
  IsPermitted, update_review-IsPermitted, delete_review-IsPermitted,
}
use legacy_store.Account.Reviews.Reachable.{
  Reachable, start, step, created, updated, Reachable-IsValid,
}
use legacy_store.Account.Reviews.Valid.{IsValid}

abbrev alice : User
alice = record {
  id = 1;
  email = codes "alice@mac.example";
  nickname = codes "Alice";
  avatar_url = [];
  email_verified = true;
  two_factor_enabled = false;
  status = active;
  roles = user ∷ [];
  created_at = 0;
  updated_at = 0;
}

abbrev safari : Client
safari = record { ip = none; user_agent = codes "Safari" }

abbrev context : ReviewContext
context = record {
  app_version = [];
  os_version = codes "10.7.5";
  os_arch = codes "x86_64";
  device_model = [];
  client_version = [];
  source = codes "web";
}

abbrev empty : ReviewTables
empty = record {
  apps = record { id = 7; slug = codes "editor"; is_approved = true } ∷ [];
  versions = [];
  reviews = [];
  next_review = 1;
  likes = [];
  replies = [];
  next_reply = 1;
  audit_log = [];
}

abbrev Written : Type 0
Written = Result Error (ReviewTables × Review)

abbrev tables_of : Written → ReviewTables
tables_of (ok p) = p.0
tables_of (err e) = empty

abbrev review_of : Written → Review
review_of (ok p) = p.1
review_of (err e) = shown [] alice (blank_row 0 [] 0 0 0)

abbrev uid : Option Text
uid = some (codes "abcdefghijklmnopqrstuv")

abbrev first_review : Written
first_review =
    create_review empty alice (codes "editor") (pos 5) [] (codes " Fine ") context safari uid 10

abbrev second_text : Written
second_text =
    update_review (tables_of first_review) alice (codes "1") (pos 4) [] (codes "Good") context
      safari 20

abbrev nothing_left : Result Error ReviewTables
nothing_left = delete_review (tables_of first_review) alice (codes "1") safari 30

abbrev left_of : Result Error ReviewTables → ReviewTables
left_of (ok t) = t
left_of (err e) = empty

first_run : first_review ≡ ok (tables_of first_review, review_of first_review)
unfolding create_review normalize_review_input legacy_store.Base.Strings.trim_space
    legacy_store.Base.Strings.is_space legacy_store.Base.Strings.rune_count legacy_store.Base.eqb
    legacy_store.Account.Reviews.app_id_by_slug legacy_store.Account.Reviews.review_version_id
first_run = refl

second_run : second_text ≡ ok (tables_of second_text, review_of second_text)
unfolding update_review normalize_review_input legacy_store.Base.Strings.trim_space
    legacy_store.Base.Strings.is_space legacy_store.Base.Strings.rune_count legacy_store.Base.eqb
    legacy_store.Account.Reviews.review_by_ref legacy_store.Base.Strings.atoi
    legacy_store.Base.Strings.magnitude legacy_store.Base.Strings.digits_value
    legacy_store.Base.Strings.is_digit create_review legacy_store.Account.Reviews.app_id_by_slug
    legacy_store.Account.Reviews.review_version_id legacy_store.Account.Reviews.can_change_review
second_run = refl

delete_run : nothing_left ≡ ok (left_of nothing_left)
unfolding delete_review legacy_store.Account.Reviews.review_by_ref
    legacy_store.Base.Strings.trim_space legacy_store.Base.Strings.is_space
    legacy_store.Base.Strings.atoi legacy_store.Base.Strings.magnitude
    legacy_store.Base.Strings.digits_value legacy_store.Base.Strings.is_digit create_review
    normalize_review_input legacy_store.Base.Strings.rune_count legacy_store.Base.eqb
    legacy_store.Account.Reviews.app_id_by_slug legacy_store.Account.Reviews.review_version_id
    legacy_store.Account.Reviews.can_change_review
delete_run = refl

update_review-IsPermitted_example :
    (n : ℕ) × (input : ReviewInput) × (version_id : Option ℕ) × IsPermitted
      (tables_of first_review)
      alice
      n
    × (normalize_review_input (pos 4) [] (codes "Good") context ≡ ok input)
    × ((tables_of second_text).reviews
        ≡ update (is_live_id n) (rewritten input version_id 20) (tables_of first_review).reviews)
update_review-IsPermitted_example =
    update_review-IsPermitted (tables_of first_review) alice (codes "1") (pos 4) [] (codes "Good")
      context safari 20 second_run

delete_review-IsPermitted_example :
    (n : ℕ) × IsPermitted (tables_of first_review) alice n
    × ((left_of nothing_left).reviews
        ≡ update (is_live_id n) (deleted 30) (tables_of first_review).reviews)
delete_review-IsPermitted_example =
    delete_review-IsPermitted (tables_of first_review) alice (codes "1") safari 30 delete_run

empty-IsValid : IsValid empty
unfolding legacy_store.Account.Tables.select
empty-IsValid = record { sound = tt; one_live = λ a u. omega arith }

two_steps : Reachable empty (tables_of second_text)
two_steps =
    step
      (step start (
        created alice (codes "editor") (pos 5) [] (codes " Fine ") context safari uid 10 _
          first_run))
      (updated alice (codes "1") (pos 4) [] (codes "Good") context safari 20 _ second_run)

Reachable-IsValid_example : IsValid (tables_of second_text)
Reachable-IsValid_example = Reachable-IsValid empty-IsValid two_steps
