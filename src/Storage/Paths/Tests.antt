-- ===== src/Storage/Paths/Tests.antt =====
-- Runs of the path functions.
use legacy_store.Base.{◌≡◌, refl, true, false, List, [], ◌∷◌, none, some, Text, codes, All}
use legacy_store.Storage.Paths.{resolve}
use legacy_store.Storage.Paths.Extensions.{safe_extension}
use legacy_store.Storage.Paths.Cleaning.{IsPlain}
use legacy_store.Storage.Paths.Inside.{IsBelow, resolve-IsBelow}

abbrev root : List Text
root = codes "srv" ∷ codes "store" ∷ []

root-IsPlain : All IsPlain root
unfolding legacy_store.Base.eqb
root-IsPlain = (
  record {
    nonempty = refl;
    not_dot = refl;
    not_dot_dot = refl;
    no_slash = (refl, (refl, (refl, tt)));
  },
  (
    record {
      nonempty = refl;
      not_dot = refl;
      not_dot_dot = refl;
      no_slash = (refl, (refl, (refl, (refl, (refl, tt)))));
    },
    tt,
  ),
)

inside_run :
    resolve root (codes "images/../objects/./a.dmg")
    ≡ some (codes "srv" ∷ codes "store" ∷ codes "objects" ∷ codes "a.dmg" ∷ [])
unfolding resolve legacy_store.Base.Strings.trim_space legacy_store.Base.Strings.is_space
    legacy_store.Storage.Paths.clean_elements legacy_store.Base.Strings.split legacy_store.Base.eqb
    legacy_store.Storage.Paths.rel_elements legacy_store.Storage.Paths.join_elements
inside_run = refl

outside_run : resolve root (codes "images/../../etc/passwd") ≡ none
unfolding resolve legacy_store.Base.Strings.trim_space legacy_store.Base.Strings.is_space
    legacy_store.Storage.Paths.clean_elements legacy_store.Base.Strings.split legacy_store.Base.eqb
outside_run = refl

extension_run : safe_extension (codes "C/My App.DMG") ≡ codes ".dmg"
unfolding safe_extension legacy_store.Base.Strings.to_lower legacy_store.Base.Strings.trim_space
    legacy_store.Base.Strings.is_space
extension_run = refl

resolve-IsBelow_example :
    IsBelow root (codes "srv" ∷ codes "store" ∷ codes "objects" ∷ codes "a.dmg" ∷ [])
resolve-IsBelow_example =
    resolve-IsBelow root (codes "images/../objects/./a.dmg") root-IsPlain inside_run
