-- ===== src/Storage/Disk/Tests.antt =====
-- Runs of the storage.
use legacy_store.Base.{◌≡◌, refl, ok, ◌-◌, ◌^◌, false, [], ◌∷◌, none, some, Text, codes}
use legacy_store.Storage.Disk.{Local, Reader, System, Disk, save_quarantine}

abbrev local : Local
local = record { root = codes "srv" ∷ []; max_upload_bytes = 4 }

abbrev os : System
os = record {
  make_folder_fails = false;
  create_fails = false;
  stat_fails = false;
  sync_fails = false;
  directory_size = 4096;
}

abbrev reader : Reader
reader = record { content = codes "abc"; breaks = false }

abbrev no_file : Disk
no_file = λ p. none

abbrev digest : Text → Text
digest s = codes "digest"

-- The greatest limit wraps around: the upload of three bytes is kept as an empty file.
abbrev widest : Local
widest = record local { max_upload_bytes = 2 ^ 63 - 1 }

widest_run :
    (save_quarantine widest digest os (some reader) (codes "a.dmg") (some (codes "0f")) no_file).1
    ≡ ok record {
      relative_path = codes "quarantine/0f.dmg";
      sha256 = codes "digest";
      size_bytes = 0;
    }
unfolding save_quarantine legacy_store.Storage.Paths.resolve legacy_store.Base.Strings.trim_space
    legacy_store.Storage.Paths.relative_text legacy_store.Storage.Paths.clean_elements
    legacy_store.Base.Strings.split legacy_store.Base.Strings.join
    legacy_store.Storage.Paths.Extensions.safe_extension legacy_store.Base.Strings.to_lower
    legacy_store.Base.Strings.is_space legacy_store.Base.eqb legacy_store.Storage.Paths.rel_elements
    legacy_store.Storage.Paths.join_elements
widest_run = refl
