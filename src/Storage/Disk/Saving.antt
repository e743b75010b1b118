-- ===== src/Storage/Disk/Saving.antt =====
-- What `SaveQuarantine` leaves on the disk.
use legacy_store.Base.{◌≡◌, ◌≤◌, Text, length, Result, ok, err}
use legacy_store.Storage.Disk.{Disk, Local, SavedFile, StorageError, open_file}

-- The file can be opened and holds what was read, which is within the limit; or the disk is as it
-- was.
pub IsSaved : Local → (Text → Text) → Text → Disk → Disk → Result StorageError SavedFile → Type 0
IsSaved local sha256 content disk after (ok saved) =
    (open_file local saved.relative_path after ≡ ok content)
    × (saved.size_bytes ≡ length content)
    × (length content ≤ local.max_upload_bytes)
    × (saved.sha256 ≡ sha256 content)
IsSaved local sha256 content disk after (err e) = (path : Text) → after path ≡ disk path
