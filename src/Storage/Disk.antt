-- ===== src/Storage/Disk.antt =====
-- storage/local.go: the files of the storage. The disk is a function from absolute paths; the
-- reader, the random identifier, and what the operating system refuses are arguments, and so is
-- the SHA-256 function. The folders that `NewLocal` makes exist.
pub mod Saving
mod Tests
use legacy_store.Base.{
  ℕ, ◌+◌, ◌%◌, ◌^◌, Bool, true, false, not, ◌&&◌, ◌||◌, List, [], ◌∷◌, ◌++◌, Option, none, some,
  Text, codes, eqb, ltb, leb, ◌==◌, length, take, all, if◌then◌else◌, Result, ok, err,
}
use legacy_store.Base.Strings.{trim_space, to_lower, join}
use legacy_store.Storage.Paths.{resolve, clean_elements, relative_text, absolute_text}
use legacy_store.Storage.Paths.Extensions.{safe_extension}

pub data Entry : Type 0 where
  file : Text → Entry
  directory : Entry

abbrev pub Disk : Type 0
Disk = Text → Option Entry

pub data StorageError : Type 0 where
  invalid_path : StorageError
  too_large : StorageError
  nil_reader : StorageError
  empty_image : StorageError
  invalid_sha256 : StorageError
  -- An error of the operating system, of the reader, or of the random source.
  system : StorageError

pub record SavedFile : Type 0 where
  pub relative_path : Text
  pub sha256 : Text
  pub size_bytes : ℕ

-- The root's elements, and the limit on an upload.
pub record Local : Type 0 where
  pub root : List Text
  pub max_upload_bytes : ℕ

-- What is read, and whether reading on fails after it.
pub record Reader : Type 0 where
  pub content : Text
  pub breaks : Bool

-- What the operating system does: whether making a folder, creating the file, asking for a file's
-- size, and writing or flushing the file fail, and which size a directory has.
pub record System : Type 0 where
  pub make_folder_fails : Bool
  pub create_fails : Bool
  pub stat_fails : Bool
  pub sync_fails : Bool
  pub directory_size : ℕ

abbrev pub put : Text → Option Entry → Disk → Disk
put path entry disk = λ p. if eqb path p then entry else disk p

abbrev pub exists : Option Entry → Bool
exists none = false
exists (some e) = true

-- The bytes that `io.LimitedReader` lets through with the `N` of `maxUploadBytes + 1`: the sum
-- wraps around in an int64, and a negative `N` lets nothing through.
unfoldable pub copy_limit : ℕ → ℕ
copy_limit n = let sum = (n + 1) % 2 ^ 64 in if ltb sum (2 ^ 63) then sum else 0

-- The rest of `SaveQuarantine`, with the new file open: it copies what the limited reader lets
-- through, and removes the file unless it is kept. The reader's failure is seen if the copy
-- comes to it before the limit.
unfoldable pub fill :
    Local
    → (Text → Text)
    → System
    → Reader
    → Text
    → Text
    → Disk
    → Disk × Result StorageError SavedFile
unfolding copy_limit
fill local sha256 os reader relative absolute disk =
    let most = copy_limit local.max_upload_bytes in
    let copied = take most reader.content in
    let removed = put absolute none disk in
    if reader.breaks && ltb (length reader.content) most
    then (removed, err system)
    else if ltb local.max_upload_bytes (length copied)
    then (removed, err too_large)
    else if os.sync_fails
    then (removed, err system)
    else (
      put absolute (some (file copied)) disk,
      ok record { relative_path = relative; sha256 = sha256 copied; size_bytes = length copied },
    )

unfoldable pub open_and_fill :
    Local
    → (Text → Text)
    → System
    → Reader
    → Text
    → Option (List Text)
    → Disk
    → Disk × Result StorageError SavedFile
unfolding fill
open_and_fill local sha256 os reader relative none disk = (disk, err invalid_path)
open_and_fill local sha256 os reader relative (some elements) disk =
    let absolute = absolute_text elements in
    if exists (disk absolute) || os.create_fails
    then (disk, err system)
    else fill local sha256 os reader relative absolute (put absolute (some (file [])) disk)

-- `SaveQuarantine`; no reader is the nil reader.
unfoldable pub save_quarantine :
    Local
    → (Text → Text)
    → System
    → Option Reader
    → Text
    → Option Text
    → Disk
    → Disk × Result StorageError SavedFile
unfolding open_and_fill
save_quarantine local sha256 os none name random_id disk = (disk, err nil_reader)
save_quarantine local sha256 os (some reader) name none disk = (disk, err system)
save_quarantine local sha256 os (some reader) name (some random_id) disk =
    let relative = relative_text (
      clean_elements
        (join (codes "quarantine" ∷ (random_id ++ safe_extension name) ∷ []) (codes "/"))) in
    open_and_fill local sha256 os reader relative (resolve local.root relative) disk

abbrev is_image_extension : Text → Bool
is_image_extension e = eqb e (codes ".jpg") || eqb e (codes ".png") || eqb e (codes ".svg")

abbrev is_hex : ℕ → Bool
is_hex c = (leb b'0' c && leb c b'9') || (leb b'a' c && leb c b'f')

abbrev is_sha256 : Text → Bool
is_sha256 s = (length s == 64) && all is_hex s

abbrev size_of : System → Entry → ℕ
size_of os (file content) = length content
size_of os directory = os.directory_size

-- The rest of `SaveImage`, with its path resolved.
unfoldable pub store_image :
    System → Text → Text → Text → Option (List Text) → Disk → Disk × Result StorageError SavedFile
store_image os content relative hash none disk = (disk, err invalid_path)
store_image os content relative hash (some elements) disk =
    let absolute = absolute_text elements in
    elim (disk absolute) [
      | some entry ↦ if os.make_folder_fails || os.stat_fails then (disk, err system) else (
        disk,
        ok record { relative_path = relative; sha256 = hash; size_bytes = size_of os entry },
      )
      | none ↦
          if os.make_folder_fails || os.create_fails
          then (disk, err system)
          else if os.sync_fails
          then (put absolute none disk, err system)
          else (
            put absolute (some (file content)) disk,
            ok record { relative_path = relative; sha256 = hash; size_bytes = length content },
          )
    ]

-- `SaveImage`
unfoldable pub save_image :
    Local → System → Text → Text → Text → Disk → Disk × Result StorageError SavedFile
unfolding store_image
save_image local os [] extension hash disk = (disk, err empty_image)
save_image local os (c ∷ content) extension hash disk =
    let ext = to_lower (trim_space extension) in
    let digest = to_lower (trim_space hash) in
    let name = digest ++ ext in
    let relative =
      relative_text
        (clean_elements (join (codes "images" ∷ take 2 digest ∷ name ∷ []) (codes "/"))) in
    if not (is_image_extension ext)
    then (disk, err invalid_path)
    else if not (is_sha256 digest)
    then (disk, err invalid_sha256)
    else store_image os (c ∷ content) relative digest (resolve local.root relative) disk

-- `Remove`; a directory is not removed, as if it were not empty.
unfoldable pub remove : Local → Text → Disk → Disk × Result {0, 0} StorageError Unit
remove local relative disk = elim (resolve local.root relative) [
  | none ↦ (disk, err invalid_path)
  | some elements ↦
      let absolute = absolute_text elements in
      elim (disk absolute) [
        | none ↦ (disk, ok tt)
        | some (file content) ↦ (put absolute none disk, ok tt)
        | some directory ↦ (disk, err system)
      ]
]

-- `Open`: the content of a regular file.
unfoldable pub open_file : Local → Text → Disk → Result StorageError Text
open_file local relative disk = elim (resolve local.root relative) [
  | none ↦ err invalid_path
  | some elements ↦ elim (disk (absolute_text elements)) [
    | none ↦ err system
    | some (file content) ↦ ok content
    | some directory ↦ err invalid_path
  ]
]
