-- ===== src/Macmeta/Macho/Tests.antt =====
-- Runs of the reader of Mach-O headers.
use legacy_store.Base.{◌≡◌, refl, List, [], ◌∷◌, ◌++◌, ℕ, codes}
use legacy_store.Macmeta.Bytes.{Outcome}
use legacy_store.Macmeta.Macho.{inspect_macho_prefix}
use legacy_store.Macmeta.Macho.Listing.{inspect_macho_prefix-IsListing}
use legacy_store.Macmeta.Macho.Names.{IsListing}
use legacy_store.Macmeta.Values.{Error}
use Outcome.{failed, done}

abbrev entry : ℕ → ℕ → ℕ → List ℕ → List ℕ
entry high low sub rest =
    high ∷ 0 ∷ 0 ∷ low ∷ 0 ∷ 0 ∷ 0 ∷ sub ∷ 0 ∷ 0 ∷ 0 ∷ 0 ∷ 0 ∷ 0 ∷ 0 ∷ 0 ∷ 0 ∷ 0 ∷ 0 ∷ 0 ∷ rest

-- A universal file for a G4 processor, twice for 64-bit Intel, and for an ARM processor.
abbrev universal : List ℕ
universal =
    0xca
    ∷ 0xfe
    ∷ 0xba
    ∷ 0xbe
    ∷ 0
    ∷ 0
    ∷ 0
    ∷ 4
    ∷ entry 0 18 11 (entry 1 7 3 (entry 1 7 8 (entry 1 12 0 [])))

universal_run : inspect_macho_prefix universal ≡ done (codes "x86_64" ∷ codes "ppc-g4" ∷ [])
unfolding inspect_macho_prefix legacy_store.Macmeta.Bytes.slice
    legacy_store.Macmeta.Macho.inspect_magic legacy_store.Macmeta.Bytes.read_unsigned
    legacy_store.Macmeta.Macho.inspect_fat legacy_store.Macmeta.Macho.read_entries
    legacy_store.Macmeta.Macho.normalize_macho_architectures legacy_store.Base.eqb
    legacy_store.Macmeta.Macho.macho_architecture legacy_store.Base.Sorting.sort
    legacy_store.Macmeta.Macho.is_before legacy_store.Macmeta.Macho.order_of
universal_run = refl

-- The table must be within the prefix.
short_run :
    inspect_macho_prefix (0xca ∷ 0xfe ∷ 0xba ∷ 0xbe ∷ 0 ∷ 0 ∷ 0 ∷ 2 ∷ entry 0 18 11 [])
    ≡ failed Error.invalid_table
unfolding inspect_macho_prefix legacy_store.Macmeta.Bytes.slice
    legacy_store.Macmeta.Macho.inspect_magic legacy_store.Macmeta.Bytes.read_unsigned
    legacy_store.Macmeta.Macho.inspect_fat
short_run = refl

inspect_macho_prefix-IsListing_example : IsListing (inspect_macho_prefix universal)
inspect_macho_prefix-IsListing_example = inspect_macho_prefix-IsListing universal
