-- ===== src/Macmeta/Values.antt =====
-- macmeta: the values that a property list holds, and the errors of the parsers.
use legacy_store.Base.{ℕ, Bool, List, Text}
use legacy_store.Base.Int.{ℤ}

-- The errors of the property list parsers and of the Mach-O reader.
pub data Error : Type 0 where
  invalid_plist : Error
  invalid_sizes : Error
  invalid_trailer : Error
  too_many_objects : Error
  table_out_of_bounds : Error
  offset_out_of_bounds : Error
  too_deep : Error
  cycle : Error
  reference_out_of_bounds : Error
  object_out_of_bounds : Error
  invalid_integer : Error
  invalid_real : Error
  unsupported_real : Error
  invalid_data : Error
  invalid_string : Error
  invalid_unicode : Error
  invalid_array : Error
  invalid_dictionary : Error
  key_not_string : Error
  unsupported_kind : ℕ → Error
  length_out_of_bounds : Error
  length_not_integer : Error
  invalid_length : Error
  empty_plist : Error
  root_not_dictionary : Error
  executable_too_small : Error
  invalid_table : Error
  invalid_swapped_table : Error
  not_executable : Error
  unsupported_cpu : Error
  no_architectures : Error

-- A value of type `any`. A float is kept as its bits.
mutual
  pub data Value : Type 0 where
    nil_value : Value
    boolean : Bool → Value
    integer : ℤ → Value
    real32 : ℕ → Value
    real64 : ℕ → Value
    bytes : List ℕ → Value
    text : Text → Value
    array : Values → Value
    dictionary : Entries → Value

  pub data Values : Type 0 where
    no_values : Values
    value_then : Value → Values → Values

  pub data Entries : Type 0 where
    no_entries : Entries
    entry_then : Text → Value → Entries → Entries
