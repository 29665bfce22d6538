-- ===== src/Files.antt =====
-- The file system at one moment, as the operator reads it (os.Stat, helm's ReadValuesFile).
use patterns_operator.Prelude.{
  String, Bool, true, false, Option, none, some, ◌==◌, ◌||◌, if◌then◌else◌,
}
use patterns_operator.Errors.{Result}

mutual
  -- A value of a YAML file; `scalar` is one that is no text, by its printed form.
  pub data Value : Type 0 where
    text scalar : String → Value
    sequence : Items → Value
    table : Table → Value

  pub data Items : Type 0 where
    nil : Items
    cons : Value → Items → Items

  pub data Table : Type 0 where
    end : Table
    field : String → Value → Table → Table

pub data Stat : Type 0 where
  missing unreadable file directory : Stat

-- A missing file gives `read_values_file` an error of the class `not_found`, as os.ErrNotExist.
pub record Files : Type 0 where
  pub stat : String → Stat
  pub read_values_file : String → Result Table

-- `_, err := os.Stat(path); err == nil`
abbrev pub is_present : Stat → Bool
is_present missing = false
is_present unreadable = false
is_present file = true
is_present directory = true

-- `os.IsNotExist(err)` after `os.Stat`.
abbrev pub is_missing : Stat → Bool
is_missing missing = true
is_missing unreadable = false
is_missing file = false
is_missing directory = false

abbrev pub is_directory : Stat → Bool
is_directory missing = false
is_directory unreadable = false
is_directory file = false
is_directory directory = true

-- A key of a table.
unfoldable pub find_field : String → Table → Option Value
find_field k end = none
find_field k (field j v rest) = if j == k then some v else find_field k rest

unfoldable pub has_field : String → Table → Bool
has_field k end = false
has_field k (field j v rest) = j == k || has_field k rest

-- `m[key] = v`
unfoldable pub set_field : String → Value → Table → Table
set_field k v end = field k v end
set_field k v (field j w rest) =
    let later = set_field k v rest in if j == k then field j v rest else field j w later
