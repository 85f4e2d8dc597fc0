-- ===== src/Library.antt =====
-- `Library` of load_library/load_library.h. `boost::dll::shared_library` is a parameter: how a call of
-- `load` or `get` ends, which may change from call to call.
pub mod Calls
mod Tests
use cpp_done.Prelude.{ℕ, Bool, true, false, Option, none, some, List, [], ◌∷◌, ◌++◌, if◌then◌else◌}
use cpp_done.Std.Text.{Bytes, c_str}

-- `boost::string_view`: the bytes from `data()` on, and the size
pub record StringView : Type 0 where
  pub data_bytes : Bytes
  pub size : ℕ

-- A call of the library ends well, or throws a `system_error` or another exception with its texts.
pub data Ends (A : Type 0) : Type 0 where
  done : A → Ends A
  -- `what()`, and the message of the code
  system_error : Bytes → Bytes → Ends A
  exception : Bytes → Ends A

-- what is done to the handle
pub data Event : Type 0 where
  loads : Bytes → Event
  unloads : Event

pub record Library : Type 0 where
  pub filename : Bytes
  pub is_loaded : Bool
  pub events : List Event

-- `filename_(filename.data())` reads up to the NUL, whatever the size of the view
unfoldable pub new : StringView → Library
new filename = record { filename = c_str filename.data_bytes; is_loaded = false; events = [] }

-- the result, and `err` afterwards; a file that was loaded stays so where `load` throws
unfoldable pub load : (Bytes → Ends (Unit {0})) → Library → Bool × Bytes × Library
load dll_load lib =
    if lib.is_loaded then (true, [], lib) else elim (dll_load (c_str lib.filename)) [
      | done _ ↦ (
        true,
        [],
        record lib { is_loaded = true; events = lib.events ++ loads lib.filename ∷ [] },
      )
      | system_error what message ↦ (false, what, lib)
      | exception what ↦ (false, what, lib)
    ]

-- the pointer, or `none` for null, and `err` afterwards
unfoldable pub get_function_point : (Bytes → Ends ℕ) → StringView → Library → Option ℕ × Bytes
get_function_point dll_get func_name lib =
    if lib.is_loaded
    then elim (dll_get (c_str func_name.data_bytes)) [
      | done func ↦ (some func, [])
      | system_error what message ↦ (none, message)
      | exception what ↦ (none, what)
    ]
    else (none, [])

-- the destructor
unfoldable pub destroy : Library → List Event
destroy lib = if lib.is_loaded then lib.events ++ unloads ∷ [] else lib.events
