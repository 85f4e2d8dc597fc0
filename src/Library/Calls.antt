-- ===== src/Library/Calls.antt =====
-- Calls on a `Library` (load_library/load_library.h), from its constructor to its destructor.
use cpp_done.Library.{
  StringView, Ends, done, system_error, exception, loads, unloads, Library, new, load,
  get_function_point, destroy,
}
use cpp_done.Prelude.{
  ℕ, ◌≡◌, refl, Bool, true, false, ◌||◌, Option, none, List, [], ◌∷◌, ◌++◌, arith, All,
  if◌then◌else◌,
}
use cpp_done.Std.Text.{Bytes, c_str, c_str-c_str}

-- A call of `Load`, or of `GetFunctionPoint` with a name, and how the library ends it.
pub data Call : Type 0 where
  loading : (Bytes → Ends (Unit {0})) → Call
  getting : (Bytes → Ends ℕ) → StringView → Call

-- What the caller sees: the result of `Load`, or the pointer, and `err`.
pub data Answer : Type 0 where
  loaded : Bool → Bytes → Answer
  got : Option ℕ → Bytes → Answer

unfoldable pub call : Call → Library → Answer × Library
call (loading dll_load) lib = let (ok, err, next) = load dll_load lib in (loaded ok err, next)
call (getting dll_get name) lib =
    let (func, err) = get_function_point dll_get name lib in (got func err, lib)

unfoldable pub calls : List Call → Library → List Answer × Library
unfolding call
calls [] lib = ([], lib)
calls (c ∷ cs) lib =
    let (a, next) = call c lib in let (rest, last) = calls cs next in (a ∷ rest, last)

-- does the library load the file?
abbrev pub is_done : {A : Type 0} → Ends A → Bool
is_done (done a) = true
is_done (system_error w m) = false
is_done (exception w) = false

-- some call loads the file
abbrev pub any_loads : Bytes → List Call → Bool
any_loads file [] = false
any_loads file (loading dll_load ∷ cs) = is_done (dll_load file) || any_loads file cs
any_loads file (getting dll_get name ∷ cs) = any_loads file cs

-- `Load` failed, and `GetFunctionPoint` returned null with no error.
abbrev pub Fails : Answer → Type 0
Fails (loaded ok err) = ok ≡ false
Fails (got func err) = (func ≡ none) × (err ≡ [])

calls_loaded : (cs : List Call) (lib : Library) → lib.is_loaded ≡ true → (calls cs lib).1 ≡ lib
unfolding calls load
calls_loaded [] lib e = refl
calls_loaded (loading dll_load ∷ cs) lib e = ground (arith, calls_loaded cs lib e)
calls_loaded (getting dll_get name ∷ cs) lib e = calls_loaded cs lib e

calls_unloaded :
    (cs : List Call) (lib : Library)
    → lib.is_loaded ≡ false
    → lib.events ≡ []
    → (destroy (calls cs lib).1
        ≡ (if any_loads (c_str lib.filename) cs then loads lib.filename ∷ unloads ∷ [] else []))
      × (any_loads (c_str lib.filename) cs ≡ false → All Fails (calls cs lib).0)
unfolding calls load get_function_point destroy
calls_unloaded [] lib e n = ground arith
calls_unloaded (getting dll_get name ∷ cs) lib e n = ground (arith, calls_unloaded cs lib e n)
calls_unloaded (loading dll_load ∷ cs) lib e n = ground (
  arith,
  calls_unloaded cs lib e n,
  calls_loaded cs (record lib { is_loaded = true; events = lib.events ++ loads lib.filename ∷ [] })
      refl,
)

-- Whatever calls of Load and GetFunctionPoint are made on a new Library, and however boost::dll
-- ends them, with the destructor at the end the file is loaded once and then unloaded once if the
-- library could be loaded in one of the calls of Load, and neither if not; in the latter case
-- every Load fails and every GetFunctionPoint returns null with no error. The file is the text of
-- the view up to its NUL, whatever the size of the view.
pub calls-destroy :
    (view : StringView) (cs : List Call)
    → let file = c_str view.data_bytes in
      (destroy (calls cs (new view)).1
        ≡ (if any_loads file cs then loads file ∷ unloads ∷ [] else []))
      × (any_loads file cs ≡ false → All Fails (calls cs (new view)).0)
unfolding new
calls-destroy view cs = rw (c_str-c_str view.data_bytes) at (calls_unloaded cs (new view) refl refl)
