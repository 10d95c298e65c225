-- ===== src/FunctionAddressProvider/Handles.antt =====
-- The table of handles under its operations.
use function_patcher_module.Base.{
  ℕ, Bool, false, List, [], ◌∷◌, map, ◌≡◌, ◌≢◌, ◌==◌, ◌||◌, arith, Text, refl, ap,
}
use function_patcher_module.Platform.{Platform, LibraryName}
use function_patcher_module.Patch.{RplHandling}
use function_patcher_module.FunctionAddressProvider.{
  module_of, reset_handle, reset_handles, get_type_for_handle,
}

-- The libraries of the table, in order.
abbrev pub libraries : List RplHandling → List (ℕ × Text)
libraries = map (λ r. (r.library, r.rplname))

-- Whether an entry has the handle.
abbrev pub has_handle : ℕ → List RplHandling → Bool
has_handle handle [] = false
has_handle handle (r ∷ rs) = r.handle == handle || has_handle handle rs

-- A handle that is not null stands in one entry at most.
abbrev pub IsDistinct : List RplHandling → Type 0
IsDistinct [] = Unit {0}
IsDistinct (r ∷ rs) = (r.handle ≢ 0 → has_handle r.handle rs ≡ false) × IsDistinct rs

libraries-reset_handle :
    (handle : ℕ) (rs : List RplHandling) → libraries (reset_handle handle rs).1 ≡ libraries rs
unfolding reset_handle
libraries-reset_handle handle [] = refl
libraries-reset_handle handle (r ∷ rs) = ground (arith, libraries-reset_handle handle rs)

libraries-module_of :
    (p : Platform) (library : ℕ) (rs : List RplHandling)
    → libraries (module_of p library rs).1 ≡ libraries rs
unfolding module_of
libraries-module_of p library [] = refl
libraries-module_of p library (r ∷ rs) = ground (arith, libraries-module_of p library rs)

libraries-reset_handles : (rs : List RplHandling) → libraries (reset_handles rs) ≡ libraries rs
unfolding reset_handles
libraries-reset_handles [] = refl
libraries-reset_handles (r ∷ rs) = ap (◌∷◌ (r.library, r.rplname)) (libraries-reset_handles rs)

reset_handle-found :
    (handle : ℕ) (rs : List RplHandling) → (reset_handle handle rs).0 ≡ has_handle handle rs
unfolding reset_handle
reset_handle-found handle [] = refl
reset_handle-found handle (r ∷ rs) = ground (arith, reset_handle-found handle rs)

has_handle-reset_handle :
    (handle : ℕ) (rs : List RplHandling)
    → handle ≢ 0
    → IsDistinct rs
    → has_handle handle (reset_handle handle rs).1 ≡ false
unfolding reset_handle
has_handle-reset_handle handle [] h d = refl
has_handle-reset_handle handle (r ∷ rs) h d =
    ground (arith, has_handle-reset_handle handle rs h d.1, d.0)

get_type_for_handle-none :
    (p : Platform) (handle : ℕ) (rs : List RplHandling)
    → has_handle handle rs ≡ false
    → get_type_for_handle p handle rs ≡ p.library_code LibraryName.library_other
unfolding get_type_for_handle
get_type_for_handle-none p handle [] h = refl
get_type_for_handle-none p handle (r ∷ rs) h = ground (arith, get_type_for_handle-none p handle rs)

-- `resetHandle` of a handle that is not null reports whether the table had it; after it the table
-- has it no more, where it stood once at most, so `getTypeForHandle` reports LIBRARY_OTHER.
pub reset_handle_lem :
    (p : Platform) (handle : ℕ) (rs : List RplHandling)
    → handle ≢ 0
    → IsDistinct rs
    → ((reset_handle handle rs).0 ≡ has_handle handle rs)
      × (has_handle handle (reset_handle handle rs).1 ≡ false)
      × (get_type_for_handle p handle (reset_handle handle rs).1
          ≡ p.library_code LibraryName.library_other)
reset_handle_lem p handle rs h d = (
  reset_handle-found handle rs,
  has_handle-reset_handle handle rs h d,
  get_type_for_handle-none p handle (reset_handle handle rs).1
      (has_handle-reset_handle handle rs h d),
)

-- The table keeps its libraries and their names, in order, under a lookup and under both resets.
pub libraries_fixed :
    (p : Platform) (library handle : ℕ) (rs : List RplHandling)
    → (libraries (module_of p library rs).1 ≡ libraries rs)
      × (libraries (reset_handle handle rs).1 ≡ libraries rs)
      × (libraries (reset_handles rs) ≡ libraries rs)
libraries_fixed p library handle rs =
    (libraries-module_of p library rs, libraries-reset_handle handle rs, libraries-reset_handles rs)

-- A second lookup of a library gives the same module and changes the table no further, where the
-- loader hands out no handle for a module that it reports as not loaded.
module_of-module_of :
    (p : Platform)
    → ((name : Text) → (p.is_module_loaded name).0 ≡ false → (p.is_module_loaded name).1 ≡ 0)
    → (library : ℕ) (rs : List RplHandling)
    → module_of p library (module_of p library rs).1 ≡ module_of p library rs
unfolding module_of
module_of-module_of p honest library [] = refl
module_of-module_of p honest library (r ∷ rs) =
    ground (arith, honest r.rplname, module_of-module_of p honest library rs)
