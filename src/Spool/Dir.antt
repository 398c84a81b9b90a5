-- ===== src/Spool/Dir.antt =====
-- The spool directory as the operating system shows it, and listPending
-- (internal/spool/spool.go). An entry is a regular file with its bytes, or a directory.
pub mod Laws
pub mod Order
use mathlib.Core.List.{reverse}
use edge_gw_project.Prelude.{Bool, true, false, Option, none, some}
use edge_gw_project.Prelude.{List, [], ◌∷◌, Text, codes, text_eq, text_le, cut_prefix}
use edge_gw_project.Prelude.{if◌then◌else◌}

pub data DirEntry : Type 0 where
  file : Text → Text → DirEntry
  subdir : Text → DirEntry

-- `strings.HasSuffix`
unfoldable pub has_suffix : Text → Text → Bool
has_suffix s suffix = elim (cut_prefix (reverse suffix) (reverse s)) [
  | none ↦ false
  | some _ ↦ true
]

abbrev pub is_json : Text → Bool
is_json name = has_suffix name (codes ".json")

unfoldable pub read_file : Text → List DirEntry → Option Text
read_file name [] = none
read_file name (subdir d ∷ dir) = read_file name dir
read_file name (file n bytes ∷ dir) =
    let rest = read_file name dir in if text_eq name n then some bytes else rest

unfoldable pub remove_file : Text → List DirEntry → List DirEntry
remove_file name [] = []
remove_file name (subdir d ∷ dir) = subdir d ∷ remove_file name dir
remove_file name (file n bytes ∷ dir) =
    let rest = remove_file name dir in if text_eq name n then rest else file n bytes ∷ rest

-- Creates the file, or replaces the one of that name, as a rename does.
unfoldable pub put_file : Text → Text → List DirEntry → List DirEntry
unfolding remove_file
put_file name bytes dir = file name bytes ∷ remove_file name dir

-- The loop of listPending over the entries.
unfoldable pub pending_names : List DirEntry → List Text
unfolding has_suffix
pending_names [] = []
pending_names (subdir d ∷ dir) = pending_names dir
pending_names (file n bytes ∷ dir) =
    let rest = pending_names dir in if is_json n then n ∷ rest else rest

-- `sort.Strings`
unfoldable pub insert_name : Text → List Text → List Text
insert_name x [] = x ∷ []
insert_name x (y ∷ ys) = let rest = insert_name x ys in if text_le x y then x ∷ y ∷ ys else y ∷ rest

unfoldable pub sort_names : List Text → List Text
unfolding insert_name
sort_names [] = []
sort_names (x ∷ xs) = insert_name x (sort_names xs)

-- The names of the waiting signals, in the order of their bytes.
unfoldable pub list_pending : List DirEntry → List Text
unfolding pending_names sort_names
list_pending dir = sort_names (pending_names dir)
