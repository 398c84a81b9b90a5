-- ===== src/Spool/Disk.antt =====
-- Enqueue and writeTempFile as the system calls that they make (internal/spool/spool.go), on a
-- disk that remembers what a power loss may bring back: the directory as it was at any time since
-- its last fsync, and of a file with no fsync since its last write, any bytes.
pub mod Laws
pub mod Refines
pub mod Survival
use edge_gw_project.Prelude.{
  ℕ, ◌+◌, ◌≡◌, ◌⊎◌, Bool, true, false, Option, none, some, List, [], ◌∷◌, ◌++◌, Text, text_eq,
  Among, if◌then◌else◌,
}
use edge_gw_project.Spool.Dir.{DirEntry, read_file}
use edge_gw_project.Spool.Queue.{
  EnqueueFaults, EnqueueError, create_failed, write_failed, fsync_failed, close_failed,
  commit_failed, dir_fsync_failed, temp_name,
}

-- A file: its bytes, and whether an fsync has covered them.
pub record Node : Type 0 where
  pub bytes : Text
  pub synced : Bool

abbrev pub Entries : Type 0
Entries = List (Text × Node)

unfoldable pub find : Text → Entries → Option Node
find n [] = none
find n ((m, f) ∷ e) = let rest = find n e in if text_eq n m then some f else rest

unfoldable pub drop : Text → Entries → Entries
drop n [] = []
drop n ((m, f) ∷ e) = let rest = drop n e in if text_eq n m then rest else (m, f) ∷ rest

unfoldable pub put : Text → Node → Entries → Entries
unfolding drop
put n f e = (n, f) ∷ drop n e

-- A system call that succeeds, or the part of a write that failed.
pub data Call : Type 0 where
  create : Text → Call
  write : Text → Text → Call
  sync_file : Text → Call
  rename : Text → Text → Call
  remove : Text → Call
  sync_dir : Call

unfoldable pub change : Call → Entries → Entries
unfolding put find drop
change (create n) e = put n (record { bytes = []; synced = false }) e
change (write n bytes) e = put n (record { bytes = bytes; synced = false }) e
change (sync_file n) e = elim (find n e) [
  | none ↦ e
  | some f ↦ put n (record { bytes = f.bytes; synced = true }) e
]
change (rename n m) e = elim (find n e) [ none ↦ e | some f ↦ put m f (drop n e) ]
change (remove n) e = drop n e
change sync_dir e = e

-- The directory now, and as it was since its last fsync.
pub record Disk : Type 0 where
  pub entries : Entries
  pub past : List Entries

unfoldable pub perform : Call → Disk → Disk
unfolding change
perform sync_dir d = record { entries = d.entries; past = [] }
perform c d = record { entries = change c d.entries; past = d.entries ∷ d.past }

unfoldable pub perform_all : List Call → Disk → Disk
perform_all [] d = d
perform_all (c ∷ calls) d = perform_all calls (perform c d)

-- After a power loss, an entry is what it was at one of these times.
abbrev pub IsLeft : Text → Entries → List DirEntry → Type 0
IsLeft n e dir =
    ((find n e ≡ none) × (read_file n dir ≡ none))
    ⊎ ((f : Node) × (bytes : Text) × (find n e ≡ some f)
        × (read_file n dir ≡ some bytes)
        × (f.synced ≡ true → bytes ≡ f.bytes))

abbrev pub IsRemnant : Disk → List DirEntry → Type 0
IsRemnant d dir = (n : Text) → (e : Entries) × Among e (d.entries ∷ d.past) × IsLeft n e dir

-- writeTempFile: its error, and its calls. A failed write may have written a part.
unfoldable pub write_temp_calls :
    EnqueueFaults → Bool → Text → Text → Text → Option EnqueueError × List Call
write_temp_calls x fsync tmp payload part =
    if x.open_ok
    then if x.write_ok
      then if fsync
        then if x.sync_file_ok
          then (
            if x.close_ok then none else some close_failed,
            create tmp ∷ write tmp payload ∷ sync_file tmp ∷ [],
          )
          else (some fsync_failed, create tmp ∷ write tmp payload ∷ [])
        else (if x.close_ok then none else some close_failed, create tmp ∷ write tmp payload ∷ [])
      else (some write_failed, create tmp ∷ write tmp part ∷ [])
    else (some create_failed, [])

-- The fsync of the directory, after `failures` in a row that failed.
unfoldable pub sync_dir_calls : EnqueueFaults → Bool → ℕ → Option EnqueueError × List Call
sync_dir_calls x fsync failures =
    if fsync
    then if x.sync_dir_ok
      then (none, sync_dir ∷ [])
      else (some (dir_fsync_failed (failures + 1)), [])
    else (none, [])

-- Enqueue from the temporary file on.
unfoldable pub enqueue_calls :
    EnqueueFaults → Bool → ℕ → Text → Text → Text → Option EnqueueError × List Call
unfolding write_temp_calls sync_dir_calls
enqueue_calls x fsync failures name payload part =
    let (error, calls) = write_temp_calls x fsync (temp_name name) payload part in
    let (sync_error, sync_calls) = sync_dir_calls x fsync failures in
    elim error [
      | some e ↦ (some e, calls ++ remove (temp_name name) ∷ [])
      | none ↦
          if x.rename_ok
          then (sync_error, calls ++ rename (temp_name name) name ∷ sync_calls)
          else (some commit_failed, calls ++ remove (temp_name name) ∷ [])
    ]
