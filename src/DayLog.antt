-- ===== src/DayLog.antt =====
-- Files of newline-delimited records, one for each UTC day: internal/dirsync/dirsync.go, and the
-- part that internal/auditlog/auditlog.go (Record) and cmd/gateway/sink.go (Forward) share.
-- A file has its bytes, how many of them an fsync has made durable, and whether its directory
-- entry is durable.
pub mod Files
pub mod Writes
pub mod Laws
pub mod Growth
pub mod Retry
pub mod PowerLoss
pub mod Survival
use edge_gw_project.Prelude.{ℕ, ◌+◌, Bool, true, false, Option, none, some, List, [], ◌∷◌}
use edge_gw_project.Prelude.{◌++◌, Text, text_eq, length, if◌then◌else◌}

pub record DayFile : Type 0 where
  pub bytes : Text
  pub synced : ℕ
  pub linked : Bool

abbrev pub Files : Type 0
Files = List (Text × DayFile)

unfoldable pub find_file : Text → Files → Option DayFile
find_file path [] = none
find_file path ((p, f) ∷ files) =
    let rest = find_file path files in if text_eq path p then some f else rest

-- Replaces the file of that path.
unfoldable pub set_file : Text → DayFile → Files → Files
set_file path f [] = (path, f) ∷ []
set_file path f ((p, g) ∷ files) =
    let rest = set_file path f files in if text_eq path p then (path, f) ∷ files else (p, g) ∷ rest

-- An fsync of the directory makes every entry in it durable.
unfoldable pub link_all : Files → Files
link_all [] = []
link_all ((p, f) ∷ files) = (p, record f { linked = true }) ∷ link_all files

pub data DayError : Type 0 where
  open_failed dir_sync_failed write_failed sync_failed : DayError

-- The outcomes of the system calls of one append. A write that fails leaves `torn` behind.
pub record DayFaults : Type 0 where
  pub create_ok : Bool
  pub append_ok : Bool
  pub sync_dir_ok : Bool
  pub write_ok : Bool
  pub torn : Text
  pub sync_ok : Bool

-- The open file, by its path, the day it is for, and the directory.
pub record DayLog : Type 0 where
  pub files : Files
  pub day : Text
  pub handle : Option Text

abbrev pub new_file : DayFile
new_file = record { bytes = []; synced = 0; linked = false }

-- dirsync.OpenAppendFile: the files after it and whether it created the path, or a failure.
unfoldable pub open_append_file : DayFaults → Text → Files → Option (Files × Bool)
open_append_file x path files = elim (find_file path files) [
  | none ↦ if x.create_ok then some (set_file path new_file files, true) else none
  | some f ↦ if x.append_ok then some (files, false) else none
]

unfoldable pub sync_file : DayFaults → Text → DayFile → DayLog → Option DayError × DayLog
sync_file x path f d =
    if x.sync_ok
    then (none, record d { files = set_file path (record f { synced = length f.bytes }) d.files })
    else (some sync_failed, record d { files = set_file path f d.files })

-- The write of one record to the open file, and the file's fsync.
unfoldable pub write_line : DayFaults → Text → Text → DayLog → Option DayError × DayLog
write_line x path line d = elim (find_file path d.files) [
  | none ↦ (some write_failed, d)
  | some f ↦ if x.write_ok then sync_file x path (record f { bytes = f.bytes ++ line }) d else (
    some write_failed,
    record d { files = set_file path (record f { bytes = f.bytes ++ x.torn }) d.files },
  )
]

-- What follows the opening of a day's file.
unfoldable pub after_open :
    DayFaults → Text → Text → Text → Option (Files × Bool) → DayLog → Option DayError × DayLog
after_open x path day line none d = (some open_failed, record d { handle = none })
after_open x path day line (some (files, false)) d =
    write_line x path line (record d { files = files; day = day; handle = some path })
after_open x path day line (some (files, true)) d =
    if x.sync_dir_ok
    then write_line x path line (record d { files = link_all files; day = day; handle = some path })
    else (some dir_sync_failed, record d { files = files; day = day; handle = some path })

unfoldable pub is_open_for : Text → DayLog → Bool
is_open_for day d = elim d.handle [ none ↦ false | some p ↦ text_eq d.day day ]

-- One record for a day: the day's file is opened if it is not the open one.
unfoldable pub append : DayFaults → Text → Text → Text → DayLog → Option DayError × DayLog
unfolding is_open_for
append x path day line d =
    if is_open_for day d
    then write_line x path line d
    else after_open x path day line (open_append_file x path d.files) d

-- Close: the open file, if there is one, is closed, with or without an error.
unfoldable pub close : Bool → DayLog → Bool × DayLog
close close_ok d = elim d.handle [
  | none ↦ (true, d)
  | some p ↦ (close_ok, record d { handle = none })
]
