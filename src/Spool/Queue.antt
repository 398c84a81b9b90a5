-- ===== src/Spool/Queue.antt =====
-- The spool's state and its operations (internal/spool/spool.go): New, Enqueue, forwardOldest and
-- what they call. A system call that may fail takes its outcome from a record of Booleans. The
-- callbacks (Hooks, ForwardFunc) act on a world `W`, which the spool keeps beside its own fields.
use edge_gw_project.Prelude.{ℕ, ◌+◌, ◌-◌, Bool, true, false, Option, none, some}
use edge_gw_project.Prelude.{List, [], ◌∷◌, ◌++◌, Text, codes, length, leb, if◌then◌else◌}
use edge_gw_project.Spool.Name.{spool_name, parse_spool_time}
use edge_gw_project.Spool.Dir.{DirEntry, read_file, remove_file, put_file, list_pending}

-- A call of one of the Hooks. A waiting time is the enqueue time, if known, and the time now.
pub data Hook : Type 0 where
  on_delivered : Option ℕ → ℕ → Hook
  on_dead : Hook
  on_failed : Hook
  on_depth : ℕ → Hook
  on_oldest_pending_age : Option ℕ → ℕ → Hook
  on_dir_fsync_failure : Hook

pub data EnqueueError : Type 0 where
  spool_full create_failed write_failed fsync_failed close_failed commit_failed : EnqueueError
  dir_fsync_failed : ℕ → EnqueueError

pub data RunError (E : Type 0) : Type 0 where
  read_dir_failed : RunError E
  forward_failed : E → RunError E

pub record Spool (W : Type 0) : Type 0 where
  pub dir : List DirEntry
  pub dead : List DirEntry
  pub max_depth : ℕ
  pub depth : ℕ
  pub seq : ℕ
  pub oldest_pending_at : Option ℕ
  pub wake : Bool
  pub dir_fsync_failures : ℕ
  pub fsync_enabled : Bool
  pub world : W

-- The outcomes of the system calls of one Enqueue.
pub record EnqueueFaults : Type 0 where
  pub open_ok : Bool
  pub write_ok : Bool
  pub sync_file_ok : Bool
  pub close_ok : Bool
  pub rename_ok : Bool
  pub sync_dir_ok : Bool

-- The outcomes of the system calls of one forwardOldest.
pub record ForwardFaults : Type 0 where
  pub read_dir_ok : Bool
  pub read_file_ok : Bool
  pub remove_ok : Bool
  pub bury_ok : Bool

-- writeTempFile: the first step that fails, if one does.
unfoldable pub write_temp_file : EnqueueFaults → Bool → Option EnqueueError
write_temp_file x fsync =
    if x.open_ok
    then if x.write_ok
      then if fsync
        then if x.sync_file_ok
          then if x.close_ok then none else some close_failed
          else some fsync_failed
        else if x.close_ok
        then none
        else some close_failed
      else some write_failed
    else some create_failed

-- The enqueue time of the head; the epoch, where its name cannot be read.
unfoldable pub oldest_of : List Text → Option ℕ
oldest_of [] = none
oldest_of (name ∷ names) = elim (parse_spool_time name) [ none ↦ some 0 | some t ↦ some t ]

abbrev pub temp_name : Text → Text
temp_name name = name ++ codes ".tmp"

-- The bytes that os.ReadFile gives, if it can.
unfoldable pub read_head : {W : Type 0} → ForwardFaults → Text → Spool W → Option Text
read_head x name s = if x.read_file_ok then read_file name s.dir else none

module _ {W : Type 0} (hooks : Hook → W → W) where
  abbrev pub fire : Hook → Spool W → Spool W
  fire h s = record s { world = hooks h s.world }

  unfoldable pub report_depth : Spool W → Spool W
  report_depth s = fire (on_depth s.depth) s

  -- `depth - 1` stops at 0, as the guard in the source does.
  unfoldable pub dec_depth : Spool W → Spool W
  unfolding report_depth
  dec_depth s = report_depth (record s { depth = s.depth - 1 })

  unfoldable pub update_oldest_pending : List Text → ℕ → Spool W → Spool W
  unfolding oldest_of
  update_oldest_pending names now s =
      let t = oldest_of names in
      fire (on_oldest_pending_age t now) (record s { oldest_pending_at = t })

  -- The first locked section of Enqueue: room is reserved before any disk operation.
  unfoldable pub reserve : ℕ → Spool W → Option Text × Spool W
  reserve now s =
      if leb s.max_depth s.depth
      then (none, s)
      else (some (spool_name now (s.seq + 1)), record s { depth = s.depth + 1; seq = s.seq + 1 })

  -- Enqueue from the temporary file to the nudge of the forwarder.
  unfoldable pub commit : EnqueueFaults → Text → Text → Spool W → Option EnqueueError × Spool W
  unfolding dec_depth report_depth
  commit x name payload s =
      let cleaned = dec_depth (record s { dir = remove_file (temp_name name) s.dir }) in
      elim (write_temp_file x s.fsync_enabled) [
        | some e ↦ (some e, cleaned)
        | none ↦
            if x.rename_ok
            then (
              none,
              record (report_depth
                  (record s { dir = put_file name payload (remove_file (temp_name name) s.dir) })) {
                    wake = true;
                  },
            )
            else (some commit_failed, cleaned)
      ]

  -- The end of Enqueue: the directory's own fsync.
  unfoldable pub sync_directory : EnqueueFaults → Spool W → Option EnqueueError × Spool W
  sync_directory x s =
      if s.fsync_enabled
      then if x.sync_dir_ok then (none, record s { dir_fsync_failures = 0 }) else (
        some (dir_fsync_failed (s.dir_fsync_failures + 1)),
        fire on_dir_fsync_failure (record s { dir_fsync_failures = s.dir_fsync_failures + 1 }),
      )
      else (none, s)

  unfoldable pub after_commit :
      EnqueueFaults → Option EnqueueError × Spool W → Option EnqueueError × Spool W
  after_commit x (some e, s) = (some e, s)
  after_commit x (none, s) = sync_directory x s

  unfoldable pub after_reserve :
      EnqueueFaults → Text → Option Text × Spool W → Option EnqueueError × Spool W
  after_reserve x payload (none, s) = (some spool_full, s)
  after_reserve x payload (some name, s) = after_commit x (commit x name payload s)

  -- Enqueue, with no other call between its steps.
  unfoldable pub enqueue : EnqueueFaults → ℕ → Text → Spool W → Option EnqueueError × Spool W
  enqueue x now payload s = after_reserve x payload (reserve now s)

  -- deadLetter: the file moves to the directory `dead`, unless the rename fails.
  unfoldable pub dead_letter : ForwardFaults → Text → Spool W → Spool W
  unfolding dec_depth
  dead_letter x name s =
      if x.bury_ok
      then elim (read_file name s.dir) [
        | none ↦ s
        | some bytes ↦ fire on_dead (
            dec_depth
              (record s { dir = remove_file name s.dir; dead = put_file name bytes s.dead }))
      ]
      else s

  module _ {E : Type 0} (is_permanent : E → Bool) (forward : Text → W → Option E × W) where
    -- What follows the answer of `forward`, given the state that it left.
    unfoldable pub settle :
        ForwardFaults → ℕ → Text → Option E × Spool W → (Bool × Option (RunError E)) × Spool W
    unfolding dec_depth
    settle x now name (some e, s) =
        if is_permanent e
        then ((true, none), dead_letter x name s)
        else ((false, some (forward_failed e)), fire on_failed s)
    settle x now name (none, s) = (
      (true, none),
      fire (on_delivered (parse_spool_time name) now)
          (dec_depth (if x.remove_ok then record s { dir = remove_file name s.dir } else s)),
    )

    unfoldable pub send :
        ForwardFaults → ℕ → Text → Option Text → Spool W → (Bool × Option (RunError E)) × Spool W
    unfolding settle
    send x now name none s = ((true, none), dead_letter x name s)
    send x now name (some payload) s =
        let (answer, w) = forward payload s.world in
        settle x now name (answer, record s { world = w })

    unfoldable pub forward_head :
        ForwardFaults → ℕ → List Text → Spool W → (Bool × Option (RunError E)) × Spool W
    unfolding send read_head
    forward_head x now [] s = ((false, none), s)
    forward_head x now (name ∷ names) s = send x now name (read_head x name s) s

    -- forwardOldest: whether the queue advanced, and the error.
    unfoldable pub forward_oldest :
        ForwardFaults → ℕ → Spool W → (Bool × Option (RunError E)) × Spool W
    unfolding forward_head update_oldest_pending
    forward_oldest x now s =
        if x.read_dir_ok
        then (let names = list_pending s.dir in
            forward_head x now names (update_oldest_pending names now s))
        else ((false, some read_dir_failed), s)

  -- New: `read_dir_ok` tells whether the directory can be listed.
  unfoldable pub new : Bool → List DirEntry → List DirEntry → ℕ → Bool → ℕ → W → Option (Spool W)
  unfolding report_depth update_oldest_pending
  new read_dir_ok dir dead max_depth fsync_enabled now w =
      if read_dir_ok
      then (let pending = list_pending dir in
          some (
            update_oldest_pending pending now (
              report_depth (record {
                dir = dir;
                dead = dead;
                max_depth = max_depth;
                depth = length pending;
                seq = 0;
                oldest_pending_at = none;
                wake = false;
                dir_fsync_failures = 0;
                fsync_enabled = fsync_enabled;
                world = w;
              }))))
      else none
