-- ===== src/Examples/Spools.antt =====
-- A small spool (internal/spool/spool.go) and deliveries (internal/adapters/outbound.go).
use edge_gw_project.Prelude.{
  ℕ, ◌+◌, ◌≤◌, ◌≡◌, refl, inl, inr, Bool, true, false, Option, none, some, List, [], ◌∷◌, Text,
  codes, arith,
}
use edge_gw_project.Prelude.{Among, length, text_eq, text_le, cut_prefix}
use edge_gw_project.Spool.Name.{spool_name, parse_spool_time, pad_decimal}
use edge_gw_project.Spool.Dir.{
  DirEntry, file, subdir, read_file, pending_names, list_pending, has_suffix, sort_names,
  insert_name,
}
use edge_gw_project.Spool.Queue.{
  Hook, Spool, EnqueueFaults, enqueue, forward_oldest, reserve, after_reserve, commit, after_commit,
  sync_directory, write_temp_file,
}
use edge_gw_project.Spool.System.{System, here, next, forwarded}
use edge_gw_project.Spool.Kept.{Kept}
use edge_gw_project.Spool.Commit.{is_committed}
use edge_gw_project.Spool.Durability.{accepted_never_lost}
use edge_gw_project.Spool.Outcome.{
  HeadFate, all_well, forward_oldest-HeadFate, enqueue_failed_unchanged,
}
use edge_gw_project.Spool.Name.Laws.{parse-spool_name}
use edge_gw_project.Spool.Dir.Laws.{HasUniqueNames}
use edge_gw_project.Spool.Dir.Order.{head_is_oldest}

-- The world is the list of the payloads that the destination has confirmed.
abbrev pub World : Type 0
World = List Text

abbrev pub no_hooks : Hook → World → World
no_hooks h w = w

abbrev pub never_permanent : ℕ → Bool
never_permanent e = false

-- Accepts everything.
abbrev pub accept : Text → World → Option ℕ × World
accept p w = (none, p ∷ w)

abbrev pub IsConfirmed : Text → World → Type 0
IsConfirmed p w = Among p w

abbrev pub all_good : EnqueueFaults
all_good = record {
  open_ok = true;
  write_ok = true;
  sync_file_ok = true;
  close_ok = true;
  rename_ok = true;
  sync_dir_ok = true;
}

abbrev pub no_room : EnqueueFaults
no_room = record {
  open_ok = true;
  write_ok = false;
  sync_file_ok = true;
  close_ok = true;
  rename_ok = true;
  sync_dir_ok = true;
}

abbrev pub empty_spool : Spool World
empty_spool = record {
  dir = subdir (codes "dead") ∷ [];
  dead = [];
  max_depth = 2;
  depth = 0;
  seq = 0;
  oldest_pending_at = none;
  wake = false;
  dir_fsync_failures = 0;
  fsync_enabled = true;
  world = [];
}

abbrev pub signal : Text
signal = codes "{}"

abbrev pub filled_spool : Spool World
filled_spool = record empty_spool {
  dir = file (spool_name 7 1) signal ∷ subdir (codes "dead") ∷ [];
  depth = 1;
  seq = 1;
}

abbrev pub filled : System World
filled = record { spool = (enqueue no_hooks all_good 7 signal empty_spool).1; in_flight = [] }

abbrev drained : System World
drained = record {
  spool = (forward_oldest no_hooks never_permanent accept all_well 9 filled.spool).1;
  in_flight = [];
}

pub accepted : is_committed (enqueue no_hooks all_good 7 signal empty_spool).0 ≡ true
unfolding enqueue is_committed reserve after_reserve commit after_commit sync_directory
    write_temp_file
accepted = refl

accepted_never_lost_example : Kept IsConfirmed (spool_name 7 1) signal drained.spool
accepted_never_lost_example =
    accepted_never_lost no_hooks never_permanent accept (λ w. Unit) (λ h w g. tt) (λ p w g. tt)
      IsConfirmed (λ p w g e. inl refl) (λ p q w g k. inr k) (λ p h w k. k) all_good 7 signal
      empty_spool [] accepted (next here (forwarded all_well 9 refl)) tt

parse-spool_name_example :
    parse_spool_time (spool_name 1700000000000000000 12) ≡ some 1700000000000000000
parse-spool_name_example = parse-spool_name 1700000000000000000 12 (omega arith)

-- One request has reserved its room, and then the forwarder looks.
abbrev reserved_one : System World
reserved_one = record {
  spool = (reserve no_hooks 8 filled_spool).1;
  in_flight = record { nanos = 8; number = 2; payload = signal } ∷ [];
}

abbrev looked_at : System World
looked_at = record {
  spool = (forward_oldest no_hooks never_permanent accept all_well 9 reserved_one.spool).1;
  in_flight = reserved_one.in_flight;
}

one_pending : length (pending_names filled_spool.dir) ≡ 1
unfolding pending_names has_suffix cut_prefix spool_name pad_decimal
one_pending = refl

pub alone : HasUniqueNames filled_spool.dir
unfolding read_file
alone = (refl, tt)

counted_one : 1 ≡ length (pending_names filled_spool.dir) + 0
counted_one = omega (arith, one_pending)

pub one_listed : list_pending filled_spool.dir ≡ spool_name 7 1 ∷ []
unfolding list_pending pending_names has_suffix cut_prefix spool_name pad_decimal sort_names
    insert_name
one_listed = refl

pub one_read : read_file (spool_name 7 1) filled_spool.dir ≡ some signal
unfolding read_file spool_name pad_decimal text_eq
one_read = refl

forward_oldest-HeadFate_example :
    HeadFate false none
      (spool_name 7 1)
      signal
      filled_spool
      (forward_oldest no_hooks never_permanent accept all_well 9 filled_spool)
forward_oldest-HeadFate_example =
    forward_oldest-HeadFate no_hooks never_permanent accept 9 (spool_name 7 1) signal []
      filled_spool one_listed one_read

not_accepted : is_committed (enqueue no_hooks no_room 8 signal filled_spool).0 ≡ false
unfolding enqueue is_committed reserve after_reserve commit after_commit sync_directory
    write_temp_file
not_accepted = refl

enqueue_failed_unchanged_example :
    (pending_names (enqueue no_hooks no_room 8 signal filled_spool).1.dir
      ≡ pending_names filled_spool.dir)
    × ((enqueue no_hooks no_room 8 signal filled_spool).1.depth ≡ 1)
enqueue_failed_unchanged_example =
    enqueue_failed_unchanged no_hooks no_room 8 signal filled_spool not_accepted

abbrev two_files : List DirEntry
two_files = file (spool_name 7 1) signal ∷ file (spool_name 5 2) signal ∷ []

two_listed : list_pending two_files ≡ spool_name 5 2 ∷ spool_name 7 1 ∷ []
unfolding list_pending pending_names has_suffix cut_prefix spool_name pad_decimal sort_names
    insert_name text_le
two_listed = refl

other_waits : Among (spool_name 7 1) (pending_names two_files)
unfolding pending_names has_suffix cut_prefix spool_name pad_decimal
other_waits = inl refl

head_is_oldest_example : 5 ≤ 7
head_is_oldest_example =
    head_is_oldest two_files 5 2 7 1 (spool_name 7 1 ∷ []) (omega arith) (omega arith) two_listed
      other_waits
