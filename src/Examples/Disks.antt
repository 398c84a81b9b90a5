-- ===== src/Examples/Disks.antt =====
-- The system calls of Enqueue on a small disk (internal/spool/spool.go).
use edge_gw_project.Prelude.{
  ◌≡◌, ◌≢◌, refl, sym, inl, inr, true, none, some, List, [], ◌∷◌, Text, codes, Among, text_eq,
  ne_of_text_eq, Bool-cases,
}
use edge_gw_project.Spool.Name.{spool_name, pad_decimal}
use edge_gw_project.Spool.Dir.{DirEntry, file, read_file, list_pending}
use edge_gw_project.Spool.Queue.{
  enqueue, reserve, after_reserve, commit, after_commit, sync_directory, write_temp_file, temp_name,
}
use edge_gw_project.Spool.Disk.{
  Node, find, drop, put, Call, create, write, sync_file, rename, remove, sync_dir, change, Disk,
  perform, perform_all, IsRemnant, enqueue_calls, write_temp_calls, sync_dir_calls,
}
use edge_gw_project.Spool.Disk.Refines.{IsShown, enqueue_calls_refine}
use edge_gw_project.Spool.Disk.Survival.{
  Interleaves, done, mine, other, accepted_survives_power_loss,
}
use edge_gw_project.Examples.Spools.{no_hooks, all_good, no_room, empty_spool, signal}

abbrev name : Text
name = spool_name 7 1

abbrev blank : Disk
blank = record { entries = []; past = [] }

-- A write that fails after one byte.
enqueue_calls_refine_example :
    ((enqueue_calls no_room true 0 name signal (codes "{")).0
      ≡ (after_commit no_hooks no_room (commit no_hooks no_room name signal empty_spool)).0)
    × IsShown
        (perform_all (enqueue_calls no_room true 0 name signal (codes "{")).1 blank).entries
        (after_commit no_hooks no_room (commit no_hooks no_room name signal empty_spool)).1.dir
unfolding find read_file
enqueue_calls_refine_example =
    enqueue_calls_refine no_hooks no_room name signal (codes "{") empty_spool blank (λ m. refl)

-- Another request has the directory synced first, and the forwarder removes an older signal.
abbrev others : List Call
others = sync_dir ∷ remove (spool_name 5 0) ∷ []

abbrev tmp : Text
tmp = temp_name name

abbrev all_calls : List Call
all_calls =
    sync_dir
    ∷ create tmp
    ∷ write tmp signal
    ∷ sync_file tmp
    ∷ rename tmp name
    ∷ sync_dir
    ∷ remove (spool_name 5 0)
    ∷ []

in_turn : Interleaves (enqueue_calls all_good true 0 name signal []).1 others all_calls
unfolding enqueue_calls write_temp_calls sync_dir_calls
in_turn = other (mine (mine (mine (mine (mine (other done))))))

not_it : name ≢ spool_name 5 0
unfolding text_eq spool_name pad_decimal
not_it = ne_of_text_eq name (spool_name 5 0) refl

tmp_not_it : tmp ≢ spool_name 5 0
unfolding text_eq spool_name pad_decimal
tmp_not_it = ne_of_text_eq tmp (spool_name 5 0) refl

abbrev whole : Node
whole = record { bytes = signal; synced = true }

abbrev dir : List DirEntry
dir = file name signal ∷ []

entries : (perform_all all_calls blank).entries ≡ (name, whole) ∷ []
unfolding perform_all perform change put drop find text_eq spool_name pad_decimal
entries = refl

remnant : IsRemnant (perform_all all_calls blank) dir
unfolding find read_file
remnant n = elim (Bool-cases (text_eq n name)) [
  | inl e ↦
      ((name, whole) ∷ [], inl (sym entries), inr (whole, signal, rw e refl, rw e refl, λ s. refl))
  | inr e ↦ ((name, whole) ∷ [], inl (sym entries), inl (rw e refl, rw e refl))
]

ok : (enqueue no_hooks all_good 7 signal empty_spool).0 ≡ none
unfolding enqueue reserve after_reserve commit after_commit sync_directory write_temp_file
ok = refl

accepted_survives_power_loss_example :
    (read_file name dir ≡ some signal) × Among name (list_pending dir)
accepted_survives_power_loss_example =
    accepted_survives_power_loss no_hooks all_good 7 signal [] empty_spool blank dir refl ok in_turn
      (tt, (not_it, tt)) (tt, (tmp_not_it, tt)) remnant
