-- ===== src/Spool/Disk/Survival.antt =====
-- A signal that Enqueue has accepted survives a power loss (internal/spool/spool.go).
use mathlib.Core.Path.{subst}
use edge_gw_project.Prelude.{
  ℕ, ◌+◌, ◌≡◌, refl, ap, ◌∙◌, inl, inr, Bool, true, false, none, some, List, [], ◌∷◌, Text, Among,
  All, Bool-cases, arith, text_eq, text_eq→eq, leb,
}
use edge_gw_project.Spool.Name.{spool_name}
use edge_gw_project.Spool.Dir.{
  DirEntry, file, subdir, is_json, read_file, pending_names, list_pending,
}
use edge_gw_project.Spool.Dir.Order.{Among-list_pending}
use edge_gw_project.Spool.Commit.{reserve_room, refused_full, spool_name_json}
use edge_gw_project.Spool.Disk.Refines.{enqueue_calls-answer}
use edge_gw_project.Spool.Queue.{Hook, Spool, EnqueueFaults, temp_name, enqueue, after_reserve}
use edge_gw_project.Spool.Disk.{
  Node, Entries, find, drop, Call, create, write, sync_file, rename, remove, sync_dir, change, Disk,
  perform, perform_all, IsRemnant, write_temp_calls, sync_dir_calls, enqueue_calls,
}
use edge_gw_project.Spool.Disk.Laws.{find-put_self, Avoids, AllAvoid, find-change, perform-entries}

-- The calls of one request among those of others, each in their order.
pub data Interleaves : List Call → List Call → List Call → Type 0 where
  done : Interleaves [] [] []
  mine :
      {c : Call} {cs os all : List Call} → Interleaves cs os all → Interleaves (c ∷ cs) os (c ∷ all)
  other :
      {o : Call} {cs os all : List Call} → Interleaves cs os all → Interleaves cs (o ∷ os) (o ∷ all)

abbrev Holds : Text → Node → Disk → Type 0
Holds n f d = find n d.entries ≡ some f

-- The file is there at each of the times that a power loss may bring back.
abbrev pub IsDurable : Text → Node → Disk → Type 0
IsDurable n f d = All (λ e. find n e ≡ some f) (d.entries ∷ d.past)

Holds-perform :
    (n : Text) (f : Node) (c : Call) (d : Disk) → Avoids n c → Holds n f d → Holds n f (perform c d)
Holds-perform n f c d a h = ap (find n) (perform-entries c d) ∙ find-change n c d.entries a ∙ h

IsDurable-perform :
    (n : Text) (f : Node) (c : Call) (d : Disk)
    → Avoids n c
    → IsDurable n f d
    → IsDurable n f (perform c d)
unfolding perform
IsDurable-perform n f sync_dir d a (h, p) = (h, tt)
IsDurable-perform n f (create m) d a (h, p) = (find-change n (create m) d.entries a ∙ h, (h, p))
IsDurable-perform n f (write m b) d a (h, p) = (find-change n (write m b) d.entries a ∙ h, (h, p))
IsDurable-perform n f (sync_file m) d a (h, p) =
    (find-change n (sync_file m) d.entries a ∙ h, (h, p))
IsDurable-perform n f (rename m k) d a (h, p) = (find-change n (rename m k) d.entries a ∙ h, (h, p))
IsDurable-perform n f (remove m) d a (h, p) = (find-change n (remove m) d.entries a ∙ h, (h, p))

module _ (name tmp payload : Text) where
  abbrev node : Bool → Node
  node synced = record { bytes = payload; synced = synced }

  abbrev accepted_calls : List Call
  accepted_calls = create tmp ∷ write tmp payload ∷ sync_file tmp ∷ rename tmp name ∷ sync_dir ∷ []

  -- What the disk holds when these calls of an accepted request are still to come.
  data Stage (d : Disk) : List Call → Type 0 where
    at_start : Stage d accepted_calls
    created : Stage d (write tmp payload ∷ sync_file tmp ∷ rename tmp name ∷ sync_dir ∷ [])
    written : Holds tmp (node false) d → Stage d (sync_file tmp ∷ rename tmp name ∷ sync_dir ∷ [])
    synced : Holds tmp (node true) d → Stage d (rename tmp name ∷ sync_dir ∷ [])
    renamed : Holds name (node true) d → Stage d (sync_dir ∷ [])
    durable : IsDurable name (node true) d → Stage d []

  -- The request's next call.
  Stage-mine : (d : Disk) {c : Call} {cs : List Call} → Stage d (c ∷ cs) → Stage (perform c d) cs
  unfolding perform change
  Stage-mine d at_start = created
  Stage-mine d created = written (find-put_self tmp (node false) d.entries)
  Stage-mine d (written h) = synced (rw (h, change) (find-put_self tmp (node true) d.entries))
  Stage-mine d (synced h) =
      renamed (rw (h, change) (find-put_self name (node true) (drop tmp d.entries)))
  Stage-mine d (renamed h) = durable (h, tt)

  -- A call of another.
  Stage-other :
      (d : Disk) (o : Call) {cs : List Call}
      → Avoids name o
      → Avoids tmp o
      → Stage d cs
      → Stage (perform o d) cs
  Stage-other d o a b at_start = at_start
  Stage-other d o a b created = created
  Stage-other d o a b (written h) = written (Holds-perform tmp (node false) o d b h)
  Stage-other d o a b (synced h) = synced (Holds-perform tmp (node true) o d b h)
  Stage-other d o a b (renamed h) = renamed (Holds-perform name (node true) o d a h)
  Stage-other d o a b (durable h) = durable (IsDurable-perform name (node true) o d a h)

  Stage-perform_all :
      (d : Disk) {cs os all : List Call}
      → Interleaves cs os all
      → AllAvoid name os
      → AllAvoid tmp os
      → Stage d cs
      → Stage (perform_all all d) []
  unfolding perform_all
  Stage-perform_all d done a b st = st
  Stage-perform_all d (mine {c} i) a b st = Stage-perform_all (perform c d) i a b (Stage-mine d st)
  Stage-perform_all d (other {o} i) (a, as') (b, bs) st =
      Stage-perform_all (perform o d) i as' bs (Stage-other d o a b st)

  Stage-IsDurable : {d : Disk} → Stage d [] → IsDurable name (node true) d
  Stage-IsDurable (durable h) = h

  -- An answer of success, with fsync on, has made these calls.
  accepted_calls_lem :
      (x : EnqueueFaults) (failures : ℕ) (part : Text)
      → tmp ≡ temp_name name
      → (enqueue_calls x true failures name payload part).0 ≡ none
      → (enqueue_calls x true failures name payload part).1 ≡ accepted_calls
  unfolding enqueue_calls write_temp_calls sync_dir_calls
  accepted_calls_lem x failures part t h = ground arith

All-Among :
    (n : Text) (f : Node) (e : Entries) (versions : List Entries)
    → All (λ v. find n v ≡ some f) versions
    → Among e versions
    → find n e ≡ some f
All-Among n f e [] a m = elim m [ ]
All-Among n f e (v ∷ versions) (h, a) (inl same) = ap (find n) same ∙ h
All-Among n f e (v ∷ versions) (h, a) (inr m) = All-Among n f e versions a m

remnant-read :
    (n payload : Text) (d : Disk) (dir : List DirEntry)
    → IsDurable n (record { bytes = payload; synced = true }) d
    → IsRemnant d dir
    → read_file n dir ≡ some payload
remnant-read n payload d dir h left =
    let (e, among, at) = left n in
    let here = All-Among n _ e (d.entries ∷ d.past) h among in
    elim at [
      | inl (absent, _) ↦ cc
      | inr (f, bytes, there, read, same) ↦
          let f_is : f ≡ record { bytes = payload; synced = true } = cc in
          read ∙ ap some (same (ap (λ g. g.synced) f_is) ∙ ap (λ g. g.bytes) f_is)
    ]

pending_of_read :
    (n bytes : Text) (dir : List DirEntry)
    → is_json n ≡ true
    → read_file n dir ≡ some bytes
    → Among n (pending_names dir)
unfolding pending_names read_file
pending_of_read n bytes [] j h = cc
pending_of_read n bytes (subdir d ∷ dir) j h = pending_of_read n bytes dir j h
pending_of_read n bytes (file m b ∷ dir) j h = elim (Bool-cases (text_eq n m)) [
  | inl e ↦ rw (← text_eq→eq n m e, j) (inl refl)
  | inr e ↦
      let further = pending_of_read n bytes dir j (rw e at h) in
      elim (Bool-cases (is_json m)) [ inl k ↦ rw k (inr further) | inr k ↦ rw k further ]
]

module _ {W : Type 0} (hooks : Hook → W → W) (x : EnqueueFaults) (now : ℕ) (payload part : Text)
    (s : Spool W) where
  abbrev name : Text
  name = spool_name now (s.seq + 1)

  success :
      s.fsync_enabled ≡ true
      → (enqueue hooks x now payload s).0 ≡ none
      → (enqueue_calls x true s.dir_fsync_failures name payload part).0 ≡ none
  unfolding enqueue after_reserve
  success fsync ok = elim (Bool-cases (leb s.max_depth s.depth)) [
    | inl full ↦ cc (rw (refused_full hooks x now payload s full) at ok)
    | inr room ↦
        let reserved = reserve_room hooks now s room in
        rw (← fsync) (
          enqueue_calls-answer hooks x name payload part
            (record s { depth = s.depth + 1; seq = s.seq + 1 })
          ∙ (rw (reserved, after_reserve) at ok))
  ]

  -- With fsync on: a signal that Enqueue has accepted survives a power loss. Whatever calls of
  -- others came before, between and after the system calls of this Enqueue, as long as none of
  -- them names its file or its temporary file, and whatever the power loss brings back of the
  -- times since the directory's last fsync, the file is there with the payload, and listPending
  -- lists it.
  pub accepted_survives_power_loss :
      (d : Disk) {others all : List Call} (dir : List DirEntry)
      → s.fsync_enabled ≡ true
      → (enqueue hooks x now payload s).0 ≡ none
      → Interleaves (enqueue_calls x true s.dir_fsync_failures name payload part).1 others all
      → AllAvoid name others
      → AllAvoid (temp_name name) others
      → IsRemnant (perform_all all d) dir
      → (read_file name dir ≡ some payload) × Among name (list_pending dir)
  unfolding list_pending
  accepted_survives_power_loss d {others} {all} dir fsync ok i a b left =
      let calls =
        accepted_calls_lem name (temp_name name) payload x s.dir_fsync_failures part refl
          (success fsync ok) in
      let stage =
        Stage-perform_all name (temp_name name) payload d
          (subst (λ c. Interleaves c others all) calls i) a b at_start in
      let read =
        remnant-read name payload (perform_all all d) dir
          (Stage-IsDurable name (temp_name name) payload stage) left in
      (
        read,
        Among-list_pending name (pending_names dir)
            (pending_of_read name payload dir (spool_name_json now (s.seq + 1)) read),
      )
