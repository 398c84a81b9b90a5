-- ===== src/Spool/Fifo/Replay.antt =====
-- The waiting signals are what the answers of the spool's calls make of a queue
-- (internal/spool/spool.go).
use edge_gw_project.Prelude.{
  ℕ, ◌≡◌, refl, sym, ap, ◌∙◌, inl, inr, Bool, true, false, Option, none, some, List, [], ◌∷◌, ◌++◌,
  Text, Bool-cases, Option-cases, text_eq_refl,
}
use edge_gw_project.Spool.Dir.{DirEntry, is_json, read_file, remove_file, list_pending}
use edge_gw_project.Spool.Dir.Laws.{
  HasUniqueNames, temp_not_json, read-remove_file, head_of_listing,
}
use edge_gw_project.Spool.Queue.{
  Hook, Spool, EnqueueError, EnqueueFaults, ForwardFaults, write_temp_file, temp_name, reserve,
  commit, dec_depth, dead_letter, settle, send, forward_head, forward_oldest, read_head,
  update_oldest_pending,
}
use edge_gw_project.Spool.System.{
  System, job_name, Step, Reach, reserved, committed, synced, forwarded, here, next,
}
use edge_gw_project.Spool.Kept.{ne_of_json}
use edge_gw_project.Spool.Commit.{spool_name_json}
use edge_gw_project.Spool.Fifo.{
  Item, contents, queue_of, offer, QueueOp, joins, leaves, without_name, do_op, replay,
}
use edge_gw_project.Spool.Fifo.Sorting.{queue_of-remove, queue_of-remove_other, queue_of-put}
use edge_gw_project.Spool.Fifo.Steps.{sync-dir, Step-IsMoved}

-- A call that has answered with no error has put its signal into the queue.
abbrev pub joined : Option EnqueueError → Item → List QueueOp
joined none x = joins x ∷ []
joined (some e) x = []

-- A round that has advanced has taken the first signal out.
abbrev pub left : Bool → List Item → List QueueOp
left false q = []
left true [] = []
left true (x ∷ q) = leaves x.0 ∷ []

module _ {W : Type 0} (hooks : Hook → W → W) where
  commit-queue :
      (x : EnqueueFaults) (n p : Text) (s : Spool W)
      → is_json n ≡ true
      → read_file n s.dir ≡ none
      → queue_of (commit hooks x n p s).1.dir
        ≡ replay (joined (commit hooks x n p s).0 (n, p)) (queue_of s.dir)
  unfolding commit replay do_op dec_depth
  commit-queue x n p s j fresh = elim (Option-cases (write_temp_file x s.fsync_enabled)) [
    | inl e ↦ elim (Bool-cases x.rename_ok) [
      | inl r ↦ rw (e, r, commit) (queue_of-put n p _ j absent ∙ ap (offer (n, p)) same)
      | inr r ↦ rw (e, r, commit) same
    ]
    | inr (f, e) ↦ rw (e, commit) same
  ]
    where
      same : queue_of (remove_file (temp_name n) s.dir) ≡ queue_of s.dir
      same = queue_of-remove_other (temp_name n) s.dir (temp_not_json n)

      absent : read_file n (remove_file (temp_name n) s.dir) ≡ none
      absent =
          read-remove_file (temp_name n) n s.dir (ne_of_json n (temp_name n) j (temp_not_json n))
          ∙ fresh

  -- The first signal leaves.
  taken :
      (n : Text) (names : List Text) (dir : List DirEntry)
      → HasUniqueNames dir
      → list_pending dir ≡ n ∷ names
      → queue_of (remove_file n dir) ≡ replay (left true (queue_of dir)) (queue_of dir)
  unfolding queue_of contents replay do_op without_name
  taken n names dir u e = rw (e, contents) (rw (text_eq_refl n) (queue_of-remove n names dir u e))

  module _ {E : Type 0} (is_permanent : E → Bool) (forward : Text → W → Option E × W) where
    buried :
        (x : ForwardFaults) (n : Text) (names : List Text) (s : Spool W)
        → HasUniqueNames s.dir
        → list_pending s.dir ≡ n ∷ names
        → x.bury_ok ≡ true
        → queue_of (dead_letter hooks x n s).dir
          ≡ replay (left true (queue_of s.dir)) (queue_of s.dir)
    unfolding dead_letter dec_depth
    buried x n names s u e b =
        let (j, (p, r)) = head_of_listing s.dir n names e in
        rw (b, r, dead_letter) (taken n names s.dir u e)

    settled :
        (x : ForwardFaults) (now : ℕ) (n : Text) (names : List Text) (a : Option E) (s : Spool W)
        → HasUniqueNames s.dir
        → list_pending s.dir ≡ n ∷ names
        → x.remove_ok ≡ true
        → x.bury_ok ≡ true
        → queue_of (settle hooks is_permanent forward x now n (a, s)).1.dir
          ≡ replay
              (left (settle hooks is_permanent forward x now n (a, s)).0.0 (queue_of s.dir))
              (queue_of s.dir)
    unfolding settle dec_depth replay
    settled x now n names none s u e k b = rw (k, settle) (taken n names s.dir u e)
    settled x now n names (some f) s u e k b = elim (Bool-cases (is_permanent f)) [
      | inl p ↦ rw (p, settle) (buried x n names s u e b)
      | inr p ↦ rw (p, settle) refl
    ]

    sent-queue :
        (x : ForwardFaults) (now : ℕ) (n : Text) (names : List Text) (o : Option Text) (s : Spool W)
        → HasUniqueNames s.dir
        → list_pending s.dir ≡ n ∷ names
        → x.remove_ok ≡ true
        → x.bury_ok ≡ true
        → queue_of (send hooks is_permanent forward x now n o s).1.dir
          ≡ replay
              (left (send hooks is_permanent forward x now n o s).0.0 (queue_of s.dir))
              (queue_of s.dir)
    unfolding send
    sent-queue x now n names none s u e k b = buried x n names s u e b
    sent-queue x now n names (some p) s u e k b =
        settled x now n names (forward p s.world).0 (record s { world = (forward p s.world).1 }) u e
          k b

    forward_oldest-queue :
        (x : ForwardFaults) (now : ℕ) (s : Spool W)
        → HasUniqueNames s.dir
        → x.remove_ok ≡ true
        → x.bury_ok ≡ true
        → queue_of (forward_oldest hooks is_permanent forward x now s).1.dir
          ≡ replay
              (left (forward_oldest hooks is_permanent forward x now s).0.0 (queue_of s.dir))
              (queue_of s.dir)
    unfolding forward_oldest forward_head read_head update_oldest_pending replay
    forward_oldest-queue x now s u k b = elim (Bool-cases x.read_dir_ok) [
      | inr r ↦ simp (r, forward_oldest)
      | inl r ↦ simp (r, forward_oldest) (head_goes (list_pending s.dir) refl)
    ]
      where
        head_goes :
            (names : List Text)
            → list_pending s.dir ≡ names
            → let t =
                forward_head hooks is_permanent forward x now names
                  (update_oldest_pending hooks names now s) in
              queue_of t.1.dir ≡ replay (left t.0.0 (queue_of s.dir)) (queue_of s.dir)
        head_goes [] e = refl
        head_goes (n ∷ names) e =
            sent-queue x now n names _ (update_oldest_pending hooks (n ∷ names) now s) u e k b

    -- The forwarder's removals and burials succeed in this step.
    abbrev pub Clears : {t v : System W} → Step hooks is_permanent forward t v → Type 0
    Clears (reserved now p room e) = Unit
    Clears (committed x j before after i fresh e) = Unit
    Clears (synced x e) = Unit
    Clears (forwarded x now e) = (x.remove_ok ≡ true) × (x.bury_ok ≡ true)

    abbrev pub AllClear : {t v : System W} → Reach hooks is_permanent forward t v → Type 0
    AllClear here = Unit
    AllClear (next r st) = AllClear r × Clears st

    -- What the answers of a step tell the queue.
    abbrev pub told : {t v : System W} → Step hooks is_permanent forward t v → List QueueOp
    told (reserved now p room e) = []
    told {t} (committed x j before after i fresh e) =
        joined (commit hooks x (job_name j) j.payload t.spool).0 (job_name j, j.payload)
    told (synced x e) = []
    told {t} (forwarded x now e) =
        left (forward_oldest hooks is_permanent forward x now t.spool).0.0 (queue_of t.spool.dir)

    -- The answers of a run, the last first.
    abbrev pub log : {t v : System W} → Reach hooks is_permanent forward t v → List QueueOp
    log here = []
    log (next r st) = told st ++ log r

    replay-append : (a b : List QueueOp) (q : List Item) → replay (a ++ b) q ≡ replay a (replay b q)
    unfolding replay
    replay-append [] b q = refl
    replay-append (o ∷ a) b q = ap (do_op o) (replay-append a b q)

    Step-queue :
        {t v : System W} (st : Step hooks is_permanent forward t v)
        → Clears st
        → HasUniqueNames t.spool.dir
        → queue_of v.spool.dir ≡ replay (told st) (queue_of t.spool.dir)
    unfolding reserve replay job_name
    Step-queue (reserved now p room e) k u = rw (e, room) refl
    Step-queue {t} (committed x j before after i (fresh, _) e) k u =
        rw e
          (commit-queue x (job_name j) j.payload t.spool (spool_name_json j.nanos j.number) fresh)
    Step-queue {t} (synced x e) k u = rw e (rw (sync-dir hooks x t.spool) refl)
    Step-queue {t} (forwarded x now e) (k, b) u = rw e (forward_oldest-queue x now t.spool u k b)

    kept_apart :
        {t v : System W}
        → Reach hooks is_permanent forward t v
        → HasUniqueNames t.spool.dir
        → HasUniqueNames v.spool.dir
    kept_apart here u = u
    kept_apart (next r st) u = (Step-IsMoved hooks is_permanent forward st (kept_apart r u)).0

    -- In a directory whose names are apart, as long as names stay fresh and the forwarder's removals
    -- and renames succeed, whatever else fails: the waiting signals with their payloads, in the order
    -- of their names, are what a queue is that has been told the answers of the calls alone. A commit
    -- that answers with no error has put its signal in at the place of its name, and one that fails
    -- nothing; a round that reports that it has advanced has taken the first signal out, and another
    -- round nothing. A round of the forwarder is one step, between those of the requests.
    pub spool_refines_queue :
        {t v : System W} (r : Reach hooks is_permanent forward t v)
        → AllClear r
        → HasUniqueNames t.spool.dir
        → queue_of v.spool.dir ≡ replay (log r) (queue_of t.spool.dir)
    unfolding replay
    spool_refines_queue here k u = refl
    spool_refines_queue {t} (next r st) (k, c) u =
        Step-queue st c (kept_apart r u)
        ∙ ap (replay (told st)) (spool_refines_queue r k u)
        ∙ sym (replay-append (told st) (log r) (queue_of t.spool.dir))
