-- ===== src/Spool/System.antt =====
-- The spool under concurrent calls (internal/spool/spool.go): requests that are between the locked
-- sections of Enqueue, and the one forwarder goroutine. A step of a request is one locked section,
-- with the system calls up to the next. A round of the forwarder, forwardOldest, is one step: the
-- states are those in which no round is under way. What a request does during a round stands after
-- it: its file has another name than the one that the round removes, and where it has found room,
-- there is room after the round, which only lowers the counter. Within a round, between the removal
-- of the file and the subtraction, the counter is one above the signals that wait and the
-- reservations.
use edge_gw_project.Prelude.{ℕ, ◌+◌, ◌≡◌, Bool, false, Option, none, List, ◌∷◌, ◌++◌}
use edge_gw_project.Prelude.{Text, leb}
use edge_gw_project.Spool.Name.{spool_name}
use edge_gw_project.Spool.Dir.{read_file}
use edge_gw_project.Spool.Queue.{Hook, Spool, EnqueueFaults, ForwardFaults, reserve, commit}
use edge_gw_project.Spool.Queue.{sync_directory, forward_oldest}

-- A request that has reserved its room and its name.
pub record Job : Type 0 where
  pub nanos : ℕ
  pub number : ℕ
  pub payload : Text

unfoldable pub job_name : Job → Text
job_name j = spool_name j.nanos j.number

pub record System (W : Type 0) : Type 0 where
  pub spool : Spool W
  pub in_flight : List Job

-- The clock and the counter give a name that no file has.
abbrev pub IsFresh : {W : Type 0} → Text → Spool W → Type 0
IsFresh name s = (read_file name s.dir ≡ none) × (read_file name s.dead ≡ none)

module _ {W E : Type 0} (hooks : Hook → W → W) (is_permanent : E → Bool)
    (forward : Text → W → Option E × W) where
  pub data Step (t u : System W) : Type 0 where
    reserved :
        (now : ℕ) (payload : Text)
        → leb t.spool.max_depth t.spool.depth ≡ false
        → u ≡ record {
          spool = (reserve hooks now t.spool).1;
          in_flight =
              record { nanos = now; number = t.spool.seq + 1; payload = payload } ∷ t.in_flight;
        }
        → Step t u
    committed :
        (x : EnqueueFaults) (j : Job) (before after : List Job)
        → t.in_flight ≡ before ++ (j ∷ after)
        → IsFresh (job_name j) t.spool
        → u ≡ record {
          spool = (commit hooks x (job_name j) j.payload t.spool).1;
          in_flight = before ++ after;
        }
        → Step t u
    synced :
        (x : EnqueueFaults)
        → u ≡ record { spool = (sync_directory hooks x t.spool).1; in_flight = t.in_flight }
        → Step t u
    forwarded :
        (x : ForwardFaults) (now : ℕ)
        → u ≡ record {
          spool = (forward_oldest hooks is_permanent forward x now t.spool).1;
          in_flight = t.in_flight;
        }
        → Step t u

  pub data Reach (s : System W) : System W → Type 0 where
    here : Reach s s
    next : {t u : System W} → Reach s t → Step t u → Reach s u
