-- ===== src/Gateway/Shutdown/Progress.antt =====
-- The process can always come to its end once it has its signal (cmd/gateway/main.go).
use edge_gw_project.Prelude.{◌≡◌, ◌≢◌, refl, ap, ◌∙◌, Bool, true, false, Option}
use edge_gw_project.DayLog.{DayLog}
use edge_gw_project.Gateway.Shutdown.{
  Shutdown, awaiting_signal, draining, finished, Forwarder, idle, delivering, done, Main, listening,
  awaiting_shutdown, awaiting_forwarder, closing_sink, closing_audit, stopped, failed, is_alive,
  Process, Event, round_ends, forwarder_stops, gave_up, server_closed, shutdown_seen,
  forwarder_seen, sink_closed, audit_closed, Course, here, next, started,
}
use edge_gw_project.Gateway.Shutdown.Laws.{IsSound, Course-IsSound, at_main, at_shutdown}

-- Steps that lead to the end of main.
abbrev pub CanStop : Process → Type 0
CanStop t = (u : Process) × Course t u × (u.main ≡ stopped)

after : {t u v : Process} → Event t u → Course u v → Course t v
after s here = next here s
after s (next r st) = next (after s r) st

first : {t u : Process} → Event t u → CanStop u → CanStop t
first s (v, r, e) = (v, after s r, e)

alive : (m : Main) (t : Process) → t.main ≡ m → is_alive m ≡ true → is_alive t.main ≡ true
alive m t e a = ap is_alive e ∙ a

from_audit : (t : Process) → t.main ≡ closing_audit → CanStop t
from_audit t e = first (audit_closed true e refl) (_, here, refl)

from_sink : (t : Process) → t.main ≡ closing_sink → CanStop t
from_sink t e = first (sink_closed true e refl) (from_audit _ refl)

from_forwarder : (t : Process) → t.main ≡ awaiting_forwarder → t.is_cancelled ≡ true → CanStop t
unfolding is_alive
from_forwarder t e told = go t.forwarder refl
  where
    awake : is_alive t.main ≡ true
    awake = alive awaiting_forwarder t e refl

    go : (f : Forwarder) → t.forwarder ≡ f → CanStop t
    go done f = first (forwarder_seen e f refl) (from_sink _ refl)
    go idle f =
        first (forwarder_stops awake f told refl)
          (first (forwarder_seen e refl refl) (from_sink _ refl))
    go delivering f = first (round_ends awake f refl) (
        first (forwarder_stops awake refl told refl)
          (first (forwarder_seen e refl refl) (from_sink _ refl)))

from_shutdown :
    (t : Process) → t.main ≡ awaiting_shutdown → t.shutdown ≢ awaiting_signal → CanStop t
unfolding is_alive
from_shutdown t e told = go t.shutdown refl
  where
    go : (s : Shutdown) → t.shutdown ≡ s → CanStop t
    go awaiting_signal s = absurd (told s)
    go finished s = first (shutdown_seen e s refl) (from_forwarder _ refl refl)
    go draining s =
        first (gave_up (alive awaiting_shutdown t e refl) s refl)
          (first (shutdown_seen e refl refl) (from_forwarder _ refl refl))

not_accepting : (t : Process) → IsSound t → t.shutdown ≢ awaiting_signal → t.is_accepting ≡ false
not_accepting t k told = go t.shutdown refl
  where
    go : (s : Shutdown) → t.shutdown ≡ s → t.is_accepting ≡ false
    go awaiting_signal s = absurd (told s)
    go draining s = at_shutdown t draining s k
    go finished s = (at_shutdown t finished s k).0

-- Once the signal has come, and unless the process has ended by then, there are steps that lead to
-- main's end, whatever requests, the forwarder and the shutdown have done before. They may have to
-- end a round of the forwarder that is under way, which main waits for without a limit: no state is
-- one from which main cannot end, if that round does.
pub can_always_stop :
    (has_spool : Bool) (sink audit : Option DayLog) {t : Process}
    → Course (started has_spool sink audit) t
    → t.shutdown ≢ awaiting_signal
    → is_alive t.main ≡ true
    → CanStop t
unfolding is_alive
can_always_stop has_spool sink audit {t} r told awake = go t.main refl
  where
    sound : IsSound t
    sound = Course-IsSound r (tt, tt)

    go : (m : Main) → t.main ≡ m → CanStop t
    go listening e =
        first (server_closed e (not_accepting t sound told) refl) (from_shutdown _ refl told)
    go awaiting_shutdown e = from_shutdown t e told
    go awaiting_forwarder e = from_forwarder t e (at_main t awaiting_forwarder e sound).1
    go closing_sink e = from_sink t e
    go closing_audit e = from_audit t e
    go stopped e = (t, here, e)
    go failed e = cc
