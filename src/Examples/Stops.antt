-- ===== src/Examples/Stops.antt =====
-- A process that delivers once and stops (cmd/gateway/main.go).
use edge_gw_project.Prelude.{◌≡◌, ◌≢◌, refl, true, false, none, some, [], codes}
use edge_gw_project.DayLog.{DayLog, close}
use edge_gw_project.Gateway.Shutdown.{
  awaiting_signal, delivering, draining, finished, done, stopped, is_alive, Process, close_if_any,
  round_begins, round_delivers, round_ends, forwarder_stops, signalled, drained, server_closed,
  shutdown_seen, forwarder_seen, sink_closed, audit_closed, Course, here, next, started,
}
use edge_gw_project.Gateway.Shutdown.Laws.{AtMain, stops_in_order}
use edge_gw_project.Gateway.Shutdown.Progress.{CanStop, can_always_stop}

abbrev unopened : DayLog
unopened = record { files = []; day = []; handle = none }

abbrev opened : DayLog
opened = record { files = []; day = codes "d"; handle = some (codes "/s/d") }

abbrev start : Process
start = started true (some unopened) none

-- The signal comes while the forwarder delivers.
abbrev told : Process
told = record start {
  forwarder = delivering;
  sink = some opened;
  shutdown = draining;
  is_accepting = false;
}

up_to_the_signal : Course start told
unfolding is_alive
up_to_the_signal =
    next
      (next (next here (round_begins refl refl refl refl))
        (round_delivers (some opened) none refl refl refl))
      (signalled refl refl refl)

abbrev ended : Process
ended = record told {
  shutdown = finished;
  is_cancelled = true;
  forwarder = done;
  main = stopped;
  sink = some (record opened { handle = none });
}

up_to_the_end : Course start ended
unfolding is_alive close_if_any close
up_to_the_end =
    next
      (next
        (next
          (next
            (next
              (next
                (next (next up_to_the_signal (drained refl refl refl refl))
                  (server_closed refl refl refl))
                (shutdown_seen refl refl refl))
              (round_ends refl refl refl))
            (forwarder_stops refl refl refl refl))
          (forwarder_seen refl refl refl))
        (sink_closed true refl refl))
      (audit_closed true refl refl)

stops_in_order_example : AtMain stopped ended
stops_in_order_example = stops_in_order true (some unopened) none up_to_the_end

has_come : draining ≢ awaiting_signal
has_come e = cc

still_alive : is_alive told.main ≡ true
unfolding is_alive
still_alive = refl

can_always_stop_example : CanStop told
can_always_stop_example =
    can_always_stop true (some unopened) none up_to_the_signal has_come still_alive
