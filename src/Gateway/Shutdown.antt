-- ===== src/Gateway/Shutdown.antt =====
-- The end of the process (cmd/gateway/main.go, main from the forwarder's start on): the goroutines
-- of the server, of the forwarder and of the shutdown, and what main waits for. An event is what one
-- of them does between two points at which it waits for another.
pub mod Laws
pub mod Progress
use edge_gw_project.Prelude.{ℕ, suc, ◌+◌, ◌≡◌, Bool, true, false, Option, none, some}
use edge_gw_project.DayLog.{DayLog, close}

-- server.Shutdown, in the goroutine that waits for SIGINT or SIGTERM; it is finished once
-- shutdownDone is closed.
pub data Shutdown : Type 0 where
  awaiting_signal draining finished : Shutdown

-- sp.Run; it is done once forwarderDone is closed, from the start if there is no spool.
pub data Forwarder : Type 0 where
  idle delivering done : Forwarder

-- Where main is. A server that fails ends the process by os.Exit(1).
pub data Main : Type 0 where
  listening awaiting_shutdown awaiting_forwarder closing_sink closing_audit stopped failed : Main

unfoldable pub is_alive : Main → Bool
is_alive stopped = false
is_alive failed = false
is_alive _ = true

-- The sink, in standalone mode, and the audit log, if there is one, by their open files.
pub record Process : Type 0 where
  pub is_accepting : Bool
  pub requests : ℕ
  pub shutdown : Shutdown
  pub has_timed_out : Bool
  pub is_cancelled : Bool
  pub forwarder : Forwarder
  pub main : Main
  pub sink : Option DayLog
  pub audit : Option DayLog

-- `if sink != nil { sink.Close() }`; its error is only logged.
unfoldable pub close_if_any : Bool → Option DayLog → Option DayLog
unfolding close
close_if_any ok none = none
close_if_any ok (some l) = some (close ok l).1

pub data Event (t u : Process) : Type 0 where
  request_arrives :
      is_alive t.main ≡ true
      → t.is_accepting ≡ true
      → u ≡ record t { requests = t.requests + 1 }
      → Event t u
  -- A request that delivers at once, whatever it makes of the sink and of the audit log.
  request_delivers :
      (n : ℕ) (sink audit : Option DayLog)
      → is_alive t.main ≡ true
      → t.requests ≡ suc n
      → u ≡ record t { sink = sink; audit = audit }
      → Event t u
  request_ends :
      (n : ℕ)
      → is_alive t.main ≡ true
      → t.requests ≡ suc n
      → u ≡ record t { requests = n }
      → Event t u
  round_begins :
      is_alive t.main ≡ true
      → t.forwarder ≡ idle
      → t.is_cancelled ≡ false
      → u ≡ record t { forwarder = delivering }
      → Event t u
  round_delivers :
      (sink audit : Option DayLog)
      → is_alive t.main ≡ true
      → t.forwarder ≡ delivering
      → u ≡ record t { sink = sink; audit = audit }
      → Event t u
  round_ends :
      is_alive t.main ≡ true
      → t.forwarder ≡ delivering
      → u ≡ record t { forwarder = idle }
      → Event t u
  forwarder_stops :
      is_alive t.main ≡ true
      → t.forwarder ≡ idle
      → t.is_cancelled ≡ true
      → u ≡ record t { forwarder = done }
      → Event t u
  -- Shutdown closes the listeners first, and then waits until no request is left, at most for 15
  -- seconds.
  signalled :
      is_alive t.main ≡ true
      → t.shutdown ≡ awaiting_signal
      → u ≡ record t { shutdown = draining; is_accepting = false }
      → Event t u
  drained :
      is_alive t.main ≡ true
      → t.shutdown ≡ draining
      → t.requests ≡ 0
      → u ≡ record t { shutdown = finished }
      → Event t u
  gave_up :
      is_alive t.main ≡ true
      → t.shutdown ≡ draining
      → u ≡ record t { shutdown = finished; has_timed_out = true }
      → Event t u
  -- ListenAndServe returns ErrServerClosed as soon as Shutdown has begun, or another error.
  server_closed :
      t.main ≡ listening
      → t.is_accepting ≡ false
      → u ≡ record t { main = awaiting_shutdown }
      → Event t u
  server_failed : t.main ≡ listening → u ≡ record t { main = failed } → Event t u
  shutdown_seen :
      t.main ≡ awaiting_shutdown
      → t.shutdown ≡ finished
      → u ≡ record t { main = awaiting_forwarder; is_cancelled = true }
      → Event t u
  forwarder_seen :
      t.main ≡ awaiting_forwarder
      → t.forwarder ≡ done
      → u ≡ record t { main = closing_sink }
      → Event t u
  sink_closed :
      (ok : Bool)
      → t.main ≡ closing_sink
      → u ≡ record t { main = closing_audit; sink = close_if_any ok t.sink }
      → Event t u
  audit_closed :
      (ok : Bool)
      → t.main ≡ closing_audit
      → u ≡ record t { main = stopped; audit = close_if_any ok t.audit }
      → Event t u

pub data Course (t : Process) : Process → Type 0 where
  here : Course t t
  next : {u v : Process} → Course t u → Event u v → Course t v

-- What main has when it begins to listen.
abbrev pub started : Bool → Option DayLog → Option DayLog → Process
started has_spool sink audit = record {
  is_accepting = true;
  requests = 0;
  shutdown = awaiting_signal;
  has_timed_out = false;
  is_cancelled = false;
  forwarder = elim has_spool [ true ↦ idle | false ↦ done ];
  main = listening;
  sink = sink;
  audit = audit;
}
