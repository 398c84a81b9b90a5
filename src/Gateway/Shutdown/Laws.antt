-- ===== src/Gateway/Shutdown/Laws.antt =====
-- What holds when the process ends (cmd/gateway/main.go).
use mathlib.Core.Path.{subst}
use edge_gw_project.Prelude.{
  ℕ, suc, ◌+◌, ◌≡◌, ◌≢◌, refl, sym, ◌∙◌, ◌⊎◌, inl, inr, Bool, true, false, Option, none, some,
  arith,
}
use edge_gw_project.DayLog.{DayLog, close}
use edge_gw_project.Gateway.Shutdown.{
  Shutdown, awaiting_signal, draining, finished, idle, delivering, done, Main, listening,
  awaiting_shutdown, awaiting_forwarder, closing_sink, closing_audit, stopped, failed, is_alive,
  Process, close_if_any, Event, request_arrives, request_delivers, request_ends, round_begins,
  round_delivers, round_ends, forwarder_stops, signalled, drained, gave_up, server_closed,
  server_failed, shutdown_seen, forwarder_seen, sink_closed, audit_closed, Course, here, next,
  started,
}

-- No file is open.
abbrev pub IsClosed : Option DayLog → Type 0
IsClosed none = Unit
IsClosed (some l) = l.handle ≡ none

close_if_any-IsClosed : (ok : Bool) (l : Option DayLog) → IsClosed (close_if_any ok l)
unfolding close_if_any close
close_if_any-IsClosed ok none = tt
close_if_any-IsClosed ok (some l) = go l.handle refl
  where
    go : (h : Option _) → l.handle ≡ h → IsClosed (close_if_any ok (some l))
    go none e = rw (e, close) e
    go (some p) e = rw (e, close) refl

-- The shutdown is over: no listener, and no request is left, unless the wait for them timed out.
abbrev pub IsDrained : Process → Type 0
IsDrained t =
    (t.is_accepting ≡ false)
    × (t.shutdown ≡ finished)
    × ((t.has_timed_out ≡ true) ⊎ (t.requests ≡ 0))

abbrev pub IsQuiet : Process → Type 0
IsQuiet t = IsDrained t × (t.forwarder ≡ done)

abbrev UnlessTimedOut : Process → Type 0 → Type 0
UnlessTimedOut t P = (t.has_timed_out ≡ true) ⊎ P

-- What main can rely on where it is.
abbrev pub AtMain : Main → Process → Type 0
AtMain listening t = Unit
AtMain awaiting_shutdown t = Unit
AtMain failed t = Unit
AtMain awaiting_forwarder t = IsDrained t × (t.is_cancelled ≡ true)
AtMain closing_sink t = IsQuiet t
AtMain closing_audit t = IsQuiet t × UnlessTimedOut t (IsClosed t.sink)
AtMain stopped t = IsQuiet t × UnlessTimedOut t (IsClosed t.sink × IsClosed t.audit)

-- What the goroutine of the shutdown has done.
abbrev pub AtShutdown : Shutdown → Process → Type 0
AtShutdown awaiting_signal t = Unit
AtShutdown draining t = t.is_accepting ≡ false
AtShutdown finished t = IsDrained t

abbrev pub IsSound : Process → Type 0
IsSound t = AtShutdown t.shutdown t × AtMain t.main t

AtShutdown-keep :
    (s : Shutdown) (t u : Process)
    → (t.is_accepting ≡ false → u.is_accepting ≡ false)
    → (IsDrained t → IsDrained u)
    → AtShutdown s t
    → AtShutdown s u
AtShutdown-keep awaiting_signal t u a d k = tt
AtShutdown-keep draining t u a d k = a k
AtShutdown-keep finished t u a d k = d k

AtMain-keep :
    (m : Main) (t u : Process)
    → is_alive m ≡ true
    → u.is_cancelled ≡ t.is_cancelled
    → (IsDrained t → IsDrained u)
    → (IsQuiet t → IsQuiet u)
    → (IsQuiet t → UnlessTimedOut t (IsClosed t.sink) → UnlessTimedOut u (IsClosed u.sink))
    → AtMain m t
    → AtMain m u
unfolding is_alive
AtMain-keep listening t u alive x d q c k = tt
AtMain-keep awaiting_shutdown t u alive x d q c k = tt
AtMain-keep failed t u alive x d q c k = tt
AtMain-keep awaiting_forwarder t u alive x d q c (k, told) = (d k, x ∙ told)
AtMain-keep closing_sink t u alive x d q c k = q k
AtMain-keep closing_audit t u alive x d q c (k, l) = (q k, c k l)
AtMain-keep stopped t u alive x d q c k = cc

true_ne_false : true ≢ false
true_ne_false e = cc

idle_ne_done : idle ≢ done
idle_ne_done e = cc

delivering_ne_done : delivering ≢ done
delivering_ne_done e = cc

awaiting_ne_finished : awaiting_signal ≢ finished
awaiting_ne_finished e = cc

module _ (t : Process) where
  -- Whoever still works, the shutdown has timed out, or it is not over.
  abbrev keep :
      (u : Process)
      → is_alive t.main ≡ true
      → u.is_cancelled ≡ t.is_cancelled
      → (t.is_accepting ≡ false → u.is_accepting ≡ false)
      → (IsDrained t → IsDrained u)
      → (IsQuiet t → IsQuiet u)
      → (IsQuiet t → UnlessTimedOut t (IsClosed t.sink) → UnlessTimedOut u (IsClosed u.sink))
      → IsSound t
      → AtShutdown t.shutdown u × AtMain t.main u
  keep u alive x a d q c (s, m) =
      (AtShutdown-keep t.shutdown t u a d s, AtMain-keep t.main t u alive x d q c m)

  pub at_main : (m : Main) → t.main ≡ m → IsSound t → AtMain m t
  at_main m e (s, k) = subst (λ n. AtMain n t) e k

  pub at_shutdown : (s : Shutdown) → t.shutdown ≡ s → IsSound t → AtShutdown s t
  at_shutdown s e (k, m) = subst (λ n. AtShutdown n t) e k

  same_shutdown :
      (u : Process)
      → u.is_accepting ≡ t.is_accepting
      → (IsDrained t → IsDrained u)
      → IsSound t
      → AtShutdown t.shutdown u
  same_shutdown u a d k = AtShutdown-keep t.shutdown t u (λ z. a ∙ z) d k.0

  -- The goroutine of the shutdown is through.
  over :
      (late : Bool)
      → is_alive t.main ≡ true
      → t.shutdown ≡ draining
      → (late ≡ true) ⊎ (t.requests ≡ 0)
      → (t.has_timed_out ≡ true → late ≡ true)
      → IsSound t
      → IsSound (record t { shutdown = finished; has_timed_out = late })
  over late alive waiting o l k =
      let u = record t { shutdown = finished; has_timed_out = late } in
      let drained : IsDrained u = (at_shutdown draining waiting k, refl, o) in
      (
        drained,
        AtMain-keep t.main t u alive refl (λ d. drained) (λ q. (drained, q.1))
            (λ q c. elim c [ inl z ↦ inl (l z) | inr z ↦ inr z ]) k.1,
      )

  -- A request that is still there: the wait for it has timed out, or is not over.
  busy : {P : Type 0} (n : ℕ) → t.requests ≡ suc n → IsDrained t → (t.has_timed_out ≡ true → P) → P
  busy n e (a, s, inl timeout) f = f timeout
  busy n e (a, s, inr none_left) f = absurd (omega (arith, e, none_left))

  still_accepting : {P : Type 0} → t.is_accepting ≡ true → IsDrained t → P
  still_accepting e (a, _, _) = absurd (true_ne_false (sym e ∙ a))

Event-IsSound : {t u : Process} → Event t u → IsSound t → IsSound u
Event-IsSound {t} (request_arrives alive accepting e) k = rw e (
    keep t (record t { requests = t.requests + 1 }) alive refl (λ a. a)
      (λ d. still_accepting t accepting d) (λ q. still_accepting t accepting q.0)
      (λ q c. still_accepting t accepting q.0) k)
Event-IsSound {t} (request_delivers n sink audit alive there e) k = rw e (
    keep t (record t { sink = sink; audit = audit }) alive refl (λ a. a) (λ d. d) (λ q. q)
      (λ q c. busy t n there q.0 (λ late. inl late)) k)
Event-IsSound {t} (request_ends n alive there e) k = rw e (
    keep t (record t { requests = n }) alive refl (λ a. a)
      (λ d. busy t n there d (λ late. (d.0, d.1, inl late)))
      (λ q. busy t n there q.0 (λ late. ((q.0.0, q.0.1, inl late), q.1))) (λ q c. c) k)
Event-IsSound {t} (round_begins alive rest going e) k = rw e (
    keep t (record t { forwarder = delivering }) alive refl (λ a. a) (λ d. d)
      (λ q. absurd (idle_ne_done (sym rest ∙ q.1))) (λ q c. c) k)
Event-IsSound {t} (round_delivers sink audit alive at_it e) k = rw e (
    keep t (record t { sink = sink; audit = audit }) alive refl (λ a. a) (λ d. d) (λ q. q)
      (λ q c. absurd (delivering_ne_done (sym at_it ∙ q.1))) k)
Event-IsSound {t} (round_ends alive at_it e) k = rw e (
    keep t (record t { forwarder = idle }) alive refl (λ a. a) (λ d. d)
      (λ q. absurd (delivering_ne_done (sym at_it ∙ q.1))) (λ q c. c) k)
Event-IsSound {t} (forwarder_stops alive rest told e) k = rw e (
    keep t (record t { forwarder = done }) alive refl (λ a. a) (λ d. d) (λ q. (q.0, refl))
      (λ q c. c) k)
Event-IsSound {t} (signalled alive waiting e) k = rw e (
  refl,
  AtMain-keep t.main t (record t { shutdown = draining; is_accepting = false }) alive refl
      (λ d. early d) (λ q. early q.0) (λ q c. early q.0) k.1,
)
  where
    early : {P : Type 0} → IsDrained t → P
    early (_, f, _) = absurd (awaiting_ne_finished (sym waiting ∙ f))
Event-IsSound {t} (drained alive waiting empty e) k =
    rw e (over t t.has_timed_out alive waiting (inr empty) (λ z. z) k)
Event-IsSound {t} (gave_up alive waiting e) k =
    rw e (over t true alive waiting (inl refl) (λ z. refl) k)
Event-IsSound {t} (server_closed at_it closed e) k =
    rw e (same_shutdown t (record t { main = awaiting_shutdown }) refl (λ d. d) k, tt)
Event-IsSound {t} (server_failed at_it e) k =
    rw e (same_shutdown t (record t { main = failed }) refl (λ d. d) k, tt)
Event-IsSound {t} (shutdown_seen at_it seen e) k = rw e (
  same_shutdown t (record t { main = awaiting_forwarder; is_cancelled = true }) refl (λ d. d) k,
  (at_shutdown t finished seen k, refl),
)
Event-IsSound {t} (forwarder_seen at_it seen e) k = rw e (
  same_shutdown t (record t { main = closing_sink }) refl (λ d. d) k,
  ((at_main t awaiting_forwarder at_it k).0, seen),
)
Event-IsSound {t} (sink_closed ok at_it e) k = rw e (
  same_shutdown t (record t { main = closing_audit; sink = close_if_any ok t.sink }) refl (λ d. d)
      k,
  (at_main t closing_sink at_it k, inr (close_if_any-IsClosed ok t.sink)),
)
Event-IsSound {t} (audit_closed ok at_it e) k =
    let (quiet, sink) = at_main t closing_audit at_it k in
    rw e (
      same_shutdown t (record t { main = stopped; audit = close_if_any ok t.audit }) refl (λ d. d)
          k,
      (
        quiet,
        elim sink [ inl late ↦ inl late | inr s ↦ inr (s, close_if_any-IsClosed ok t.audit) ],
      ),
    )

pub Course-IsSound : {t u : Process} → Course t u → IsSound t → IsSound u
Course-IsSound here k = k
Course-IsSound (next r st) k = Event-IsSound st (Course-IsSound r k)

-- Whatever requests, the forwarder and the signal do, and in which order. While main waits for the
-- forwarder, it has told it to stop, no listener is open, and no request is left unless the wait
-- for requests has timed out; while it closes the files, the forwarder is done too; after the sink
-- is closed it stays without an open file, and when main has ended, so does the audit log, unless
-- there was that timeout, whatever files deliveries have opened.
pub stops_in_order :
    (has_spool : Bool) (sink audit : Option DayLog) {t : Process}
    → Course (started has_spool sink audit) t
    → AtMain t.main t
stops_in_order has_spool sink audit r = (Course-IsSound r (tt, tt)).1
