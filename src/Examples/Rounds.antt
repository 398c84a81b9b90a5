-- ===== src/Examples/Rounds.antt =====
-- The forwarder's loop on a small spool (internal/spool/spool.go), and deliveries
-- (internal/adapters/outbound.go).
use edge_gw_project.Prelude.{
  ◌++◌, ℕ, ◌+◌, ◌⊎◌, ◌≤◌, ◌≡◌, refl, inl, inr, Bool, true, false, Option, none, some, [], ◌∷◌, Text,
  arith,
}
use edge_gw_project.Prelude.{length, text_eq, cut_prefix, ltb, if◌then◌else◌}
use edge_gw_project.Spool.Name.{spool_name, pad_decimal}
use edge_gw_project.Spool.Dir.{
  read_file, pending_names, list_pending, has_suffix, sort_names, insert_name,
}
use edge_gw_project.Spool.Queue.{
  Spool, forward_failed, forward_oldest, forward_head, send, settle, read_head,
}
use edge_gw_project.Spool.System.{here, next, forwarded}
use edge_gw_project.Spool.Outcome.{all_well}
use edge_gw_project.Spool.Run.{Round, run, run_backoff_doubles}
use edge_gw_project.Outbound.{ForwardError, send_failed, forward_with_retry}
use edge_gw_project.Outbound.Laws.{IsRun, forward_with_retry-IsRun}
use edge_gw_project.Spool.Dir.{is_json}
use edge_gw_project.Spool.Fifo.{queue_of, replay}
use edge_gw_project.Spool.Fifo.Replay.{left, spool_refines_queue}
use edge_gw_project.Spool.Drain.{run_delivers}
use edge_gw_project.Examples.Spools.{
  World, no_hooks, never_permanent, accept, IsConfirmed, filled_spool, signal, alone, one_listed,
  one_read,
}

-- Refuses everything for now.
abbrev refuse : Text → World → Option ℕ × World
refuse p w = (some 7, w)

abbrev quiet_round : Round
quiet_round = record { done_before = false; done_waiting = false; now = 9; faults = all_well }

refused_once :
    (forward_oldest no_hooks never_permanent refuse all_well 9 filled_spool).0
    ≡ (false, some (forward_failed 7))
unfolding forward_oldest forward_head send settle read_head read_file text_eq list_pending
    pending_names has_suffix cut_prefix spool_name pad_decimal sort_names insert_name
refused_once = refl

run_backoff_doubles_example :
    (run no_hooks never_permanent refuse (quiet_round ∷ []) 1 filled_spool).0 ≡ 2
run_backoff_doubles_example =
    run_backoff_doubles no_hooks never_permanent refuse (quiet_round ∷ []) filled_spool
      (refl, refl, (forward_failed 7, refused_once), tt)

-- The attempts succeed at the third.
abbrev third_time : ℕ → Option ForwardError × ℕ
third_time n = if ltb n 2 then (some send_failed, n + 1) else (none, n + 1)

abbrev never_cancelled : ℕ → Bool
never_cancelled i = false

forward_with_retry-IsRun_example :
    IsRun third_time never_cancelled 2 0 (forward_with_retry third_time never_cancelled 2 0)
forward_with_retry-IsRun_example = forward_with_retry-IsRun third_time never_cancelled 2 0

spool_refines_queue_example :
    queue_of (forward_oldest no_hooks never_permanent accept all_well 9 filled_spool).1.dir
    ≡ replay
        (left
            (forward_oldest no_hooks never_permanent accept all_well 9 filled_spool).0.0
            (queue_of filled_spool.dir)
          ++ [])
        (queue_of filled_spool.dir)
spool_refines_queue_example =
    spool_refines_queue no_hooks never_permanent accept
      {t = record { spool = filled_spool; in_flight = [] }} (next here (forwarded all_well 9 refl))
      (tt, (refl, refl)) alone

is_a_signal : is_json (spool_name 7 1) ≡ true
unfolding has_suffix cut_prefix spool_name pad_decimal
is_a_signal = refl

one_is_enough : length (list_pending filled_spool.dir) ≤ 1
one_is_enough = rw one_listed (omega arith)

abbrev drained_by_run : Spool World
drained_by_run = (run no_hooks never_permanent accept (quiet_round ∷ []) 1 filled_spool).1

run_delivers_example :
    (list_pending drained_by_run.dir ≡ [])
    × ((read_file (spool_name 7 1) drained_by_run.dead ≡ some signal)
        ⊎ IsConfirmed signal drained_by_run.world)
run_delivers_example =
    run_delivers no_hooks never_permanent accept (λ p w. tt) IsConfirmed (λ p w e. inl refl)
      (λ p q w k. inr k) (λ p h w k. k) (spool_name 7 1) signal is_a_signal (quiet_round ∷ []) 1
      filled_spool ((refl, refl, refl), tt) alone one_is_enough one_read
