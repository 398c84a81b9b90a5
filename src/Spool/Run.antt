-- ===== src/Spool/Run.antt =====
-- The forwarder's loop (internal/spool/spool.go, Run) and its backoff, in seconds. What the loop
-- meets is a list of rounds: whether the context is done before the round or while it waits, the
-- clock, and the outcomes of the system calls.
use native.Mathlib.Nat.{pow-suc, one-le-pow, mul-le-mul_left}
use Prim.Native.Nat.{min}
use edge_gw_project.Prelude.{ℕ, ◌*◌, ◌^◌, ◌≤◌, ◌<◌, ◌≡◌, ◌∙◌, Bool, true, false, ◌&&◌}
use edge_gw_project.Prelude.{
  Option, none, some, List, [], ◌∷◌, arith, Text, ltb, if◌then◌else◌, length, Bool-cases, inl, inr,
  ltb→lt,
}
use edge_gw_project.Spool.Queue.{Hook, Spool, ForwardFaults, RunError, forward_oldest}

pub record Round : Type 0 where
  pub done_before : Bool
  pub done_waiting : Bool
  pub now : ℕ
  pub faults : ForwardFaults

abbrev pub max_backoff : ℕ
max_backoff = 30

-- The backoff after a round: reset, kept while the queue is empty, or doubled up to the cap.
unfoldable pub next_backoff : {E : Type 0} → Bool × Option (RunError E) → ℕ → ℕ
next_backoff (true, e) backoff = 1
next_backoff (false, none) backoff = backoff
next_backoff (false, some e) backoff =
    if ltb max_backoff (backoff * 2) then max_backoff else backoff * 2

module _ {W E : Type 0} (hooks : Hook → W → W) (is_permanent : E → Bool)
    (forward : Text → W → Option E × W) where
  -- While the queue is empty the loop takes the nudge from the channel, if there is one.
  unfoldable pub after_round : Bool × Option (RunError E) → Spool W → Spool W
  after_round (false, none) s = record s { wake = false }
  after_round _ s = s

  unfoldable pub waits : Bool × Option (RunError E) → Bool
  waits (true, e) = false
  waits (false, e) = true

  -- The state when the context is done or the rounds are over, with the backoff.
  unfoldable pub run : List Round → ℕ → Spool W → ℕ × Spool W
  unfolding next_backoff after_round waits
  run [] backoff s = (backoff, s)
  run (r ∷ rounds) backoff s =
      let (answer, t) = forward_oldest hooks is_permanent forward r.faults r.now s in
      let rest = run rounds (next_backoff answer backoff) (after_round answer t) in
      if r.done_before
      then (backoff, s)
      else if waits answer && r.done_waiting
      then (backoff, t)
      else rest

doubled :
    (b p : ℕ)
    → 1 ≤ p
    → min ((if ltb max_backoff (b * 2) then max_backoff else b * 2) * p) max_backoff
      ≡ min (b * (p * 2)) max_backoff
doubled b p h = elim (Bool-cases (ltb max_backoff (b * 2))) [
  | inl e ↦ rw e (capped (b * 2) (ltb→lt max_backoff (b * 2) e) ∙ omega arith)
  | inr e ↦ rw e (omega arith)
]
  where
    capped : (c : ℕ) → 30 < c → min (30 * p) 30 ≡ min (c * p) 30
    capped c k = omega (arith, mul-le-mul_left p k)

abbrev pub IsBackoff : ℕ → Type 0
IsBackoff b = (1 ≤ b) × (b ≤ max_backoff)

next_backoff-IsBackoff :
    {E : Type 0} (a : Bool × Option (RunError E)) (b : ℕ)
    → IsBackoff b
    → IsBackoff (next_backoff a b)
unfolding next_backoff
next_backoff-IsBackoff (true, e) b h = omega arith
next_backoff-IsBackoff (false, none) b h = h
next_backoff-IsBackoff (false, some e) b h = ground arith

module _ {W E : Type 0} (hooks : Hook → W → W) (is_permanent : E → Bool)
    (forward : Text → W → Option E × W) where
  -- From a backoff between 1 and 30 seconds, the loop waits between 1 and 30 seconds after every
  -- failed delivery, whatever the rounds bring.
  pub run-IsBackoff_bounded :
      (rounds : List Round) (backoff : ℕ) (s : Spool W)
      → IsBackoff backoff
      → IsBackoff (run hooks is_permanent forward rounds backoff s).0
  unfolding run
  run-IsBackoff_bounded [] b s h = h
  run-IsBackoff_bounded (r ∷ rounds) b s h =
      let (answer, t) = forward_oldest hooks is_permanent forward r.faults r.now s in
      let rest =
        run-IsBackoff_bounded rounds (next_backoff answer b)
          (after_round hooks is_permanent forward answer t) (next_backoff-IsBackoff answer b h) in
      elim (Bool-cases r.done_before) [
        | inl e ↦ simp e h
        | inr e ↦ elim (Bool-cases (waits hooks is_permanent forward answer && r.done_waiting)) [
          | inl f ↦ simp (e, f) h
          | inr f ↦ simp (e, f) rest
        ]
      ]

  -- The context stays alive, and in each round forwardOldest returns an error.
  abbrev pub KeepsFailing : List Round → Spool W → Type 0
  KeepsFailing [] s = Unit
  KeepsFailing (r ∷ rounds) s =
      (r.done_before ≡ false)
      × (r.done_waiting ≡ false)
      × ((e : RunError E) × ((forward_oldest hooks is_permanent forward r.faults r.now s).0
            ≡ (false, some e)))
      × KeepsFailing rounds (forward_oldest hooks is_permanent forward r.faults r.now s).1

  failing_backoff :
      (rounds : List Round) (b : ℕ) (s : Spool W)
      → b ≤ max_backoff
      → KeepsFailing rounds s
      → (run hooks is_permanent forward rounds b s).0 ≡ min (b * 2 ^ length rounds) max_backoff
  unfolding run
  failing_backoff [] b s h k = omega arith
  failing_backoff (r ∷ rounds) b s h (alive, stays, (e, fails), k) =
      simp (alive, stays, fails, ◌&&◌)
        (failing_backoff rounds (if ltb max_backoff (b * 2) then max_backoff else b * 2) _
            (ground arith) k
          ∙ rw (pow-suc 2 (length rounds))
              (doubled b (2 ^ length rounds) (one-le-pow (length rounds) 2 (omega arith))))

  -- Over rounds that all fail, the loop's backoff goes from 1 second to `2 ^ k` seconds after `k`
  -- rounds, at most 30.
  pub run_backoff_doubles :
      (rounds : List Round) (s : Spool W)
      → KeepsFailing rounds s
      → (run hooks is_permanent forward rounds 1 s).0 ≡ min (2 ^ length rounds) max_backoff
  run_backoff_doubles rounds s k = failing_backoff rounds 1 s (omega arith) k ∙ omega arith
