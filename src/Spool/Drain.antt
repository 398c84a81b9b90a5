-- ===== src/Spool/Drain.antt =====
-- The forwarder's loop empties the queue once the destination is up (internal/spool/spool.go, Run).
use mathlib.Core.Path.{subst}
use edge_gw_project.Prelude.{
  ℕ, suc, ◌≤◌, ◌≡◌, refl, sym, ap, arith, ◌⊎◌, inl, inr, Bool, true, false, ◌&&◌, Option, none,
  some, List, [], ◌∷◌, Text, length, Bool-cases, Option-cases,
}
use edge_gw_project.Spool.Dir.{DirEntry, is_json, read_file, remove_file, list_pending}
use edge_gw_project.Spool.Dir.Laws.{
  HasUniqueNames, pending-remove_count, length-list_pending, head_of_listing,
}
use edge_gw_project.Spool.Queue.{
  Hook, Spool, RunError, forward_oldest, forward_head, send, settle, read_head, dead_letter,
  dec_depth, update_oldest_pending,
}
use edge_gw_project.Spool.Kept.{Kept}
use edge_gw_project.Spool.Kept.Forward.{forward_oldest-Kept}
use edge_gw_project.Spool.Outcome.{all_well}
use edge_gw_project.Spool.Fifo.Steps.{forward_oldest-IsMoved}
use edge_gw_project.Spool.Run.{Round, run, next_backoff, after_round, waits}

-- The context stays alive and no system call fails.
abbrev pub IsUndisturbed : Round → Type 0
IsUndisturbed r = (r.done_before ≡ false) × (r.done_waiting ≡ false) × (r.faults ≡ all_well)

abbrev pub AllUndisturbed : List Round → Type 0
AllUndisturbed [] = Unit
AllUndisturbed (r ∷ rounds) = IsUndisturbed r × AllUndisturbed rounds

-- The answer takes the head out of the queue: success, or a refusal for good.
abbrev pub IsFinal : {E : Type 0} → (E → Bool) → Option E → Type 0
IsFinal is_permanent none = Unit
IsFinal is_permanent (some e) = is_permanent e ≡ true

nothing_waits :
    (n : Text) (dir : List DirEntry)
    → HasUniqueNames dir
    → list_pending dir ≡ []
    → is_json n ≡ true
    → read_file n dir ≡ none
nothing_waits n dir u e j = elim (Option-cases (read_file n dir)) [
  | inl r ↦ r
  | inr (p, r) ↦
      absurd (omega (arith, pending-remove_count n dir u j r, length-list_pending dir, ap length e))
]

nothing_listed : (names : List Text) → length names ≤ 0 → names ≡ []
nothing_listed [] h = refl
nothing_listed (n ∷ names) h = absurd (omega (arith, h))

module _ {W E : Type 0} (hooks : Hook → W → W) (is_permanent : E → Bool)
    (forward : Text → W → Option E × W)
    (up : (p : Text) (w : W) → IsFinal is_permanent (forward p w).0) where
  -- The head leaves the directory, and the queue advances.
  settled :
      (now : ℕ) (n p : Text) (a : Option E) (s : Spool W)
      → IsFinal is_permanent a
      → read_file n s.dir ≡ some p
      → ((settle hooks is_permanent forward all_well now n (a, s)).0 ≡ (true, none))
        × ((settle hooks is_permanent forward all_well now n (a, s)).1.dir ≡ remove_file n s.dir)
  unfolding settle dec_depth dead_letter
  settled now n p none s f r = (refl, refl)
  settled now n p (some e) s f r = rw (f, dead_letter, r) (refl, refl)

  advances :
      (now : ℕ) (n : Text) (names : List Text) (s : Spool W)
      → list_pending s.dir ≡ n ∷ names
      → ((forward_oldest hooks is_permanent forward all_well now s).0 ≡ (true, none))
        × ((forward_oldest hooks is_permanent forward all_well now s).1.dir ≡ remove_file n s.dir)
  unfolding forward_oldest forward_head read_head send update_oldest_pending
  advances now n names s e =
      let (j, (p, r)) = head_of_listing s.dir n names e in
      let t = update_oldest_pending hooks (n ∷ names) now s in
      rw (e, forward_head, r, send)
        (settled now n p (forward p t.world).0 (record t { world = (forward p t.world).1 })
          (up p t.world) r)

  idles :
      (now : ℕ) (s : Spool W)
      → list_pending s.dir ≡ []
      → ((forward_oldest hooks is_permanent forward all_well now s).0 ≡ (false, none))
        × ((forward_oldest hooks is_permanent forward all_well now s).1.dir ≡ s.dir)
  unfolding forward_oldest update_oldest_pending
  idles now s e = rw (e, forward_head) (refl, refl)

  module _ (Confirmed : Text → W → Type 0)
      (confirms : (p : Text) (w : W) → (forward p w).0 ≡ none → Confirmed p (forward p w).1)
      (forward-Confirmed : (p q : Text) (w : W) → Confirmed p w → Confirmed p (forward q w).1)
      (hooks-Confirmed : (p : Text) (h : Hook) (w : W) → Confirmed p w → Confirmed p (hooks h w))
      (n payload : Text) (json : is_json n ≡ true) where
    -- What the loop keeps for a signal, with room for the rounds that are left.
    abbrev IsOnTime : ℕ → Spool W → Type 0
    IsOnTime k s =
        HasUniqueNames s.dir × (length (list_pending s.dir) ≤ k) × Kept Confirmed n payload s

    after_round-IsOnTime :
        (k : ℕ) (a : Bool × Option (RunError E)) (t : Spool W)
        → IsOnTime k t
        → IsOnTime k (after_round hooks is_permanent forward a t)
    unfolding after_round
    after_round-IsOnTime k (true, e) t h = h
    after_round-IsOnTime k (false, none) t h = h
    after_round-IsOnTime k (false, some e) t h = h

    one_round :
        (k now : ℕ) (s : Spool W)
        → IsOnTime (suc k) s
        → IsOnTime k (forward_oldest hooks is_permanent forward all_well now s).1
    one_round k now s (u, b, kept) = (
      (forward_oldest-IsMoved hooks is_permanent forward all_well now s u).0,
      shorter (list_pending s.dir) refl,
      forward_oldest-Kept hooks is_permanent forward
          (record {
            Good = λ w. Unit;
            hooks_keep = λ h w g. tt;
            forward_keeps = λ q w g. tt;
            Confirmed = Confirmed;
            confirms = λ q w g e. confirms q w e;
            forward_confirmed = λ p q w g k. forward-Confirmed p q w k;
            hooks_confirmed = hooks-Confirmed;
          })
          n payload json all_well now s tt kept,
    )
      where
        shorter :
            (names : List Text)
            → list_pending s.dir ≡ names
            → length (list_pending (forward_oldest hooks is_permanent forward all_well now s).1.dir)
              ≤ k
        shorter [] e = rw ((idles now s e).1, e) (omega arith)
        shorter (m ∷ names) e =
            let (j, (p, r)) = head_of_listing s.dir m names e in
            rw ((advances now m names s e).1) (
              omega (
                arith,
                b,
                pending-remove_count m s.dir u j r,
                length-list_pending s.dir,
                length-list_pending (remove_file m s.dir),
              ))

    drained :
        (rounds : List Round) (backoff : ℕ) (s : Spool W)
        → AllUndisturbed rounds
        → IsOnTime (length rounds) s
        → IsOnTime 0 (run hooks is_permanent forward rounds backoff s).1
    unfolding run
    drained [] backoff s a h = h
    drained (r ∷ rounds) backoff s ((alive, stays, well), a) h =
        let (answer, t) = forward_oldest hooks is_permanent forward r.faults r.now s in
        let rest =
          drained rounds (next_backoff answer backoff)
            (after_round hooks is_permanent forward answer t) a
            (after_round-IsOnTime (length rounds) answer t (
              subst
                (λ x.
                  IsOnTime (length rounds) (forward_oldest hooks is_permanent forward x r.now s).1)
                (sym well) (one_round (length rounds) r.now s h))) in
        elim (Bool-cases (waits hooks is_permanent forward answer)) [
          | inl f ↦ simp (alive, stays, f, ◌&&◌) rest
          | inr f ↦ simp (alive, stays, f, ◌&&◌) rest
        ]

    -- Let the destination accept each payload or refuse it for good, let a confirmation never go
    -- away and come with each success, and let no system call fail while the context is alive.
    -- Then rounds as many as the waiting signals, or more, empty a queue whose names are apart,
    -- and each signal that waited lies with its payload in `dead` or is confirmed.
    pub run_delivers :
        (rounds : List Round) (backoff : ℕ) (s : Spool W)
        → AllUndisturbed rounds
        → HasUniqueNames s.dir
        → length (list_pending s.dir) ≤ length rounds
        → read_file n s.dir ≡ some payload
        → (list_pending (run hooks is_permanent forward rounds backoff s).1.dir ≡ [])
          × ((read_file n (run hooks is_permanent forward rounds backoff s).1.dead ≡ some payload)
              ⊎ Confirmed payload (run hooks is_permanent forward rounds backoff s).1.world)
    run_delivers rounds backoff s a u b r =
        let (v, left, kept) = drained rounds backoff s a (u, b, inl r) in
        let empty =
          nothing_listed (list_pending (run hooks is_permanent forward rounds backoff s).1.dir)
            left in
        let gone =
          nothing_waits n (run hooks is_permanent forward rounds backoff s).1.dir v empty json in
        (
          empty,
          elim kept [
            | inl w ↦ absurd (cc (gone, w))
            | inr (inl (g, d)) ↦ inl d
            | inr (inr c) ↦ inr c
          ],
        )
