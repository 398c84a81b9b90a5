-- ===== src/Gateway/Limits/Stale.antt =====
-- A head of the queue that has waited too long is reported (internal/spool/spool.go,
-- internal/adapters/inbound.go, cmd/gateway/main.go).
use edge_gw_project.Prelude.{
  ℕ, ◌+◌, ◌-◌, ◌<◌, ◌≡◌, refl, ◌∙◌, inl, inr, Bool, true, Option, none, some, List, [], ◌∷◌, Text,
  arith, Among, lt→ltb, Bool-cases, Option-cases,
}
use edge_gw_project.Spool.Name.{parse_spool_time}
use edge_gw_project.Spool.Dir.{read_file, list_pending}
use edge_gw_project.Spool.Queue.{
  Hook, Spool, ForwardFaults, forward_oldest, forward_head, send, settle, dead_letter, dec_depth,
  update_oldest_pending, oldest_of,
}
use edge_gw_project.Gateway.Readiness.{
  SpoolStatus, Thresholds, too_stale, check_readiness, spool_reasons, is_too_stale,
  is_near_capacity,
}
use edge_gw_project.Gateway.Limits.{oldest_pending_age, spool_status}

module _ {W E : Type 0} (hooks : Hook → W → W) (is_permanent : E → Bool)
    (forward : Text → W → Option E × W) where
  oldest-dead_letter :
      (x : ForwardFaults) (n : Text) (s : Spool W)
      → (dead_letter hooks x n s).oldest_pending_at ≡ s.oldest_pending_at
  unfolding dead_letter dec_depth
  oldest-dead_letter x n s = elim (Bool-cases x.bury_ok) [
    | inr b ↦ rw b refl
    | inl b ↦ elim (Option-cases (read_file n s.dir)) [
      | inl r ↦ rw (b, r, dead_letter) refl
      | inr (bytes, r) ↦ rw (b, r, dead_letter) refl
    ]
  ]

  oldest-settle :
      (x : ForwardFaults) (now : ℕ) (n : Text) (a : Option E) (s : Spool W)
      → (settle hooks is_permanent forward x now n (a, s)).1.oldest_pending_at ≡ s.oldest_pending_at
  unfolding settle dec_depth
  oldest-settle x now n none s = elim (Bool-cases x.remove_ok) [
    | inl r ↦ rw r refl
    | inr r ↦ rw r refl
  ]
  oldest-settle x now n (some f) s = elim (Bool-cases (is_permanent f)) [
    | inl p ↦ rw (p, settle) (oldest-dead_letter x n s)
    | inr p ↦ rw (p, settle) refl
  ]

  oldest-send :
      (x : ForwardFaults) (now : ℕ) (n : Text) (o : Option Text) (s : Spool W)
      → (send hooks is_permanent forward x now n o s).1.oldest_pending_at ≡ s.oldest_pending_at
  unfolding send
  oldest-send x now n none s = oldest-dead_letter x n s
  oldest-send x now n (some p) s =
      oldest-settle x now n (forward p s.world).0 (record s { world = (forward p s.world).1 })

  -- A round notes the time of the head that it found.
  noted :
      (x : ForwardFaults) (now : ℕ) (s : Spool W)
      → x.read_dir_ok ≡ true
      → (forward_oldest hooks is_permanent forward x now s).1.oldest_pending_at
        ≡ oldest_of (list_pending s.dir)
  unfolding forward_oldest forward_head update_oldest_pending
  noted x now s r = simp r (by_names (list_pending s.dir))
    where
      by_names :
          (names : List Text)
          → (forward_head hooks is_permanent forward x now names
              (update_oldest_pending hooks names now s)).1.oldest_pending_at
            ≡ oldest_of names
      by_names [] = refl
      by_names (n ∷ names) = oldest-send x now n _ (update_oldest_pending hooks (n ∷ names) now s)

known_age :
    {W : Type 0} (later accepted : ℕ) (u : Spool W)
    → u.oldest_pending_at ≡ some accepted
    → oldest_pending_age later u ≡ (later - accepted, true)
unfolding oldest_pending_age
known_age later accepted u q = rw q refl

stale :
    {W : Type 0} (later accepted : ℕ) (t : Thresholds) (u : Spool W)
    → u.oldest_pending_at ≡ some accepted
    → accepted + t.max_staleness < later
    → is_too_stale t (spool_status later u) ≡ true
unfolding is_too_stale spool_status
stale later accepted t u q late =
    rw
      (
        known_age later accepted u q,
        lt→ltb t.max_staleness (later - accepted) (omega (arith, late)),
      )
      refl

reported_stale :
    (t : Thresholds) (s : SpoolStatus) (audit : Option ℕ)
    → is_too_stale t s ≡ true
    → ((check_readiness t (some s) audit).0 ≡ 503)
      × Among too_stale (check_readiness t (some s) audit).1
unfolding check_readiness spool_reasons
reported_stale t s audit h = elim (Bool-cases (is_near_capacity t s)) [
  | inl n ↦ rw (n, h) (refl, inr (inl refl))
  | inr n ↦ rw (n, h) (refl, inl refl)
]

module _ {W E : Type 0} (hooks : Hook → W → W) (is_permanent : E → Bool)
    (forward : Text → W → Option E × W) where
  -- Let a round of the forwarder list the directory, and let the head of the queue be a signal
  -- accepted at a time that, when the readiness check is asked afterwards, lies further back
  -- than the limit. Then the check answers 503 and names the stale queue among its reasons,
  -- whatever the round has done with the head: also if it has delivered it and nothing waits any
  -- more, since the time of the head is forgotten only by the listing of the next round.
  pub stale_head_is_reported :
      (x : ForwardFaults) (now later accepted : ℕ) (n : Text) (names : List Text) (s : Spool W)
      (t : Thresholds) (audit : Option ℕ)
      → x.read_dir_ok ≡ true
      → list_pending s.dir ≡ n ∷ names
      → parse_spool_time n ≡ some accepted
      → accepted + t.max_staleness < later
      → let status = spool_status later (forward_oldest hooks is_permanent forward x now s).1 in
        ((check_readiness t (some status) audit).0 ≡ 503)
        × Among too_stale (check_readiness t (some status) audit).1
  unfolding oldest_of
  stale_head_is_reported x now later accepted n names s t audit r e p late =
      let after = (forward_oldest hooks is_permanent forward x now s).1 in
      let time : after.oldest_pending_at ≡ some accepted =
        noted hooks is_permanent forward x now s r ∙ rw (e, oldest_of, p) refl in
      reported_stale t (spool_status later after) audit (stale later accepted t after time late)
