-- ===== src/Gateway/Wiring/Unrecorded.antt =====
-- Which delivery an audit record is of (cmd/gateway/audit.go, auditingForward and redeliveryGuard;
-- cmd/gateway/main.go, the hook OnDead).
use mathlib.Core.Path.{subst}
use edge_gw_project.Prelude.{
  ℕ, ◌≡◌, ◌≢◌, refl, sym, ap, ◌∙◌, ◌⊎◌, inl, inr, Bool, true, false, Option, none, some, [], Text,
  Bool-cases, Option-cases,
}
use edge_gw_project.AuditLog.{Codec, RecordError}
use edge_gw_project.Outbound.{Request}
use edge_gw_project.Spool.Queue.{
  on_delivered, on_dead, on_failed, on_depth, on_oldest_pending_age, on_dir_fsync_failure,
}
use edge_gw_project.Spool.World.{Moves, still, hooked, sent}
use edge_gw_project.Gateway.Audit.{
  AuditWorld, not_delivered, matches, clear, write_audit_from_payload, account, after_delivery,
  auditing_forward,
}
use edge_gw_project.Gateway.Audit.Laws.{write_audit_keeps, after_sent}
use edge_gw_project.Gateway.Audit.Retry.{matches→eq}
use edge_gw_project.Gateway.Metrics.{Reals}
use edge_gw_project.Gateway.Wiring.{
  DeliveryError, Routing, Surroundings, is_audited, deliver, destination, spool_forward, around,
  hooks,
}

module _ {D E : Type 0} (c : Codec) (deliver : Text → D → Option E × D) (destination : Text) where
  account_guard :
      (o : Option RecordError) (u : AuditWorld D)
      → ((account c deliver destination (o, u)).1.digest ≡ [])
        ⊎ (((account c deliver destination (o, u)).0 ≢ none)
            × ((account c deliver destination (o, u)).1.digest ≡ u.digest))
  unfolding account clear
  account_guard none u = inl refl
  account_guard (some e) u = inr (λ h. cc h, refl)

  -- The guard after a call: empty, or, if the call failed, what it was or the digest of bytes that
  -- the call has delivered.
  forward_guard :
      (payload : Text) (w : AuditWorld D)
      → let t = auditing_forward c deliver destination payload w in
        (t.1.digest ≡ [])
        ⊎ ((t.0 ≢ none)
            × ((t.1.digest ≡ w.digest)
                ⊎ (((deliver payload w.dest).0 ≡ none) × (t.1.digest ≡ c.sha256_hex payload))))
  unfolding auditing_forward after_delivery
  forward_guard payload w = elim (Bool-cases (matches w.digest (c.sha256_hex payload))) [
    | inl m ↦
        let written = write_audit_from_payload c deliver destination payload w in
        rw m (elim (account_guard written.0 written.1) [
          | inl e ↦ inl e
          | inr (n, e) ↦ inr (n, inl (e ∙ (write_audit_keeps c deliver destination payload w).1))
        ])
    | inr m ↦ elim (Option-cases (deliver payload w.dest).0) [
      | inl d ↦
          let u = after_sent c deliver destination payload w in
          let written = write_audit_from_payload c deliver destination payload u in
          rw (m, d, after_delivery)
            (elim (account_guard written.0 written.1) [
              | inl e ↦ inl e
              | inr (n, e) ↦
                  inr (n, inr (refl, e ∙ (write_audit_keeps c deliver destination payload u).1))
            ])
      | inr (f, d) ↦ rw (m, d, after_delivery) (inr (λ h. cc h, inl refl))
    ]
  ]

  written_or_not :
      (payload : Text) (w : AuditWorld D)
      → (((auditing_forward c deliver destination payload w).1.logger ≡ w.logger)
          × ((f : E) × ((auditing_forward c deliver destination payload w).0
                ≡ some (not_delivered f))))
        ⊎ (((deliver payload w.dest).0 ≡ none) ⊎ (matches w.digest (c.sha256_hex payload) ≡ true))
  unfolding auditing_forward after_delivery
  written_or_not payload w = elim (Bool-cases (matches w.digest (c.sha256_hex payload))) [
    | inl m ↦ inr (inr m)
    | inr m ↦ elim (Option-cases (deliver payload w.dest).0) [
      | inl d ↦ inr (inl d)
      | inr (f, d) ↦ inl (rw (m, d, after_delivery) (refl, (f, refl)))
    ]
  ]

  empty_matches_nothing : (held digest : Text) → matches held digest ≡ true → held ≢ []
  unfolding matches
  empty_matches_nothing held digest m z = cc (rw z at m)

module _ {P F : Type 0} (r : Reals F) (c : Codec) (hmac_hex : Text → Text → Text)
    (builds : Text → Bool) (send : Request → P → Option ℕ × P) (s : Routing)
    (audited : is_audited s ≡ true) where
  abbrev Calls : Surroundings P F → Surroundings P F → Type 0
  Calls = Moves (hooks r s) (spool_forward c hmac_hex builds send s)

  -- Since the last burial and the last call that succeeded, a call has delivered bytes of this
  -- digest: the destination has accepted them, and the call has failed nonetheless.
  abbrev pub IsUnrecorded : Text → {w v : Surroundings P F} → Calls w v → Type 0
  IsUnrecorded d still = true ≡ false
  IsUnrecorded d (hooked on_dead m) = true ≡ false
  IsUnrecorded d (hooked (on_delivered t now) m) = IsUnrecorded d m
  IsUnrecorded d (hooked on_failed m) = IsUnrecorded d m
  IsUnrecorded d (hooked (on_depth n) m) = IsUnrecorded d m
  IsUnrecorded d (hooked (on_oldest_pending_age t now) m) = IsUnrecorded d m
  IsUnrecorded d (hooked on_dir_fsync_failure m) = IsUnrecorded d m
  IsUnrecorded d (sent p {v} m) =
      ((spool_forward c hmac_hex builds send s p v).0 ≢ none)
      × ((((deliver c hmac_hex builds send s p v.trail.dest).0 ≡ none) × (c.sha256_hex p ≡ d))
          ⊎ IsUnrecorded d m)

  abbrev Guards : {w v : Surroundings P F} → Calls w v → Type 0
  Guards {w} {v} m = (v.trail.digest ≡ []) ⊎ IsUnrecorded v.trail.digest m

  passed :
      (payload : Text) (w : Surroundings P F)
      → let t =
          auditing_forward c (deliver c hmac_hex builds send s) (destination s) payload w.trail in
        ((spool_forward c hmac_hex builds send s payload w).0 ≡ t.0)
        × ((spool_forward c hmac_hex builds send s payload w).1.trail ≡ t.1)
  unfolding spool_forward around
  passed payload w = rw audited (refl, refl)

  guards : {w v : Surroundings P F} (m : Calls w v) → w.trail.digest ≡ [] → Guards m
  unfolding hooks clear
  guards still e = inl e
  guards (hooked on_dead m) e = inl (rw audited refl)
  guards (hooked (on_delivered t now) m) e = guards m e
  guards (hooked on_failed m) e = guards m e
  guards (hooked (on_depth n) m) e = guards m e
  guards (hooked (on_oldest_pending_age t now) m) e = guards m e
  guards (hooked on_dir_fsync_failure m) e = guards m e
  guards (sent p {v} m) e =
      let (a, t) = passed p v in
      let q = ap (λ u. u.digest) t in
      elim (forward_guard c (deliver c hmac_hex builds send s) (destination s) p v.trail) [
        | inl empty ↦ inl (q ∙ empty)
        | inr (failed, inl same) ↦ elim (guards m e) [
          | inl z ↦ inl (q ∙ same ∙ z)
          | inr u ↦
              inr (λ h. failed (sym a ∙ h), inr (subst (λ d. IsUnrecorded d m) (sym (q ∙ same)) u))
        ]
        | inr (failed, inr (d, own)) ↦ inr (λ h. failed (sym a ∙ h), inl (d, sym (q ∙ own)))
      ]

  -- Let there be an audit log, and no digest in the guard at first. After any calls of the spool's
  -- hooks and of its forward function, a further call with a payload does one of three things. It
  -- leaves the log as it was and answers that the destination has not accepted; or the destination
  -- accepts the payload in this call; or it has accepted bytes of its digest in an earlier call that
  -- failed, since the last signal was buried and the last call succeeded. So no record counts on a
  -- delivery that was recorded already, or whose signal has been buried.
  pub record_has_own_delivery :
      {w v : Surroundings P F} (m : Calls w v)
      → w.trail.digest ≡ []
      → (payload : Text)
      → (((spool_forward c hmac_hex builds send s payload v).1.trail.logger ≡ v.trail.logger)
          × ((f : DeliveryError) × ((spool_forward c hmac_hex builds send s payload v).0
                ≡ some (not_delivered f))))
        ⊎ (((deliver c hmac_hex builds send s payload v.trail.dest).0 ≡ none)
            ⊎ IsUnrecorded (c.sha256_hex payload) m)
  record_has_own_delivery {w} {v} m e payload =
      let (a, t) = passed payload v in
      elim (written_or_not c (deliver c hmac_hex builds send s) (destination s) payload v.trail) [
        | inl (same, (f, refused)) ↦ inl (ap (λ u. u.logger) t ∙ same, (f, a ∙ refused))
        | inr (inl d) ↦ inr (inl d)
        | inr (inr held) ↦ elim (guards m e) [
          | inl z ↦ absurd (
              empty_matches_nothing c (deliver c hmac_hex builds send s) (destination s)
                v.trail.digest (c.sha256_hex payload) held z)
          | inr u ↦ inr (
              inr (
                subst (λ d. IsUnrecorded d m)
                  (matches→eq c (deliver c hmac_hex builds send s) (destination s) v.trail.digest
                    (c.sha256_hex payload) held)
                  u))
        ]
      ]
