-- ===== src/Gateway/Wiring/Accounting.antt =====
-- What the gateway of main keeps (cmd/gateway/main.go): the audit trail around the destination of
-- either mode, in the hooks and the forward function of the spool, and over restarts.
use mathlib.Core.Path.{subst}
use edge_gw_project.Prelude.{ℕ, ◌≡◌, refl, sym, ◌∙◌, ◌⊎◌, inl, Bool, true, Option, none, some, Text}
use edge_gw_project.AuditLog.{Codec}
use edge_gw_project.Outbound.{Request, classify}
use edge_gw_project.Spool.Queue.{
  Hook, on_delivered, on_dead, on_failed, on_depth, on_oldest_pending_age, on_dir_fsync_failure,
}
use edge_gw_project.Spool.Kept.{Confirmation}
use edge_gw_project.Gateway.Audit.{AuditWorld, AuditedError, clear, auditing_forward}
use edge_gw_project.Gateway.Audit.Trail.{
  Delivery, IsTruthful, IsVouched, IsUndelivered, IsAudited, auditing_forward-IsTruthful,
  auditing_forward-IsAudited, IsAudited-auditing_forward,
}
use edge_gw_project.Gateway.Metrics.{Reals}
use edge_gw_project.Gateway.Wiring.{
  Places, DeliveryError, Routing, Surroundings, is_audited, destination, deliver, spool_forward,
  around, hooks, reborn,
}
use edge_gw_project.Gateway.Wiring.Arrival.{
  HasArrived, IsReady, deliver-IsReady, deliver-HasArrived, deliver-keeps,
}

-- The trail is in order, and the guard holds no digest but of bytes that have arrived.
abbrev pub IsSound :
    {P F : Type 0} → Codec → Routing → (Text → P → Type 0) → Surroundings P F → Type 0
IsSound c s Received w = IsTruthful c (IsReady s) (HasArrived c.format_day Received s) w.trail

abbrev pub IsAccountedFor :
    {P F : Type 0} → Codec → Routing → (Text → P → Type 0) → Text → Surroundings P F → Type 0
IsAccountedFor c s Received payload w =
    IsAudited c (destination s) (HasArrived c.format_day Received s) payload w.trail

module _ {P F : Type 0} (r : Reals F) (c : Codec) (hmac_hex : Text → Text → Text)
    (builds : Text → Bool) (send : Request → P → Option ℕ × P) (Received : Text → P → Type 0)
    (receives : (q : Request) (p : P) (status : ℕ)
      → (send q p).0 ≡ some status
      → classify status ≡ none
      → Received q.body (send q p).1)
    (send-Received : (q : Request) (b : Text) (p : P) → Received b p → Received b (send q p).1)
    (s : Routing) (audited : is_audited s ≡ true) where
  pub hooks-IsSound :
      (h : Hook) (w : Surroundings P F)
      → IsSound c s Received w
      → IsSound c s Received (hooks r s h w)
  unfolding hooks clear
  hooks-IsSound (on_delivered t now) w k = k
  hooks-IsSound on_dead w (h, ready, g) = rw audited (h, ready, inl refl)
  hooks-IsSound on_failed w k = k
  hooks-IsSound (on_depth d) w k = k
  hooks-IsSound (on_oldest_pending_age t now) w k = k
  hooks-IsSound on_dir_fsync_failure w k = k

  pub hooks-IsAccountedFor :
      (p : Text) (h : Hook) (w : Surroundings P F)
      → IsAccountedFor c s Received p w
      → IsAccountedFor c s Received p (hooks r s h w)
  unfolding hooks clear
  hooks-IsAccountedFor p (on_delivered t now) w k = k
  hooks-IsAccountedFor p on_dead w k = rw audited k
  hooks-IsAccountedFor p on_failed w k = k
  hooks-IsAccountedFor p (on_depth d) w k = k
  hooks-IsAccountedFor p (on_oldest_pending_age t now) w k = k
  hooks-IsAccountedFor p on_dir_fsync_failure w k = k

  pub reborn-IsSound :
      (w : Surroundings P F) → IsSound c s Received w → IsSound c s Received (reborn r w)
  unfolding reborn
  reborn-IsSound w k = (inl refl, inl refl, inl refl)

  pub reborn-IsAccountedFor :
      (p : Text) (w : Surroundings P F)
      → IsAccountedFor c s Received p w
      → IsAccountedFor c s Received p (reborn r w)
  unfolding reborn
  reborn-IsAccountedFor p w k = k

  abbrev passes :
      Text → Surroundings P F → Option (AuditedError DeliveryError) × AuditWorld (Places P)
  passes payload w =
      auditing_forward c (deliver c hmac_hex builds send s) (destination s) payload w.trail

  pub forwarded_as :
      (payload : Text) (w : Surroundings P F)
      → ((spool_forward c hmac_hex builds send s payload w).0 ≡ (passes payload w).0)
        × ((spool_forward c hmac_hex builds send s payload w).1.trail ≡ (passes payload w).1)
  unfolding spool_forward around
  forwarded_as payload w = rw audited (refl, refl)

  -- The arrivals at the destination as what the audit trail asks of it.
  abbrev pub arriving : Delivery (deliver c hmac_hex builds send s)
  arriving = record {
    IsReady = IsReady s;
    deliver_keeps = deliver-IsReady c hmac_hex builds send Received receives send-Received s;
    Delivered = HasArrived c.format_day Received s;
    delivers = deliver-HasArrived c hmac_hex builds send Received receives send-Received s;
    deliver_delivered =
        λ p q d. deliver-keeps c hmac_hex builds send Received receives send-Received s q p d;
  }

  pub truthful :
      (payload : Text) (w : Surroundings P F)
      → IsSound c s Received w
      → IsTruthful c (IsReady s) (HasArrived c.format_day Received s) (passes payload w).1
        × (IsUndelivered c (deliver c hmac_hex builds send s) (destination s) payload w.trail
            ⊎ IsVouched c
                (HasArrived c.format_day Received s)
                (c.sha256_hex payload)
                (passes payload w).1.dest)
  truthful payload w k =
      let (_, t, o) =
        auditing_forward-IsTruthful c (deliver c hmac_hex builds send s) (destination s) arriving
          payload w.trail k in
      (t, o)

  pub forward-IsSound :
      (payload : Text) (w : Surroundings P F)
      → IsSound c s Received w
      → IsSound c s Received (spool_forward c hmac_hex builds send s payload w).1
  forward-IsSound payload w k =
      subst (IsTruthful c (IsReady s) (HasArrived c.format_day Received s))
        (sym (forwarded_as payload w).1) (truthful payload w k).0

  pub forward-confirms :
      (payload : Text) (w : Surroundings P F)
      → IsSound c s Received w
      → (spool_forward c hmac_hex builds send s payload w).0 ≡ none
      → IsAccountedFor c s Received payload (spool_forward c hmac_hex builds send s payload w).1
  forward-confirms payload w k ok =
      let (a, t) = forwarded_as payload w in
      subst (IsAudited c (destination s) (HasArrived c.format_day Received s) payload) (sym t) (
        auditing_forward-IsAudited c (deliver c hmac_hex builds send s) (destination s) arriving
          payload w.trail k (sym a ∙ ok))

  pub forward-stays :
      (payload other : Text) (w : Surroundings P F)
      → IsSound c s Received w
      → IsAccountedFor c s Received payload w
      → IsAccountedFor c s Received payload (spool_forward c hmac_hex builds send s other w).1
  forward-stays payload other w k h =
      subst (IsAudited c (destination s) (HasArrived c.format_day Received s) payload)
        (sym (forwarded_as other w).1)
        (IsAudited-auditing_forward c (deliver c hmac_hex builds send s) (destination s) arriving
          payload other w.trail k h)

  -- The audit record as the spool's confirmation.
  abbrev pub accounting : Confirmation (hooks r s) (spool_forward c hmac_hex builds send s)
  accounting = record {
    Good = IsSound c s Received;
    hooks_keep = hooks-IsSound;
    forward_keeps = forward-IsSound;
    Confirmed = IsAccountedFor c s Received;
    confirms = forward-confirms;
    forward_confirmed = forward-stays;
    hooks_confirmed = hooks-IsAccountedFor;
  }
