-- ===== src/Gateway/Readiness.antt =====
-- The readiness check (internal/adapters/inbound.go, ReadinessCheckHandler and the setters of its
-- thresholds).
use edge_gw_project.Prelude.{
  ℕ, ◌<◌, ◌≤◌, ◌⊎◌, inl, inr, Bool-cases, ◌≡◌, refl, ◌↔◌, Bool, true, false, ◌&&◌, Option, none,
  some, List, [], ◌∷◌, ◌++◌,
}
use edge_gw_project.Prelude.{arith, ltb, leb, if◌then◌else◌, is_empty}

-- SpoolStatus and AuditStatus. The age is in nanoseconds.
pub record SpoolStatus : Type 0 where
  pub depth : ℕ
  pub max_depth : ℕ
  pub oldest_pending_age : ℕ
  pub has_pending : Bool
  pub consecutive_dir_fsync_failures : ℕ

-- The thresholds. The one of the ratio depth / max_depth, a quotient of floats, is a test.
pub record Thresholds : Type 0 where
  pub is_ratio_reached : ℕ → ℕ → Bool
  pub max_staleness : ℕ
  pub max_audit_failures : ℕ
  pub max_spool_fsync_failures : ℕ

pub data Reason : Type 0 where
  near_capacity too_stale spool_fsync_failing audit_failing : Reason

abbrev pub given : Bool → Reason → List Reason
given true r = r ∷ []
given false r = []

unfoldable pub is_near_capacity : Thresholds → SpoolStatus → Bool
is_near_capacity t s = ltb 0 s.max_depth && t.is_ratio_reached s.depth s.max_depth

unfoldable pub is_too_stale : Thresholds → SpoolStatus → Bool
is_too_stale t s = s.has_pending && ltb t.max_staleness s.oldest_pending_age

unfoldable pub spool_reasons : Thresholds → Option SpoolStatus → List Reason
spool_reasons t none = []
spool_reasons t (some s) =
    given (is_near_capacity t s) near_capacity
    ++ (given (is_too_stale t s) too_stale
        ++ given (leb t.max_spool_fsync_failures s.consecutive_dir_fsync_failures)
            spool_fsync_failing)

-- The audit log's status is its count of consecutive failures.
unfoldable pub audit_reasons : Thresholds → Option ℕ → List Reason
audit_reasons t none = []
audit_reasons t (some failures) = given (leb t.max_audit_failures failures) audit_failing

-- ReadinessCheckHandler: the status of the response and the reasons in its body.
unfoldable pub check_readiness : Thresholds → Option SpoolStatus → Option ℕ → ℕ × List Reason
check_readiness t spool audit =
    let reasons = spool_reasons t spool ++ audit_reasons t audit in
    if is_empty reasons then (200, []) else (503, reasons)

-- SetReadinessMaxAuditFailures
unfoldable pub set_max_audit_failures : ℕ → Thresholds → Thresholds
set_max_audit_failures n t = if ltb 0 n then record t { max_audit_failures = n } else t

abbrev pub IsSpoolFine : Thresholds → SpoolStatus → Type 0
IsSpoolFine t s =
    ((s.max_depth ≡ 0) ⊎ (t.is_ratio_reached s.depth s.max_depth ≡ false))
    × ((s.has_pending ≡ false) ⊎ (s.oldest_pending_age ≤ t.max_staleness))
    × (s.consecutive_dir_fsync_failures < t.max_spool_fsync_failures)

-- What keeps the gateway ready: of what is registered, nothing is at its limit.
abbrev pub IsKeepingUp : Thresholds → Option SpoolStatus → Option ℕ → Type 0
IsKeepingUp t none none = Unit
IsKeepingUp t none (some n) = n < t.max_audit_failures
IsKeepingUp t (some s) none = IsSpoolFine t s
IsKeepingUp t (some s) (some n) = IsSpoolFine t s × (n < t.max_audit_failures)

capacity_iff :
    (t : Thresholds) (s : SpoolStatus)
    → (is_near_capacity t s ≡ false)
      ↔ ((s.max_depth ≡ 0) ⊎ (t.is_ratio_reached s.depth s.max_depth ≡ false))
unfolding is_near_capacity
capacity_iff t s = elim (Bool-cases (t.is_ratio_reached s.depth s.max_depth)) [
  | inr r ↦ (λ h. inr r, λ h. simp r (ground arith))
  | inl r ↦ elim (Bool-cases (ltb 0 s.max_depth)) [
    | inl m ↦ (
      λ h. absurd (cc (simp (m, r) at h)),
      λ h. elim h [ inl z ↦ absurd (ground (arith, m, z)) | inr n ↦ absurd (cc (r, n)) ],
    )
    | inr m ↦ (λ h. inl (ground (arith, m)), λ h. simp m refl)
  ]
]

stale_iff :
    (t : Thresholds) (s : SpoolStatus)
    → (is_too_stale t s ≡ false)
      ↔ ((s.has_pending ≡ false) ⊎ (s.oldest_pending_age ≤ t.max_staleness))
unfolding is_too_stale
stale_iff t s = elim (Bool-cases s.has_pending) [
  | inr p ↦ (λ h. inl p, λ h. simp p refl)
  | inl p ↦ elim (Bool-cases (ltb t.max_staleness s.oldest_pending_age)) [
    | inl m ↦ (
      λ h. absurd (cc (simp (m, p) at h)),
      λ h. elim h [ inl z ↦ absurd (cc (p, z)) | inr n ↦ absurd (ground (arith, m, n)) ],
    )
    | inr m ↦ (λ h. inr (ground (arith, m)), λ h. simp (p, m) refl)
  ]
]

failures_iff :
    (t : Thresholds) (s : SpoolStatus)
    → (spool_reasons t (some s) ≡ []) ↔ (
        (is_near_capacity t s ≡ false)
        × (is_too_stale t s ≡ false)
        × (s.consecutive_dir_fsync_failures < t.max_spool_fsync_failures))
unfolding spool_reasons
failures_iff t s = (λ h. ground (arith, h), λ h. ground (arith, h))

spool_reasons_iff :
    (t : Thresholds) (s : SpoolStatus) → (spool_reasons t (some s) ≡ []) ↔ IsSpoolFine t s
spool_reasons_iff t s = (
  λ h. let (a, b, c) = (failures_iff t s).0 h in ((capacity_iff t s).0 a, (stale_iff t s).0 b, c),
  λ (a, b, c). (failures_iff t s).1 ((capacity_iff t s).1 a, (stale_iff t s).1 b, c),
)

audit_reasons_iff :
    (t : Thresholds) (n : ℕ) → (audit_reasons t (some n) ≡ []) ↔ (n < t.max_audit_failures)
unfolding audit_reasons
audit_reasons_iff t n = (λ h. ground (arith, h), λ h. ground (arith, h))

split_empty : (a b : List Reason) → a ++ b ≡ [] → (a ≡ []) × (b ≡ [])
split_empty [] b h = (refl, h)
split_empty (x ∷ a) b h = cc

abbrev answer : List Reason → ℕ × List Reason
answer reasons = if is_empty reasons then (200, []) else (503, reasons)

answer_ok : (c : List Reason) → (answer c).0 ≡ 200 → c ≡ []
answer_ok [] h = refl
answer_ok (x ∷ c) h = absurd (omega (arith, h))

-- The readiness check answers 200 exactly if no spool is registered, or the spool has no limit or is
-- below its ratio, nothing waits in it or its oldest signal has not waited longer than the limit,
-- and its failed directory fsyncs are below theirs, and no audit log is
-- registered or its consecutive failures are below their limit.
pub check_readiness_iff :
    (t : Thresholds) (spool : Option SpoolStatus) (audit : Option ℕ)
    → ((check_readiness t spool audit).0 ≡ 200) ↔ IsKeepingUp t spool audit
unfolding check_readiness spool_reasons audit_reasons
check_readiness_iff t none none = (λ h. tt, λ h. refl)
check_readiness_iff t none (some n) =
    let (there, back) = audit_reasons_iff t n in
    (λ h. there (answer_ok (audit_reasons t (some n)) h), λ h. rw (back h) refl)
check_readiness_iff t (some s) none =
    let (there, back) = spool_reasons_iff t s in
    (
      λ h. there (split_empty _ _ (answer_ok (spool_reasons t (some s) ++ []) h)).0,
      λ h. rw (back h) refl,
    )
check_readiness_iff t (some s) (some n) = (ready, fine)
  where
    ready : (check_readiness t (some s) (some n)).0 ≡ 200 → IsKeepingUp t (some s) (some n)
    ready h =
        let (a, b) =
          split_empty _ _ (answer_ok (spool_reasons t (some s) ++ audit_reasons t (some n)) h) in
        ((spool_reasons_iff t s).0 a, (audit_reasons_iff t n).0 b)

    fine : IsKeepingUp t (some s) (some n) → (check_readiness t (some s) (some n)).0 ≡ 200
    fine (p, q) = rw ((spool_reasons_iff t s).1 p, (audit_reasons_iff t n).1 q) refl
