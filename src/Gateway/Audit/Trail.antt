-- ===== src/Gateway/Audit/Trail.antt =====
-- What the audit trail keeps from one delivery to the next (cmd/gateway/audit.go): the records
-- that stand in the log, and whose digest the guard may hold.
use mathlib.Core.Path.{subst}
use edge_gw_project.Prelude.{
  ◌≡◌, refl, sym, ◌∙◌, ◌⊎◌, inl, inr, true, Option, none, some, [], Text, Bool-cases, Option-cases,
}
use edge_gw_project.AuditLog.{Codec}
use edge_gw_project.Gateway.Audit.{
  AuditWorld, not_delivered, matches, write_audit_from_payload, account, after_delivery,
  auditing_forward,
}
use edge_gw_project.Gateway.Audit.Laws.{write_audit_keeps, after_sent, auditing_forward-IsRecorded}
use edge_gw_project.Gateway.Audit.Retry.{matches→eq}
use edge_gw_project.Gateway.Audit.Growth.{
  IsLogHandled, IsLater, IsLater-refl, IsLater-IsLogHandled, HasRecord, HasRecord-IsLater,
  write_audit-IsLater, account_logger, account_digest, auditing_forward-dest, IsRecorded-HasRecord,
}

-- The destination has confirmed bytes of this digest.
abbrev pub IsVouched : {D : Type 0} → Codec → (Text → D → Type 0) → Text → D → Type 0
IsVouched c Delivered digest d = (q : Text) × (c.sha256_hex q ≡ digest) × Delivered q d

-- The log is in order and the destination ready, and the guard's digest is that of bytes that the
-- destination has confirmed.
abbrev pub IsTruthful :
    {D : Type 0} → Codec → (D → Type 0) → (Text → D → Type 0) → AuditWorld D → Type 0
IsTruthful c IsReady Delivered w =
    IsLogHandled w.logger
    × IsReady w.dest
    × ((w.digest ≡ []) ⊎ IsVouched c Delivered w.digest w.dest)

-- What stands for a confirmation: the payload's record, and confirmed bytes of its digest.
abbrev pub IsAudited :
    {D : Type 0} → Codec → Text → (Text → D → Type 0) → Text → AuditWorld D → Type 0
IsAudited c destination Delivered payload w =
    HasRecord c destination payload w.logger × IsVouched c Delivered (c.sha256_hex payload) w.dest

-- What a confirmed delivery is: a destination that is ready confirms only bytes that it then has,
-- stays ready, and keeps what it has.
pub record Delivery {D E : Type 0} (deliver : Text → D → Option E × D) : Type 1 where
  pub IsReady : D → Type 0
  pub deliver_keeps : (p : Text) (d : D) → IsReady d → IsReady (deliver p d).1
  pub Delivered : Text → D → Type 0
  pub delivers :
      (p : Text) (d : D) → IsReady d → (deliver p d).0 ≡ none → Delivered p (deliver p d).1
  pub deliver_delivered :
      (p q : Text) (d : D) → IsReady d → Delivered p d → Delivered p (deliver q d).1

module _ {D E : Type 0} (c : Codec) (deliver : Text → D → Option E × D) (destination : Text) where
  -- The destination has not confirmed the bytes, and the log is what it was.
  abbrev pub IsUndelivered : Text → AuditWorld D → Type 0
  IsUndelivered payload w =
      ((auditing_forward c deliver destination payload w).1.logger ≡ w.logger)
      × ((f : E) × ((auditing_forward c deliver destination payload w).0 ≡ some (not_delivered f)))

  module _ (law : Delivery deliver) where
    abbrev Guards : AuditWorld D → Type 0
    Guards w = (w.digest ≡ []) ⊎ IsVouched c law.Delivered w.digest w.dest

    -- The audit write and its account keep the trail, and reach no destination.
    accounted :
        (payload : Text) (w : AuditWorld D)
        → IsTruthful c law.IsReady law.Delivered w
        → let t =
            (account c deliver destination
              (write_audit_from_payload c deliver destination payload w)).1 in
          IsLater w.logger t.logger × IsTruthful c law.IsReady law.Delivered t × (t.dest ≡ w.dest)
    accounted payload w (h, ready, g) =
        let written = write_audit_from_payload c deliver destination payload w in
        let t = (account c deliver destination written).1 in
        let (same_logger, same_dest) = account_logger c deliver destination written in
        let (kept_dest, kept_digest) = write_audit_keeps c deliver destination payload w in
        let dest : t.dest ≡ w.dest = same_dest ∙ kept_dest in
        let later : IsLater w.logger t.logger =
          subst (IsLater w.logger) (sym same_logger)
            (write_audit-IsLater c deliver destination payload w h) in
        (
          later,
          (
            IsLater-IsLogHandled w.logger t.logger later,
            subst law.IsReady (sym dest) ready,
            elim (account_digest c deliver destination written) [
              | inl e ↦ inl e
              | inr e ↦ guarded_on w t (e ∙ kept_digest) dest g
            ],
          ),
          dest,
        )
      where
        guarded_on :
            (u t : AuditWorld D) → t.digest ≡ u.digest → t.dest ≡ u.dest → Guards u → Guards t
        guarded_on u t e d (inl z) = inl (e ∙ z)
        guarded_on u t e d (inr (q, s, v)) = inr (q, s ∙ sym e, subst (law.Delivered q) (sym d) v)

    matches-IsVouched :
        (payload : Text) (w : AuditWorld D)
        → matches w.digest (c.sha256_hex payload) ≡ true
        → Guards w
        → IsVouched c law.Delivered (c.sha256_hex payload) w.dest
    unfolding matches
    matches-IsVouched payload w m (inl z) = cc (rw z at m)
    matches-IsVouched payload w m (inr v) =
        subst (λ z. IsVouched c law.Delivered z w.dest)
          (matches→eq c deliver destination w.digest (c.sha256_hex payload) m) v

    pub auditing_forward-IsTruthful :
        (payload : Text) (w : AuditWorld D)
        → IsTruthful c law.IsReady law.Delivered w
        → let t = (auditing_forward c deliver destination payload w).1 in
          IsLater w.logger t.logger
          × IsTruthful c law.IsReady law.Delivered t
          × (IsUndelivered payload w ⊎ IsVouched c law.Delivered (c.sha256_hex payload) t.dest)
    unfolding auditing_forward after_delivery
    auditing_forward-IsTruthful payload w (h, ready, g) =
        elim (Bool-cases (matches w.digest (c.sha256_hex payload))) [
          | inl m ↦
              let (later, truthful, dest) = accounted payload w (h, ready, g) in
              rw m (
                later,
                truthful,
                inr (
                    subst (IsVouched c law.Delivered (c.sha256_hex payload)) (sym dest)
                      (matches-IsVouched payload w m g)),
              )
          | inr m ↦ elim (Option-cases (deliver payload w.dest).0) [
            | inl e ↦
                let confirmed : IsVouched c law.Delivered (c.sha256_hex payload)
                    (deliver payload w.dest).1 =
                  (payload, refl, law.delivers payload w.dest ready e) in
                let (later, truthful, dest) =
                  accounted payload (after_sent c deliver destination payload w)
                    (h, law.deliver_keeps payload w.dest ready, inr confirmed) in
                rw (m, e, after_delivery)
                  (
                    later,
                    truthful,
                    inr (
                        subst (IsVouched c law.Delivered (c.sha256_hex payload)) (sym dest)
                          confirmed),
                  )
            | inr (f, e) ↦
                rw (m, e, after_delivery)
                  (
                    IsLater-refl w.logger h,
                    (h, law.deliver_keeps payload w.dest ready, onward g),
                    inl (refl, (f, refl)),
                  )
          ]
        ]
      where
        onward : Guards w → Guards (record w { dest = (deliver payload w.dest).1 })
        onward (inl z) = inl z
        onward (inr (q, s, v)) = inr (q, s, law.deliver_delivered q payload w.dest ready v)

    pub auditing_forward-IsAudited :
        (payload : Text) (w : AuditWorld D)
        → IsTruthful c law.IsReady law.Delivered w
        → (auditing_forward c deliver destination payload w).0 ≡ none
        → IsAudited c destination law.Delivered payload
            (auditing_forward c deliver destination payload w).1
    auditing_forward-IsAudited payload w t ok =
        let (later, _, o) = auditing_forward-IsTruthful payload w t in
        let (recorded, _, _) = auditing_forward-IsRecorded c deliver destination payload w t.0 ok in
        (
          IsRecorded-HasRecord c deliver destination payload w later recorded,
          elim o [ inl (_, (f, e)) ↦ cc | inr v ↦ v ],
        )

    pub IsAudited-auditing_forward :
        (payload other : Text) (w : AuditWorld D)
        → IsTruthful c law.IsReady law.Delivered w
        → IsAudited c destination law.Delivered payload w
        → IsAudited c destination law.Delivered payload
            (auditing_forward c deliver destination other w).1
    IsAudited-auditing_forward payload other w t (r, (q, s, v)) =
        let (later, _, _) = auditing_forward-IsTruthful other w t in
        (
          HasRecord-IsLater c destination payload w.logger _ later r,
          (
            q,
            s,
            elim (auditing_forward-dest c deliver destination other w) [
              | inl e ↦ subst (law.Delivered q) (sym e) v
              | inr e ↦ subst (law.Delivered q) (sym e) (law.deliver_delivered q other w.dest t.1 v)
            ],
          ),
        )
