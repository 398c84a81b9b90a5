-- ===== src/Gateway/Audit/Retry.antt =====
-- What a repeated delivery does while only the audit write is owed (cmd/gateway/audit.go).
use mathlib.Core.Path.{subst}
use edge_gw_project.Prelude.{ℕ, zero, suc, ◌≡◌, refl, sym, ◌∙◌, ◌≢◌, ◌⊎◌, true, inl}
use edge_gw_project.Prelude.{inr, Option, none, some, [], ◌∷◌, Text}
use edge_gw_project.Prelude.{text_eq_refl, text_eq→eq, Bool-cases, Option-cases}
use edge_gw_project.AuditLog.{Codec, RecordError}
use edge_gw_project.Gateway.Audit.{
  AuditWorld, AuditedError, not_recorded, matches, clear, write_audit_from_payload, account,
  after_delivery, auditing_forward,
}
use edge_gw_project.Gateway.Audit.Laws.{write_audit_keeps, after_sent}

module _ {D E : Type 0} (c : Codec) (deliver : Text → D → Option E × D) (destination : Text) where
  account_keeps :
      (payload : Text) (w : AuditWorld D)
      → ((account c deliver destination
            (write_audit_from_payload c deliver destination payload w)).1.dest
          ≡ w.dest)
        × (((account c deliver destination
                (write_audit_from_payload c deliver destination payload w)).0
              ≡ none)
            ⊎ ((account c deliver destination
                  (write_audit_from_payload c deliver destination payload w)).1.digest
                ≡ w.digest))
  unfolding account clear
  account_keeps payload w =
      let written = write_audit_from_payload c deliver destination payload w in
      let (same_dest, same_digest) = write_audit_keeps c deliver destination payload w in
      let (d, o) = either written.0 written.1 in
      (d ∙ same_dest, elim o [ inl e ↦ inl e | inr e ↦ inr (e ∙ same_digest) ])
    where
      either :
          (o : Option RecordError) (u : AuditWorld D)
          → ((account c deliver destination (o, u)).1.dest ≡ u.dest)
            × (((account c deliver destination (o, u)).0 ≡ none)
                ⊎ ((account c deliver destination (o, u)).1.digest ≡ u.digest))
      either none u = (refl, inl refl)
      either (some e) u = (refl, inr refl)

  pub matches→eq : (held digest : Text) → matches held digest ≡ true → held ≡ digest
  unfolding matches
  matches→eq [] digest h = cc
  matches→eq (a ∷ held) digest h = text_eq→eq (a ∷ held) digest h

  matches_refl : (held : Text) → held ≢ [] → matches held held ≡ true
  unfolding matches
  matches_refl [] h = absurd (h refl)
  matches_refl (a ∷ held) h = text_eq_refl (a ∷ held)

  -- With the digest of the bytes pending, a call delivers nothing.
  pending_call :
      (payload : Text) (w : AuditWorld D)
      → c.sha256_hex payload ≢ []
      → w.digest ≡ c.sha256_hex payload
      → ((auditing_forward c deliver destination payload w).1.dest ≡ w.dest)
        × (((auditing_forward c deliver destination payload w).0 ≡ none)
            ⊎ ((auditing_forward c deliver destination payload w).1.digest ≡ c.sha256_hex payload))
  unfolding auditing_forward
  pending_call payload w h p =
      let m =
        subst (λ g. matches g (c.sha256_hex payload) ≡ true) (sym p)
          (matches_refl (c.sha256_hex payload) h) in
      let (d, o) = account_keeps payload w in
      rw m (d, elim o [ inl e ↦ inl e | inr e ↦ inr (e ∙ p) ])

  not_recorded_pending :
      (payload : Text) (w : AuditWorld D) (n : ℕ) (e : RecordError)
      → (auditing_forward c deliver destination payload w).0 ≡ some (not_recorded n e)
      → (auditing_forward c deliver destination payload w).1.digest ≡ c.sha256_hex payload
  unfolding auditing_forward after_delivery
  not_recorded_pending payload w n e f =
      elim (Bool-cases (matches w.digest (c.sha256_hex payload))) [
        | inl m ↦ rw m (
            kept (account_keeps payload w).1 (rw m at f)
            ∙ matches→eq w.digest (c.sha256_hex payload) m)
        | inr m ↦ elim (Option-cases (deliver payload w.dest).0) [
          | inl g ↦
              rw (m, g, after_delivery)
                (kept (account_keeps payload (after_sent c deliver destination payload w)).1
                  (rw (m, g, after_delivery) at f))
          | inr (x, g) ↦ cc (rw (m, g, after_delivery) at f)
        ]
      ]
    where
      kept :
          {o : Option (AuditedError E)} {a b : Text}
          → (o ≡ none) ⊎ (a ≡ b)
          → o ≡ some (not_recorded n e)
          → a ≡ b
      kept (inl x) y = cc
      kept (inr x) y = x

  -- The spool's repetitions of one item: up to `k` calls, until one succeeds.
  unfoldable pub retry : ℕ → Text → AuditWorld D → AuditWorld D
  retry zero payload w = w
  retry (suc k) payload w =
      let rest = retry k payload (auditing_forward c deliver destination payload w).1 in
      elim (auditing_forward c deliver destination payload w).0 [
        | none ↦ (auditing_forward c deliver destination payload w).1
        | some e ↦ rest
      ]

  retry-pending :
      (k : ℕ) (payload : Text) (w : AuditWorld D)
      → c.sha256_hex payload ≢ []
      → w.digest ≡ c.sha256_hex payload
      → (retry k payload w).dest ≡ w.dest
  unfolding retry
  retry-pending zero payload w h p = refl
  retry-pending (suc k) payload w h p =
      let (d, o) = pending_call payload w h p in
      elim (Option-cases (auditing_forward c deliver destination payload w).0) [
        | inl e ↦ rw (e, retry) d
        | inr (x, e) ↦
            let q = not_none o e in
            rw (e, retry)
              (retry-pending k payload (auditing_forward c deliver destination payload w).1 h q ∙ d)
      ]
    where
      not_none :
          {A : Type 0} {x : A} {o : Option A} {a b : Text}
          → (o ≡ none) ⊎ (a ≡ b)
          → o ≡ some x
          → a ≡ b
      not_none (inl x) y = cc
      not_none (inr x) y = x

  -- Where the digest of the bytes is not empty, and after a first call in which they were
  -- delivered (now or before) but not recorded, no number of
  -- repetitions with the same bytes, up to and with the first that succeeds, reaches the
  -- destination again.
  pub retry_sends_nothing :
      (payload : Text) (w : AuditWorld D) (n : ℕ) (e : RecordError) (k : ℕ)
      → c.sha256_hex payload ≢ []
      → (auditing_forward c deliver destination payload w).0 ≡ some (not_recorded n e)
      → (retry k payload (auditing_forward c deliver destination payload w).1).dest
        ≡ (auditing_forward c deliver destination payload w).1.dest
  retry_sends_nothing payload w n e k h f =
      retry-pending k payload (auditing_forward c deliver destination payload w).1 h
        (not_recorded_pending payload w n e f)
