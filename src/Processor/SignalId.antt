-- ===== src/Processor/SignalId.antt =====
-- The identifier of an event (signal_id, NeedsFallbackSignalID, MissingSignalIDSentinel) of
-- internal/processor/anonymizer.go.
use edge_gw_project.Prelude.{
  ◌≡◌, ◌≢◌, refl, ◌⊎◌, inl, inr, true, false, ◌++◌, Text, codes, trim_space,
}
use edge_gw_project.Prelude.{[], ◌∷◌, is_empty}
use edge_gw_project.Processor.Outside.{Floats, Toolkit}
use edge_gw_project.Processor.Signal.{
  RawData, Settings, anonymize_signal, signal_id_of, needs_fallback_signal_id,
  missing_signal_id_sentinel,
}

module _ {F : Type 0} (fl : Floats F) (t : Toolkit) (s : Settings F) where
  -- Where a signal_id comes from.
  abbrev pub IsIdentified : Text → Text → Text → Type 0
  IsIdentified ref fallback i =
      ((trim_space ref ≢ []) × (i ≡ t.hmac_hex s.salt (codes "v2|sigid|" ++ trim_space ref)))
      ⊎ ((trim_space ref ≡ []) × (trim_space fallback ≢ []) × (i ≡ fallback))
      ⊎ ((trim_space ref ≡ []) × (trim_space fallback ≡ []) × (i ≡ missing_signal_id_sentinel))

  empty_cases : (a : Text) → ((is_empty a ≡ true) × (a ≡ [])) ⊎ ((is_empty a ≡ false) × (a ≢ []))
  empty_cases [] = inl (refl, refl)
  empty_cases (c ∷ a) = inr (refl, λ e. cc e)

  -- Every signal_id is the keyed hash of the trimmed reference if that is not blank, else the
  -- caller's fallback if that is not blank, else the sentinel MISSING_SIGNAL_ID.
  pub signal_id-IsIdentified :
      (r : RawData F) (fallback : Text)
      → IsIdentified r.transaction_ref fallback (anonymize_signal fl t s r fallback).signal_id
  unfolding anonymize_signal signal_id_of needs_fallback_signal_id
  signal_id-IsIdentified r fallback = elim (empty_cases (trim_space r.transaction_ref)) [
    | inr (e, f) ↦ simp e (inl (f, refl))
    | inl (e, f) ↦ elim (empty_cases (trim_space fallback)) [
      | inr (d, g) ↦ simp (e, d) (inr (inl (f, g, refl)))
      | inl (d, g) ↦ simp (e, d) (inr (inr (f, g, refl)))
    ]
  ]
