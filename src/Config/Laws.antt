-- ===== src/Config/Laws.antt =====
-- What the loaded configuration promises (internal/config/config.go).
use edge_gw_project.Prelude.{
  ℕ, zero, suc, ◌≡◌, ◌≢◌, refl, false, Option, none, Text, [], ◌∷◌, codes, Bool-cases, inl, inr,
}
use edge_gw_project.Processor.Outside.{Floats}
use edge_gw_project.Config.{
  GatewayConfig, Environment, override, from_environment, normal_word, positive_threshold,
  positive_days, ℤ, pos, negsuc, with_defaults, load,
}

module _ {F : Type 0} (fl : Floats F) (to_lower : ℕ → ℕ) where
  override_ne : (s d : Text) → d ≢ [] → override s d ≢ []
  unfolding override
  override_ne [] d h = h
  override_ne (c ∷ s) d h = λ e. cc e

  positive_threshold_pos :
      (x : F)
      → fl.le (fl.of_nat 10000) (fl.of_nat 0) ≡ false
      → fl.le (positive_threshold fl to_lower x) (fl.of_nat 0) ≡ false
  unfolding positive_threshold
  positive_threshold_pos x h = elim (Bool-cases (fl.le x (fl.of_nat 0))) [
    | inl e ↦ rw (e, positive_threshold) h
    | inr e ↦ rw (e, positive_threshold) e
  ]

  positive_days_pos : (d : ℤ) → (n : ℕ) × (positive_days d ≡ pos (suc n))
  unfolding positive_days
  positive_days_pos (pos zero) = (89, refl)
  positive_days_pos (pos (suc n)) = (n, refl)
  positive_days_pos (negsuc n) = (89, refl)

  -- A freshly loaded configuration, whatever the file and the environment hold, has a mode and a
  -- keying that are not empty, a positive retention, and a reporting threshold that is not at most
  -- 0, where 10000 is not at most 0.
  pub load_complete :
      (file : Option (GatewayConfig F)) (e : Environment F)
      → fl.le (fl.of_nat 10000) (fl.of_nat 0) ≡ false
      → ((load fl to_lower none file e).mode ≢ [])
        × ((load fl to_lower none file e).mosaic_keying ≢ [])
        × ((n : ℕ) × ((load fl to_lower none file e).local_log_retention_days ≡ pos (suc n)))
        × (fl.le (load fl to_lower none file e).reporting_threshold (fl.of_nat 0) ≡ false)
  unfolding load with_defaults from_environment normal_word
  load_complete file e h = (
    override_ne _ (codes "middleware") (λ z. cc z),
    override_ne _ (codes "bank") (λ z. cc z),
    positive_days_pos _,
    positive_threshold_pos _ h,
  )
