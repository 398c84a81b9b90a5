-- ===== src/Gateway/Healthcheck.antt =====
-- The self-probe of the container (cmd/gateway/main.go, healthcheck) and what it asks.
use edge_gw_project.Prelude.{
  ℕ, ◌≡◌, ◌↔◌, ap, not, ◌&&◌, Option, none, some, Text, codes, ◌++◌, ◌==◌, is_empty, if◌then◌else◌,
  arith, Option-cases, inl, inr,
}
use edge_gw_project.Outbound.{or_text}

-- The variables that the probe reads.
pub record ProbeEnv : Type 0 where
  pub gateway_port : Text
  pub tls_cert_file : Text
  pub tls_key_file : Text

unfoldable pub probe_url : ProbeEnv → Text
probe_url e =
    let scheme =
      if not (is_empty e.tls_cert_file) && not (is_empty e.tls_key_file)
      then codes "https"
      else codes "http" in
    scheme ++ (codes "://localhost:" ++ (or_text e.gateway_port (codes "8080") ++ codes "/health"))

abbrev exit_of : ℕ → ℕ
exit_of status = if status == 200 then 0 else 1

-- The exit status, given the status that the client gets from a URL, if it gets one.
unfoldable pub healthcheck : (Text → Option ℕ) → ProbeEnv → ℕ
unfolding probe_url
healthcheck get e = elim (get (probe_url e)) [ none ↦ 1 | some status ↦ exit_of status ]

-- The probe exits with 0 if and only if the gateway answers 200.
healthcheck_iff :
    (get : Text → Option ℕ) (e : ProbeEnv)
    → (healthcheck get e ≡ 0) ↔ (get (probe_url e) ≡ some 200)
unfolding healthcheck
healthcheck_iff get e = elim (Option-cases (get (probe_url e))) [
  | inl n ↦ (λ h. absurd (omega (arith, rw (n, healthcheck) at h)), λ h. cc (n, h))
  | inr (status, n) ↦ rw (n, healthcheck) (λ h. ap some (is_ok status h), λ h. ok status (cc h))
]
  where
    is_ok : (status : ℕ) → exit_of status ≡ 0 → status ≡ 200
    is_ok status h = ground (arith, h)

    ok : (status : ℕ) → status ≡ 200 → exit_of status ≡ 0
    ok status h = ground (arith, h)
