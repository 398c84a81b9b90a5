-- ===== src/Gateway/Server/Served.antt =====
-- What becomes of a request in the mux and the middleware (cmd/gateway/main.go,
-- internal/middleware/middleware.go).
use edge_gw_project.Prelude.{
  ℕ, ◌≡◌, ◌≢◌, refl, sym, ap, ◌∙◌, ◌⊎◌, inl, inr, true, Option, List, [], ◌∷◌, ◌++◌, Text, codes,
  text_eq, text_eq→eq, is_empty, arith, Bool-cases,
}
use edge_gw_project.Gateway.Gate.{is_let_through, let_through_has_key}
use edge_gw_project.Gateway.Readiness.{
  SpoolStatus, Thresholds, spool_reasons, audit_reasons, check_readiness,
}
use edge_gw_project.Gateway.Server.{
  Write, write_body, status_sent, status_logged, Incoming, Handler, respond, limited, body_limit,
  require_api_key, max_body_size, request_logger, mux, health, readyz, metrics, serve,
}

-- What a request has shown that reaches the handler of /process.
abbrev pub HasKey : Text → Incoming → Type 0
HasKey key q = (key ≡ []) ⊎ ((q.authorization ≡ codes "Bearer " ++ key) ⊎ (q.gateway_key ≡ key))

has_key :
    (key : Text) (q : Incoming)
    → is_let_through key q.authorization q.gateway_key ≡ true
    → HasKey key q
has_key [] q h = inl refl
has_key (k ∷ key) q h =
    inr (let_through_has_key (k ∷ key) q.authorization q.gateway_key (λ e. cc e) h)

-- An answer of the server's own, which is never a 202.
pub data IsOwn : List Write → Type 0 where
  with_header : (n : ℕ) → n ≢ 202 → IsOwn (respond n)
  body_only : IsOwn (write_body ∷ [])

logged-IsOwn : {w : List Write} → IsOwn w → status_logged 200 w ≡ status_sent w
unfolding status_logged status_sent
logged-IsOwn (with_header n h) = refl
logged-IsOwn body_only = refl

pub sent-IsOwn : {w : List Write} → IsOwn w → status_sent w ≢ 202
unfolding status_sent
sent-IsOwn (with_header n h) = h
sent-IsOwn body_only = λ e. absurd (omega (arith, e))

logged-respond : (n : ℕ) → status_logged 200 (respond n) ≡ n
unfolding status_logged
logged-respond n = refl

pub sent-respond : (n : ℕ) → status_sent (respond n) ≡ n
unfolding status_sent
sent-respond n = refl

module _ {S : Type 0} (clean_path : Text → Text) (check : Incoming → S → ℕ)
    (check_not_202 : (q : Incoming) (s : S) → check q s ≢ 202) (key : Text)
    (process : Handler S) where
  -- What becomes of a request: the server answers by itself and leaves the state, or the request
  -- has the key and reaches the handler of /process.
  pub data Served (q : Incoming) (s : S) (out : List Write × S) : Type 0 where
    by_itself : (w : List Write) → IsOwn w → out ≡ (w, s) → Served q s out
    processed : q.path ≡ codes "/process" → HasKey key q → out ≡ process q s → Served q s out

  gate-Served :
      (q : Incoming) (s : S)
      → q.path ≡ codes "/process"
      → Served q s (require_api_key key process q s)
  unfolding require_api_key
  gate-Served q s path = elim (Bool-cases (is_let_through key q.authorization q.gateway_key)) [
    | inl b ↦ rw (b, require_api_key) (processed path (has_key key q b) refl)
    | inr b ↦
        rw (b, require_api_key)
          (by_itself (respond 401) (with_header 401 (λ e. absurd (omega (arith, e)))) refl)
  ]

  mux-Served :
      (q : Incoming) (s : S) → Served q s (mux clean_path check (require_api_key key process) q s)
  unfolding mux health readyz metrics
  mux-Served q s = elim (Bool-cases (text_eq (clean_path q.path) q.path)) [
    | inr c ↦ rw c (by_itself (respond 301) (with_header 301 (λ e. absurd (omega (arith, e)))) refl)
    | inl c ↦ elim (Bool-cases (text_eq q.path (codes "/process"))) [
      | inl p ↦ rw (c, p) (gate-Served q s (text_eq→eq q.path _ p))
      | inr p ↦ elim (Bool-cases (text_eq q.path (codes "/readyz"))) [
        | inl r ↦ rw (c, p, r) (by_itself _ (with_header (check q s) (check_not_202 q s)) refl)
        | inr r ↦ elim (Bool-cases (text_eq q.path (codes "/health"))) [
          | inl h ↦ rw (c, p, r, h) (by_itself _ body_only refl)
          | inr h ↦ elim (Bool-cases (text_eq q.path (codes "/metrics"))) [
            | inl m ↦ rw (c, p, r, h, m) (by_itself _ body_only refl)
            | inr m ↦
                rw (c, p, r, h, m)
                  (by_itself (respond 404) (with_header 404 (λ e. absurd (omega (arith, e)))) refl)
          ]
        ]
      ]
    ]
  ]

  pub serve-Served :
      (q : Incoming) (s : S)
      → let out = serve clean_path check key process q s in
        Served (limited body_limit q) s (out.0.0, out.1)
        × (out.0.1.status ≡ status_logged 200 out.0.0)
  unfolding serve request_logger max_body_size
  serve-Served q s = (mux-Served (limited body_limit q) s, refl)

  pub serve-logged :
      ((q : Incoming) (s : S) → (n : ℕ) × ((process q s).0 ≡ respond n))
      → (q : Incoming) (s : S)
      → (serve clean_path check key process q s).0.1.status
        ≡ status_sent (serve clean_path check key process q s).0.0
  serve-logged answers q s =
      let (served, logged) = serve-Served q s in
      elim served [
        | by_itself w own e ↦
            logged
            ∙ ap (λ o. status_logged 200 o.0) e
            ∙ logged-IsOwn own
            ∙ sym (ap (λ o. status_sent o.0) e)
        | processed path has e ↦
            let (n, f) = answers (limited body_limit q) s in
            let w = ap (λ o. o.0) e ∙ f in
            logged
            ∙ ap (status_logged 200) w
            ∙ logged-respond n
            ∙ sym (ap status_sent w ∙ sent-respond n)
      ]

  pub serve-limited :
      (q : Incoming) (s : S)
      → serve clean_path check key process q s
        ≡ request_logger
            (mux clean_path check (require_api_key key process))
            (limited body_limit q)
            s
  unfolding serve request_logger max_body_size limited
  serve-limited q s = refl

pub check_readiness-ne-202 :
    (t : Thresholds) (spool : Option SpoolStatus) (audit : Option ℕ)
    → (check_readiness t spool audit).0 ≢ 202
unfolding check_readiness
check_readiness-ne-202 t spool audit =
    elim (Bool-cases (is_empty (spool_reasons t spool ++ audit_reasons t audit))) [
      | inl b ↦ rw (b, check_readiness) (λ e. absurd (omega (arith, e)))
      | inr b ↦ rw (b, check_readiness) (λ e. absurd (omega (arith, e)))
    ]
