-- ===== src/Gateway/Server/Reading.antt =====
-- How much of a body the server reads (internal/middleware/middleware.go, MaxBodySize).
use edge_gw_project.Prelude.{
  ℕ, zero, suc, ◌≡◌, refl, sym, ap, ◌∙◌, Bool, true, false, ◌||◌, Option, List, [], ◌∷◌, ◌++◌, Text,
  ltb, lt→ltb, length, take, length-append, arith,
}
use edge_gw_project.Processor.Outside.{Floats, Toolkit}
use edge_gw_project.Processor.Signal.{Settings}
use edge_gw_project.Spool.Queue.{Hook}
use edge_gw_project.Gateway.Readiness.{Thresholds}
use edge_gw_project.Gateway.Transaction.{Gateway}
use edge_gw_project.Gateway.Server.{
  Write, Incoming, Handler, limited, body_limit, require_api_key, request_logger, mux, StreamWire,
  serve_queueing, LogLine,
}
use edge_gw_project.Gateway.Server.Served.{serve-limited}
use edge_gw_project.Gateway.Server.Laws.{ready, handler, served, ready-ne-202}

take-cut : (n : ℕ) (front rest : Text) → length front ≡ n → take n (front ++ rest) ≡ front
take-cut zero [] rest h = refl
take-cut zero (x ∷ front) rest h = absurd (omega (arith, h))
take-cut (suc n) [] rest h = absurd (omega (arith, h))
take-cut (suc n) (x ∷ front) rest h = ap (λ z. x ∷ z) (take-cut n front rest (omega (arith, h)))

or-true : (b : Bool) → (b || true) ≡ true
or-true true = refl
or-true false = refl

-- A body that is longer than the limit.
limited_long :
    (n : ℕ) (q : Incoming) (front : Text) (x : ℕ) (rest : Text)
    → length front ≡ n
    → limited n (record q { body = front ++ (x ∷ rest) }) ≡ record q { body = front; is_cut = true }
unfolding limited
limited_long n q front x rest h =
    let longer : ltb n (length (front ++ (x ∷ rest))) ≡ true =
      lt→ltb n _ (omega (arith, h, length-append front (x ∷ rest))) in
    rw (longer, take-cut n front (x ∷ rest) h, or-true q.is_cut) refl

module _ {F : Type 0} (fl : Floats F) (t : Toolkit) (wire : StreamWire F) (settings : Settings F)
    (thresholds : Thresholds) (clean_path : Text → Text) (key : Text) {W : Type 0}
    (hooks : Hook → W → W) (audit : W → Option ℕ) where
  abbrev check : Incoming → Gateway W → ℕ
  check = ready fl t wire settings thresholds clean_path key hooks audit

  abbrev process : Handler (Gateway W)
  process = handler fl t wire settings thresholds clean_path key hooks audit

  abbrev answers : Incoming → Gateway W → (List Write × LogLine) × Gateway W
  answers = served fl t wire settings thresholds clean_path key hooks audit

  -- No byte of a body beyond the first mebibyte has a part in the response, in the log or in what
  -- the gateway does, but that there is one.
  pub reads_at_most_limit :
      (q : Incoming) (g : Gateway W) (front : Text) (x y : ℕ) (rest others : Text)
      → length front ≡ body_limit
      → answers (record q { body = front ++ (x ∷ rest) }) g
        ≡ answers (record q { body = front ++ (y ∷ others) }) g
  unfolding serve_queueing
  reads_at_most_limit q g front x y rest others h =
      serve-limited clean_path check
        (ready-ne-202 fl t wire settings thresholds clean_path key hooks audit) key process
        (record q { body = front ++ (x ∷ rest) }) g
      ∙ ap (λ l. request_logger (mux clean_path check (require_api_key key process)) l g)
          (limited_long body_limit q front x rest h
            ∙ sym (limited_long body_limit q front y others h))
      ∙ sym (
          serve-limited clean_path check
            (ready-ne-202 fl t wire settings thresholds clean_path key hooks audit) key process
            (record q { body = front ++ (y ∷ others) }) g)
