-- ===== src/Gateway/Server/Laws.antt =====
-- Who can change a gateway with a spool, and what its 202 means (cmd/gateway/main.go,
-- internal/middleware/middleware.go).
use edge_gw_project.Prelude.{
  ℕ, ◌≡◌, ◌≢◌, refl, sym, ap, ◌∙◌, ◌⊎◌, inl, inr, true, Option, some, List, Text, codes, take,
  Bool-cases, Option-cases,
}
use edge_gw_project.Processor.Outside.{Floats, Toolkit}
use edge_gw_project.Processor.Signal.{RawData, Settings}
use edge_gw_project.Spool.Queue.{Hook}
use edge_gw_project.Gateway.Readiness.{Thresholds}
use edge_gw_project.Gateway.Limits.{spool_status}
use edge_gw_project.Gateway.Transaction.{
  Gateway, Response, process_inbound_request, process_transaction,
}
use edge_gw_project.Gateway.Transaction.Laws.{IsQueued, accepted-IsQueued}
use edge_gw_project.Gateway.Server.{
  Write, status_sent, Incoming, Handler, respond, limited, body_limit, StreamWire, wire_at,
  transaction_request, process_queueing, check_queueing, serve_queueing, LogLine,
}
use edge_gw_project.Gateway.Server.Served.{
  HasKey, sent-IsOwn, sent-respond, Served, by_itself, processed, serve-Served,
  check_readiness-ne-202,
}

module _ {F : Type 0} (fl : Floats F) (t : Toolkit) (wire : StreamWire F) (settings : Settings F)
    (thresholds : Thresholds) (clean_path : Text → Text) (key : Text) {W : Type 0}
    (hooks : Hook → W → W) (audit : W → Option ℕ) where
  -- What the handler of /process does once MaxBodySize has cut the body.
  abbrev pub run : Incoming → Gateway W → Response × Gateway W
  run q g =
      process_transaction fl t (wire_at wire (limited body_limit q)) hooks settings
        (transaction_request (limited body_limit q)) g

  untouched :
      (q : Incoming) (g : Gateway W)
      → ((run q g).1 ≡ g)
        ⊎ ((q.is_post ≡ true)
            × ((r : RawData F) × (process_inbound_request fl t
                    (wire_at wire (limited body_limit q))
                    (limited body_limit q).body
                  ≡ some r)))
  unfolding process_transaction limited
  untouched q g = elim (Bool-cases q.is_post) [
    | inr m ↦ inl (rw (m, process_transaction))
    | inl m ↦
        elim (Option-cases (
          process_inbound_request fl t (wire_at wire (limited body_limit q))
            (limited body_limit q).body)) [
              | inl e ↦ inl (rw (m, e, process_transaction))
              | inr found ↦ inr (m, found)
            ]
  ]

  abbrev pub ready : Incoming → Gateway W → ℕ
  ready = check_queueing fl t wire settings thresholds hooks audit

  abbrev pub handler : Handler (Gateway W)
  handler = process_queueing fl t wire settings thresholds hooks audit

  abbrev pub served : Incoming → Gateway W → (List Write × LogLine) × Gateway W
  served = serve_queueing fl t wire settings thresholds hooks audit clean_path key

  pub ready-ne-202 : (q : Incoming) (g : Gateway W) → ready q g ≢ 202
  unfolding check_queueing
  ready-ne-202 q g =
      check_readiness-ne-202 thresholds (some (spool_status q.now g.spool)) (audit g.spool.world)

  handled :
      (q : Incoming) (g : Gateway W)
      → Served clean_path ready ready-ne-202 key handler
          (limited body_limit q)
          g
          ((served q g).0.0, (served q g).1)
  unfolding serve_queueing
  handled q g = (serve-Served clean_path ready ready-ne-202 key handler q g).0

  handler-run :
      (q : Incoming) (g : Gateway W)
      → handler (limited body_limit q) g ≡ (respond (run q g).0.status, (run q g).1)
  unfolding process_queueing
  handler-run q g = refl

  -- Every request leaves the spool, the counters and the world as they were, unless it is a POST to
  -- /process, presents the configured key, if there is one, and the first mebibyte of its body
  -- holds a valid event.
  pub stranger_changes_nothing :
      (q : Incoming) (g : Gateway W)
      → ((served q g).1 ≡ g)
        ⊎ ((q.path ≡ codes "/process")
            × (q.is_post ≡ true)
            × HasKey key q
            × ((r : RawData F) × (process_inbound_request fl t
                    (wire_at wire (limited body_limit q))
                    (take body_limit q.body)
                  ≡ some r)))
  unfolding limited
  stranger_changes_nothing q g = elim (handled q g) [
    | by_itself w own e ↦ inl (ap (λ o. o.1) e)
    | processed path has e ↦ elim (untouched q g) [
      | inl same ↦ inl (ap (λ o. o.1) (e ∙ handler-run q g) ∙ same)
      | inr (post, found) ↦ inr (path, post, has, found)
    ]
  ]

  -- A response with status 202 from the server: the request came to /process and had the key, if
  -- one is configured; and the anonymized signal of the valid event in the first mebibyte of its
  -- body lies in the spool's directory under its name.
  pub served_202-IsQueued :
      (q : Incoming) (g : Gateway W)
      → status_sent (served q g).0.0 ≡ 202
      → (q.path ≡ codes "/process")
        × HasKey key q
        × ((run q g).0.status ≡ 202)
        × ((run q g).1 ≡ (served q g).1)
        × IsQueued fl t
            (wire_at wire (limited body_limit q))
            hooks
            settings
            (transaction_request (limited body_limit q))
            g
            (run q g)
  unfolding limited
  served_202-IsQueued q g ok = elim (handled q g) [
    | by_itself w own e ↦ absurd (sent-IsOwn own (sym (ap (λ o. status_sent o.0) e) ∙ ok))
    | processed path has e ↦
        let all = e ∙ handler-run q g in
        let status = sym (ap (λ o. status_sent o.0) all ∙ sent-respond (run q g).0.status) ∙ ok in
        (
          path,
          has,
          status,
          sym (ap (λ o. o.1) all),
          accepted-IsQueued fl t (wire_at wire (limited body_limit q)) hooks settings
              (transaction_request (limited body_limit q)) g status,
        )
  ]
