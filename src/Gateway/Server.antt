-- ===== src/Gateway/Server.antt =====
-- The server that main puts together (cmd/gateway/main.go): the mux with its handlers inside
-- RequireAPIKey, MaxBodySize and RequestLogger (internal/middleware/middleware.go), and the health
-- and readiness handlers (internal/adapters/inbound.go). A handler answers by the calls that it
-- makes of its ResponseWriter.
pub mod Served
pub mod Laws
pub mod Reading
pub mod Logged
use edge_gw_project.Prelude.{
  ℕ, ◌^◌, Bool, true, false, ◌||◌, Option, none, some, List, [], ◌∷◌, Text, codes, text_eq, ltb,
  length, take, if◌then◌else◌,
}
use edge_gw_project.Processor.Outside.{Floats, Toolkit}
use edge_gw_project.Processor.Signal.{RawData, AnonymizedSignal, Settings}
use edge_gw_project.Spool.Queue.{Hook, EnqueueFaults}
use edge_gw_project.Gateway.Gate.{is_let_through}
use edge_gw_project.Gateway.Readiness.{Thresholds, check_readiness}
use edge_gw_project.Gateway.Limits.{spool_status}
use edge_gw_project.Gateway.Transaction.{
  Counters, Gateway, Wire, Request, process_transaction, process_transaction_sync,
}

pub data Write : Type 0 where
  write_header : ℕ → Write
  write_body : Write

-- What net/http sends: the first header, or 200 if there is none before the body.
unfoldable pub status_sent : List Write → ℕ
status_sent [] = 200
status_sent (write_header n ∷ w) = n
status_sent (write_body ∷ w) = 200

-- A request, with its headers Authorization and X-Gateway-API-Key and the bytes of its body; whether
-- the body is cut, so that
-- reading on after these bytes is an error; and what its run meets.
pub record Incoming : Type 0 where
  pub path : Text
  pub is_post : Bool
  pub authorization : Text
  pub gateway_key : Text
  pub body : Text
  pub is_cut : Bool
  pub fresh_id : Option Text
  pub now : ℕ
  pub faults : EnqueueFaults

-- http.Handler, over a state.
abbrev pub Handler : Type 0 → Type 0
Handler S = Incoming → S → List Write × S

-- A header and a body, as http.Error writes them too.
abbrev pub respond : ℕ → List Write
respond status = write_header status ∷ write_body ∷ []

-- The fields of a log line that a request decides.
pub record LogLine : Type 0 where
  pub is_post : Bool
  pub path : Text
  pub status : ℕ

-- statusWriter: the status of the last header.
unfoldable pub status_logged : ℕ → List Write → ℕ
status_logged status [] = status
status_logged status (write_header n ∷ w) = status_logged n w
status_logged status (write_body ∷ w) = status_logged status w

-- MaxBytesReader
unfoldable pub limited : ℕ → Incoming → Incoming
limited max q = record q { body = take max q.body; is_cut = q.is_cut || ltb max (length q.body) }

-- 1<<20
abbrev pub body_limit : ℕ
body_limit = 2 ^ 20

module _ {S : Type 0} where
  -- RequireAPIKey
  unfoldable pub require_api_key : Text → Handler S → Handler S
  require_api_key key next q s =
      if is_let_through key q.authorization q.gateway_key then next q s else (respond 401, s)

  -- MaxBodySize
  unfoldable pub max_body_size : ℕ → Handler S → Handler S
  unfolding limited
  max_body_size max next q s = next (limited max q) s

  -- RequestLogger
  unfoldable pub request_logger : Handler S → Incoming → S → (List Write × LogLine) × S
  unfolding status_logged
  request_logger next q s =
      let (w, t) = next q s in
      ((w, record { is_post = q.is_post; path = q.path; status = status_logged 200 w }), t)

  -- HealthCheckHandler
  unfoldable pub health : Handler S
  health q s = (write_body ∷ [], s)

  -- ReadinessCheckHandler, whose status is `check`.
  unfoldable pub readyz : (Incoming → S → ℕ) → Handler S
  readyz check q s = (respond (check q s), s)

  -- MetricsHandler
  unfoldable pub metrics : Handler S
  metrics q s = (write_body ∷ [], s)

  -- The mux: a path that is not clean is redirected, and one with no handler is not found.
  unfoldable pub mux : (Text → Text) → (Incoming → S → ℕ) → Handler S → Handler S
  unfolding health readyz metrics
  mux clean_path check process q s =
      if text_eq (clean_path q.path) q.path
      then if text_eq q.path (codes "/process")
        then process q s
        else if text_eq q.path (codes "/readyz")
        then readyz check q s
        else if text_eq q.path (codes "/health")
        then health q s
        else if text_eq q.path (codes "/metrics")
        then metrics q s
        else (respond 404, s)
      else (respond 301, s)

  -- `handler` of main
  unfoldable pub serve :
      (Text → Text)
      → (Incoming → S → ℕ)
      → Text
      → Handler S
      → Incoming
      → S
      → (List Write × LogLine) × S
  unfolding request_logger max_body_size mux require_api_key
  serve clean_path check key process =
      request_logger (max_body_size body_limit (mux clean_path check (require_api_key key process)))

abbrev pub transaction_request : Incoming → Request
transaction_request q = record {
  is_post = q.is_post;
  body = q.body;
  fresh_id = q.fresh_id;
  now = q.now;
  faults = q.faults;
}

-- The JSON decoder reads from a body that may be cut.
pub record StreamWire (F : Type 0) : Type 0 where
  pub decode : Bool → Text → Option (RawData F)
  pub encode : AnonymizedSignal → Option Text

abbrev pub wire_at : {F : Type 0} → StreamWire F → Incoming → Wire F
wire_at wire q = record { decode = wire.decode q.is_cut; encode = wire.encode }

module _ {F : Type 0} (fl : Floats F) (t : Toolkit) (wire : StreamWire F) (settings : Settings F)
    (thresholds : Thresholds) where
  module _ {W : Type 0} (hooks : Hook → W → W) (audit : W → Option ℕ) where
    unfoldable pub process_queueing : Handler (Gateway W)
    process_queueing q g =
        let (a, h) =
          process_transaction fl t (wire_at wire q) hooks settings (transaction_request q) g in
        (respond a.status, h)

    unfoldable pub check_queueing : Incoming → Gateway W → ℕ
    check_queueing q g =
        (check_readiness thresholds (some (spool_status q.now g.spool)) (audit g.spool.world)).0

    -- The server of a gateway with a spool.
    unfoldable pub serve_queueing :
        (Text → Text) → Text → Incoming → Gateway W → (List Write × LogLine) × Gateway W
    unfolding process_queueing check_queueing
    serve_queueing clean_path key = serve clean_path check_queueing key process_queueing

  module _ {D E : Type 0} (sync_forward : AnonymizedSignal → D → Option E × D)
      (audit : D → Option ℕ) where
    unfoldable pub process_at_once : Handler (D × Counters)
    process_at_once q g =
        let (a, h) =
          process_transaction_sync fl t (wire_at wire q) sync_forward settings
            (transaction_request q) g in
        (respond a.status, h)

    unfoldable pub check_at_once : Incoming → D × Counters → ℕ
    check_at_once q (d, c) = (check_readiness thresholds none (audit d)).0

    -- The server of a gateway without one.
    unfoldable pub serve_at_once :
        (Text → Text) → Text → Incoming → D × Counters → (List Write × LogLine) × (D × Counters)
    unfolding process_at_once check_at_once
    serve_at_once clean_path key = serve clean_path check_at_once key process_at_once
