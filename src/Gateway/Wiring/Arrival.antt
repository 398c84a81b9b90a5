-- ===== src/Gateway/Wiring/Arrival.antt =====
-- What a delivery leaves at its destination, in either mode (cmd/gateway/main.go, deliver).
use mathlib.Core.List.{append_assoc, append-nil}
use mathlib.Core.Path.{subst}
use edge_gw_project.Prelude.{
  ℕ, ◌≡◌, refl, sym, ap, ◌∙◌, ◌⊎◌, inl, inr, Bool, true, false, not, Option, none, some, [], ◌∷◌,
  ◌++◌, Text, is_empty, Bool-cases, Option-cases, if◌then◌else◌,
}
use edge_gw_project.DayLog.{DayLog, DayError}
use edge_gw_project.DayLog.Files.{bytes_of, bytes_in}
use edge_gw_project.DayLog.Laws.{IsHandled, append_recorded, append-IsHandled}
use edge_gw_project.DayLog.Growth.{Grows, append-Grows}
use edge_gw_project.AuditLog.{Codec}
use edge_gw_project.Outbound.{
  ForwardError, Vendor, Request, classify, answer_of, request_of, or_text, forward_payload,
}
use edge_gw_project.Gateway.Sink.{sink_path, sink_forward}
use edge_gw_project.Gateway.Wiring.{
  Places, DeliveryError, Routing, is_standalone, sink_dir, to_vendor, to_sink, deliver_to_sink,
  deliver,
}

-- The bytes stand, as a line of their own end, in a file of the sink.
abbrev pub IsInSink : (ℕ → Text) → Text → Text → DayLog → Type 0
IsInSink format_day dir payload l =
    (now : ℕ) × (before : Text) × (more : Text) × (bytes_of (sink_path dir (format_day now)) l.files
      ≡ (before ++ (payload ++ (b'\n' ∷ []))) ++ more)

-- The bytes have arrived: at the platform, or in the sink.
abbrev pub HasArrived :
    {P : Type 0} → (ℕ → Text) → (Text → P → Type 0) → Routing → Text → Places P → Type 0
HasArrived format_day Received s payload d =
    Received payload d.platform ⊎ IsInSink format_day (sink_dir s) payload d.sink

-- The sink's open file is that of the noted day.
abbrev pub IsReady : {P : Type 0} → Routing → Places P → Type 0
IsReady s d = IsHandled (sink_path (sink_dir s)) d.sink

pub in_both :
    {A : Type 0} (Q : A → Type 0) (b : Bool) {x y : A} → Q x → Q y → Q (if b then x else y)
in_both Q true p q = p
in_both Q false p q = q

-- The parameters `Received` and what follows it: the platform has the bytes once it has answered
-- with success, and keeps them.
module _ {P : Type 0} (c : Codec) (hmac_hex : Text → Text → Text) (builds : Text → Bool)
    (send : Request → P → Option ℕ × P) (Received : Text → P → Type 0)
    (receives : (q : Request) (p : P) (status : ℕ)
      → (send q p).0 ≡ some status
      → classify status ≡ none
      → Received q.body (send q p).1)
    (send-Received : (q : Request) (b : Text) (p : P)
      → Received b p
      → Received b (send q p).1) where
  pub forward_payload-Received :
      (v : Vendor) (payload : Text) (p : P)
      → (forward_payload hmac_hex builds send v payload p).0 ≡ none
      → Received payload (forward_payload hmac_hex builds send v payload p).1
  unfolding forward_payload answer_of request_of
  forward_payload-Received v payload p ok = elim (Bool-cases (is_empty v.hub_endpoint_url)) [
    | inl a ↦ cc (rw a at ok)
    | inr a ↦ elim (Bool-cases (is_empty (or_text v.config_api_key v.env_api_key))) [
      | inl b ↦ cc (rw (a, b) at ok)
      | inr b ↦ elim (Bool-cases (is_empty v.hmac_secret)) [
        | inl d ↦ cc (rw (a, b, d) at ok)
        | inr d ↦ elim (Bool-cases (builds v.hub_endpoint_url)) [
          | inr e ↦ cc (rw (a, b, d, e) at ok)
          | inl e ↦ elim (Option-cases (send (request_of hmac_hex builds send v payload) p).0) [
            | inl f ↦ cc (rw (a, b, d, e, f, answer_of) at ok)
            | inr (status, f) ↦
                rw (a, b, d, e, f, answer_of)
                  (receives (request_of hmac_hex builds send v payload) p status f
                    (rw (a, b, d, e, f, answer_of) at ok))
          ]
        ]
      ]
    ]
  ]

  forward_payload-keeps :
      (v : Vendor) (payload b : Text) (p : P)
      → Received b p
      → Received b (forward_payload hmac_hex builds send v payload p).1
  unfolding forward_payload answer_of
  forward_payload-keeps v payload b p k =
      let Q : Option ForwardError × P → Type 0 = λ a. Received b a.1 in
      in_both Q (is_empty v.hub_endpoint_url) k (
        in_both Q (is_empty (or_text v.config_api_key v.env_api_key)) k (
          in_both Q (is_empty v.hmac_secret) k (
            in_both Q (not (builds v.hub_endpoint_url)) k (
              answered (send (request_of hmac_hex builds send v payload) p)
                (send-Received (request_of hmac_hex builds send v payload) b p k)))))
    where
      answered :
          (a : Option ℕ × P) → Received b a.1 → Received b (answer_of hmac_hex builds send a).1
      answered (none, q) h = h
      answered (some status, q) h = h

  module _ (s : Routing) where
    abbrev pub sunk : Text → Places P → Option DayError × DayLog
    sunk payload d =
        sink_forward c.format_day (sink_dir s) d.weather.faults d.weather.now payload d.sink

    sunk-IsHandled :
        (payload : Text) (d : Places P)
        → IsReady s d
        → IsHandled (sink_path (sink_dir s)) (sunk payload d).1
    unfolding sink_forward
    sunk-IsHandled payload d h =
        append-IsHandled (sink_path (sink_dir s)) d.weather.faults (c.format_day d.weather.now)
          (payload ++ (b'\n' ∷ [])) d.sink h

    sunk-Grows :
        (payload : Text) (d : Places P) (p : Text) → IsReady s d → Grows p d.sink (sunk payload d).1
    unfolding sink_forward
    sunk-Grows payload d p h =
        append-Grows (sink_path (sink_dir s)) d.weather.faults (c.format_day d.weather.now)
          (payload ++ (b'\n' ∷ [])) d.sink p h

    pub sunk-IsInSink :
        (payload : Text) (d : Places P)
        → IsReady s d
        → (sunk payload d).0 ≡ none
        → IsInSink c.format_day (sink_dir s) payload (sunk payload d).1
    unfolding sink_forward
    sunk-IsInSink payload d h ok =
        let path = sink_path (sink_dir s) in
        let day = c.format_day d.weather.now in
        let (g, found, bytes, _) =
          append_recorded path d.weather.faults day (payload ++ (b'\n' ∷ [])) d.sink h ok in
        (
          d.weather.now,
          bytes_of (path day) d.sink.files,
          [],
          ap bytes_in found ∙ bytes ∙ sym (append-nil _),
        )

    IsInSink-Grows :
        (payload : Text) (l m : DayLog)
        → ((p : Text) → Grows p l m)
        → IsInSink c.format_day (sink_dir s) payload l
        → IsInSink c.format_day (sink_dir s) payload m
    IsInSink-Grows payload l m g (now, before, more, e) =
        let (extra, f) = g (sink_path (sink_dir s) (c.format_day now)) in
        (
          now,
          before,
          more ++ extra,
          f
              ∙ ap (λ z. z ++ extra) e
              ∙ append_assoc (before ++ (payload ++ (b'\n' ∷ []))) more extra,
        )

    pub to_sink_lem :
        (a : Option DayError × DayLog) (e : Places P)
        → ((to_sink c hmac_hex builds send a e).1.sink ≡ a.1)
          × ((to_sink c hmac_hex builds send a e).1.platform ≡ e.platform)
          × ((to_sink c hmac_hex builds send a e).0 ≡ none → a.0 ≡ none)
    unfolding to_sink
    to_sink_lem (none, l) e = (refl, refl, λ h. refl)
    to_sink_lem (some x, l) e = (refl, refl, λ h. cc)

    pub to_vendor_lem :
        (a : Option ForwardError × P) (e : Places P)
        → ((to_vendor c hmac_hex builds send a e).1.sink ≡ e.sink)
          × ((to_vendor c hmac_hex builds send a e).1.platform ≡ a.1)
          × ((to_vendor c hmac_hex builds send a e).0 ≡ none → a.0 ≡ none)
    unfolding to_vendor
    to_vendor_lem (none, p) e = (refl, refl, λ h. refl)
    to_vendor_lem (some x, p) e = (refl, refl, λ h. cc)

    -- What a delivery can have done: one write to the sink, or one call of the vendor.
    abbrev Arrives : Text → Places P → Option DeliveryError × Places P → Type 0
    Arrives payload d (a, e) =
        ((e.sink ≡ (sunk payload d).1)
          × (e.platform ≡ d.platform)
          × (a ≡ none → (sunk payload d).0 ≡ none))
        ⊎ ((e.sink ≡ d.sink)
            × (e.platform ≡ (forward_payload hmac_hex builds send s.vendor payload d.platform).1)
            × (a ≡ none
                → (forward_payload hmac_hex builds send s.vendor payload d.platform).0 ≡ none))

    deliver-Arrives :
        (payload : Text) (d : Places P)
        → Arrives payload d (deliver c hmac_hex builds send s payload d)
    unfolding deliver deliver_to_sink
    deliver-Arrives payload d =
        in_both (Arrives payload d) (is_standalone s) (inl (to_sink_lem (sunk payload d) _))
          (inr (to_vendor_lem (forward_payload hmac_hex builds send s.vendor payload d.platform) d))

    pub deliver-IsReady :
        (payload : Text) (d : Places P)
        → IsReady s d
        → IsReady s (deliver c hmac_hex builds send s payload d).1
    deliver-IsReady payload d h = elim (deliver-Arrives payload d) [
      | inl (e, _, _) ↦
          subst (IsHandled (sink_path (sink_dir s))) (sym e) (sunk-IsHandled payload d h)
      | inr (e, _, _) ↦ subst (IsHandled (sink_path (sink_dir s))) (sym e) h
    ]

    pub deliver-HasArrived :
        (payload : Text) (d : Places P)
        → IsReady s d
        → (deliver c hmac_hex builds send s payload d).0 ≡ none
        → HasArrived c.format_day Received s payload (deliver c hmac_hex builds send s payload d).1
    deliver-HasArrived payload d h ok = elim (deliver-Arrives payload d) [
      | inl (e, _, a) ↦ inr (
          subst (IsInSink c.format_day (sink_dir s) payload) (sym e)
            (sunk-IsInSink payload d h (a ok)))
      | inr (_, e, a) ↦ inl (
          subst (Received payload) (sym e)
            (forward_payload-Received s.vendor payload d.platform (a ok)))
    ]

    pub deliver-keeps :
        (payload b : Text) (d : Places P)
        → IsReady s d
        → HasArrived c.format_day Received s b d
        → HasArrived c.format_day Received s b (deliver c hmac_hex builds send s payload d).1
    deliver-keeps payload b d h k = elim (deliver-Arrives payload d) [
      | inl (e, f, _) ↦ elim k [
        | inl r ↦ inl (subst (Received b) (sym f) r)
        | inr i ↦ inr (
            subst (IsInSink c.format_day (sink_dir s) b) (sym e)
              (IsInSink-Grows b d.sink (sunk payload d).1 (λ p. sunk-Grows payload d p h) i))
      ]
      | inr (e, f, _) ↦ elim k [
        | inl r ↦
            inl (subst (Received b) (sym f) (forward_payload-keeps s.vendor payload b d.platform r))
        | inr i ↦ inr (subst (IsInSink c.format_day (sink_dir s) b) (sym e) i)
      ]
    ]
