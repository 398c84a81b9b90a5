-- ===== src/Gateway/Startup/Laws.antt =====
-- What the checks at start promise (cmd/gateway/main.go).
use edge_gw_project.Prelude.{
  ℕ, ◌≡◌, refl, sym, ap, ◌∙◌, ◌≢◌, ◌↔◌, ◌⊎◌, inl, inr, Bool, true, false, Option, List, [], ◌∷◌,
  ◌++◌, Text,
}
use edge_gw_project.Prelude.{codes, text_eq, text_eq→eq}
use edge_gw_project.Prelude.{is_empty, Bool-cases}
use edge_gw_project.Gateway.Startup.{
  Startup, Problem, pepper_env, when, mode_problems, keying_problems, validate_startup,
}
use edge_gw_project.Outbound.{
  Vendor, Request, forward_payload, request_of, sign_payload, or_text, answer_of,
}

-- A configuration that the gateway can run with.
abbrev pub IsReady : Startup → Type 0
IsReady c =
    (c.institution_id ≢ [])
    × (c.bank_salt ≢ [])
    × ((c.mode ≡ codes "standalone")
        ⊎ ((c.mode ≡ codes "middleware")
            × (c.api_key ≢ [])
            × (c.hub_endpoint_url ≢ [])
            × (c.hmac_secret ≢ [])))
    × ((c.mosaic_keying ≡ codes "bank")
        ⊎ ((c.mosaic_keying ≡ codes "regional") × (pepper_env c ≢ [])))

ne_of : (x : Text) → is_empty x ≡ false → x ≢ []
ne_of [] h = cc
ne_of (c ∷ x) h = λ e. cc e

append_nil : (a b : List Problem) → a ++ b ≡ [] → (a ≡ []) × (b ≡ [])
append_nil [] b h = (refl, h)
append_nil (x ∷ a) b h = cc

when_iff : (x : Text) (p : Problem) → (when (is_empty x) p ≡ []) ↔ (x ≢ [])
when_iff [] p = (λ h. cc h, λ h. absurd (h refl))
when_iff (c ∷ x) p = (λ h e. cc e, λ h. refl)

abbrev IsModeReady : Startup → Type 0
IsModeReady c =
    (c.mode ≡ codes "standalone")
    ⊎ ((c.mode ≡ codes "middleware")
        × (c.api_key ≢ [])
        × (c.hub_endpoint_url ≢ [])
        × (c.hmac_secret ≢ []))

mode_ready : (c : Startup) → mode_problems c ≡ [] → IsModeReady c
unfolding mode_problems
mode_ready c h = elim (Bool-cases (text_eq c.mode (codes "standalone"))) [
  | inl a ↦ inl (text_eq→eq c.mode _ a)
  | inr a ↦ elim (Bool-cases (text_eq c.mode (codes "middleware"))) [
    | inr b ↦ cc (rw (a, b, mode_problems) at h)
    | inl b ↦
        let (key, rest) = append_nil _ _ (rw (a, b, mode_problems) at h) in
        let (url, secret) = append_nil _ _ rest in
        inr (
          text_eq→eq c.mode _ b,
          (when_iff c.api_key _).0 key,
          (when_iff c.hub_endpoint_url _).0 url,
          (when_iff c.hmac_secret _).0 secret,
        )
  ]
]

mode_fine : (c : Startup) → IsModeReady c → mode_problems c ≡ []
unfolding mode_problems text_eq
mode_fine c (inl m) = simp m refl
mode_fine c (inr (m, a, u, k)) =
    simp
      (
        m,
        (when_iff c.api_key _).1 a,
        (when_iff c.hub_endpoint_url _).1 u,
        (when_iff c.hmac_secret _).1 k,
      )
      refl

abbrev IsKeyingReady : Startup → Type 0
IsKeyingReady c =
    (c.mosaic_keying ≡ codes "bank") ⊎ ((c.mosaic_keying ≡ codes "regional") × (pepper_env c ≢ []))

keying_ready : (c : Startup) → keying_problems c ≡ [] → IsKeyingReady c
unfolding keying_problems
keying_ready c h = elim (Bool-cases (text_eq c.mosaic_keying (codes "bank"))) [
  | inl a ↦ inl (text_eq→eq c.mosaic_keying _ a)
  | inr a ↦ elim (Bool-cases (text_eq c.mosaic_keying (codes "regional"))) [
    | inr b ↦ cc (rw (a, b, keying_problems) at h)
    | inl b ↦ inr (
      text_eq→eq c.mosaic_keying _ b,
      (when_iff (pepper_env c) _).0 (rw (a, b, keying_problems) at h),
    )
  ]
]

keying_fine : (c : Startup) → IsKeyingReady c → keying_problems c ≡ []
unfolding keying_problems text_eq
keying_fine c (inl m) = simp m refl
keying_fine c (inr (m, p)) = simp (m, (when_iff (pepper_env c) _).1 p) refl

-- validateStartup finds no problem exactly if the configuration names the institution and the
-- bank's salt, its mode is standalone, or middleware with all that a forward needs, and its
-- keying is bank, or regional with a pepper.
pub validate_startup_iff : (c : Startup) → (validate_startup c ≡ []) ↔ IsReady c
unfolding validate_startup
validate_startup_iff c = (ready, fine)
  where
    ready : validate_startup c ≡ [] → IsReady c
    ready h =
        let (i, r) = append_nil _ _ h in
        let (b, q) = append_nil _ _ r in
        let (m, k) = append_nil _ _ q in
        (
          (when_iff c.institution_id _).0 i,
          (when_iff c.bank_salt _).0 b,
          mode_ready c m,
          keying_ready c k,
        )

    fine : IsReady c → validate_startup c ≡ []
    fine (i, b, m, k) =
        rw
          (
            (when_iff c.institution_id _).1 i,
            (when_iff c.bank_salt _).1 b,
            mode_fine c m,
            keying_fine c k,
          )
          refl

-- The vendor's side of a configuration and the variable API_KEY, as ForwardPayload reads them.
abbrev pub vendor_of : Startup → Text → Vendor
vendor_of c env_api_key = record {
  hub_endpoint_url = c.hub_endpoint_url;
  config_api_key = c.api_key;
  env_api_key = env_api_key;
  hmac_secret = c.hmac_secret;
}

is_empty_of_ne : (x : Text) → x ≢ [] → is_empty x ≡ false
is_empty_of_ne [] h = absurd (h refl)
is_empty_of_ne (c ∷ x) h = refl

or_text_of_ne : (x d : Text) → x ≢ [] → or_text x d ≡ x
or_text_of_ne [] d h = absurd (h refl)
or_text_of_ne (c ∷ x) d h = refl

configured :
    (c : Startup)
    → validate_startup c ≡ []
    → c.mode ≡ codes "middleware"
    → (c.api_key ≢ []) × (c.hub_endpoint_url ≢ []) × (c.hmac_secret ≢ [])
unfolding text_eq
configured c ready middleware = let (i, b, m, k) = (validate_startup_iff c).0 ready in choose m
  where
    other : codes "standalone" ≢ codes "middleware"
    other e = let apart : true ≡ false = ap (text_eq (codes "standalone")) e in cc apart

    choose : IsModeReady c → (c.api_key ≢ []) × (c.hub_endpoint_url ≢ []) × (c.hmac_secret ≢ [])
    choose (inl m) = absurd (other (sym m ∙ middleware))
    choose (inr (m, key, url, secret)) = (key, url, secret)

module _ {P : Type 0} (hmac_hex : Text → Text → Text) (builds : Text → Bool)
    (send : Request → P → Option ℕ × P) where
  -- If validateStartup finds no problem and the mode is middleware, then no forward fails for
  -- want of a destination, an API key or an HMAC secret: with a URL that net/http accepts, every
  -- ForwardPayload sends its payload, signed with the secret, and answers by the response.
  pub ready_forwards :
      (c : Startup) (env_api_key payload : Text) (p : P)
      → validate_startup c ≡ []
      → c.mode ≡ codes "middleware"
      → builds c.hub_endpoint_url ≡ true
      → forward_payload hmac_hex builds send (vendor_of c env_api_key) payload p
        ≡ answer_of hmac_hex builds send (
            send
              (record {
                url = c.hub_endpoint_url;
                authorization = codes "Bearer " ++ c.api_key;
                signature = hmac_hex c.hmac_secret payload;
                body = payload;
              })
              p)
  unfolding forward_payload request_of sign_payload
  ready_forwards c env_api_key payload p ready middleware ok =
      let (key, url, secret) = configured c ready middleware in
      simp
        (
          or_text_of_ne c.api_key env_api_key key,
          is_empty_of_ne c.hub_endpoint_url url,
          is_empty_of_ne c.api_key key,
          is_empty_of_ne c.hmac_secret secret,
          ok,
        )
        refl
