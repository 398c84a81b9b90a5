-- ===== src/Gateway/Gate.antt =====
-- The gate of the request handlers (internal/middleware/middleware.go, RequireAPIKey).
use edge_gw_project.Prelude.{
  ◌≡◌, ◌≢◌, refl, sym, ap, ◌∙◌, ◌⊎◌, inl, inr, Bool, true, false, ◌||◌, [], ◌∷◌, ◌++◌, Text, arith,
}
use edge_gw_project.Prelude.{
  codes, text_eq, text_eq→eq, text_eq_refl, cut_prefix, eq-append_of_cut_prefix, is_empty,
  trim_prefix, if◌then◌else◌, Bool-cases, Option-cases,
}

-- The key that a request presents, from its headers Authorization and X-Gateway-API-Key.
unfoldable pub presented_key : Text → Text → Text
presented_key authorization gateway_key =
    let presented = trim_prefix authorization (codes "Bearer ") in
    if is_empty presented || text_eq presented authorization then gateway_key else presented

-- RequireAPIKey: whether the request reaches the next handler. `ConstantTimeCompare` is 1 on
-- equal texts only.
unfoldable pub is_let_through : Text → Text → Text → Bool
is_let_through key authorization gateway_key =
    is_empty key || text_eq (presented_key authorization gateway_key) key

trim_cases : (s prefix : Text) → (trim_prefix s prefix ≡ s) ⊎ (s ≡ prefix ++ trim_prefix s prefix)
unfolding trim_prefix
trim_cases s prefix = elim (Option-cases (cut_prefix prefix s)) [
  | inl e ↦ inl (rw (e, trim_prefix) refl)
  | inr (rest, e) ↦ inr (rw (e, trim_prefix) (eq-append_of_cut_prefix prefix s e))
]

-- What the two headers present.
presented_cases :
    (authorization gateway_key : Text)
    → (presented_key authorization gateway_key ≡ gateway_key)
      ⊎ (authorization ≡ codes "Bearer " ++ presented_key authorization gateway_key)
unfolding presented_key
presented_cases authorization gateway_key =
    let x = trim_prefix authorization (codes "Bearer ") in
    elim (Bool-cases (is_empty x || text_eq x authorization)) [
      | inl b ↦ inl (rw (b, presented_key) refl)
      | inr b ↦ elim (trim_cases authorization (codes "Bearer ")) [
        | inl e ↦ absurd (untouched x e b)
        | inr e ↦ inr (rw (b, presented_key) e)
      ]
    ]
  where
    untouched : (x : Text) → x ≡ authorization → (is_empty x || text_eq x authorization) ≢ false
    untouched x e b = ground (arith, e, text_eq_refl authorization, b)

-- With a key configured, a request passes only if it presents the key: as
-- `Authorization: Bearer <key>`, or else as X-Gateway-API-Key.
pub let_through_has_key :
    (key authorization gateway_key : Text)
    → key ≢ []
    → is_let_through key authorization gateway_key ≡ true
    → (authorization ≡ codes "Bearer " ++ key) ⊎ (gateway_key ≡ key)
unfolding is_let_through
let_through_has_key [] authorization gateway_key h ok = absurd (h refl)
let_through_has_key (k ∷ key) authorization gateway_key h ok =
    let same = text_eq→eq (presented_key authorization gateway_key) (k ∷ key) ok in
    elim (presented_cases authorization gateway_key) [
      | inl e ↦ inr (sym e ∙ same)
      | inr e ↦ inl (e ∙ ap (λ z. codes "Bearer " ++ z) same)
    ]
