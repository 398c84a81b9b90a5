-- ===== src/Processor/Mosaic.antt =====
-- What the mosaics of AnonymizeSignal tell apart and what they forget
-- (internal/processor/anonymizer.go).
use edge_gw_project.Prelude.{
  ◌≡◌, ◌≢◌, refl, sym, ap, ◌∙◌, ◌⊎◌, inl, inr, Option, none, some, ◌++◌, Text, codes,
}
use edge_gw_project.Prelude.{[], ◌∷◌, text_eq, text_eq→eq, is_empty, Bool-cases}
use edge_gw_project.Processor.Outside.{Floats, Toolkit}
use edge_gw_project.Processor.Normalize.{normalize_id, normalize_name, mosaic_key_material}
use edge_gw_project.Processor.Normalize.Laws.{IsRespelled, normalize_id_respelled}
use edge_gw_project.Processor.Signal.{
  RawData, Mosaic, Settings, anonymize_signal, identity_of, destination_of, national_mosaic,
  local_mosaic, keying_regional, scope_bank, scope_regional, basis_national_id,
}

module _ {F : Type 0} (fl : Floats F) (t : Toolkit) (s : Settings F) where
  pub identity_national :
      (r : RawData F)
      → normalize_id t r.national_id ≢ []
      → identity_of fl t s r ≡ national_mosaic fl t s (normalize_id t r.national_id)
  unfolding identity_of
  identity_national r h = go (normalize_id t r.national_id) refl
    where
      go :
          (n : Text)
          → normalize_id t r.national_id ≡ n
          → identity_of fl t s r ≡ national_mosaic fl t s n
      go [] e = absurd (h e)
      go (c ∷ n) e = rw (e, identity_of) refl

  destination_national :
      (r : RawData F)
      → normalize_id t r.counterparty_national_id ≢ []
      → destination_of fl t s r
        ≡ some (national_mosaic fl t s (normalize_id t r.counterparty_national_id))
  unfolding destination_of
  destination_national r h = go (normalize_id t r.counterparty_national_id) refl
    where
      go :
          (n : Text)
          → normalize_id t r.counterparty_national_id ≡ n
          → destination_of fl t s r ≡ some (national_mosaic fl t s n)
      go [] e = absurd (h e)
      go (c ∷ n) e = rw (e, destination_of) refl

  -- Routes can be followed: if the sender's counterparty_national_id and the receiver's
  -- national_id are spellings of one identifier, which is more than separators, then under one
  -- deployment's settings the destination mosaic of the sender's signal is the identity mosaic
  -- of the receiver's, with the same scope and basis, whatever else the two events hold.
  pub destination_is_identity :
      (sender receiver : RawData F) (fallback fallback' : Text)
      → IsRespelled t sender.counterparty_national_id receiver.national_id
      → normalize_id t receiver.national_id ≢ []
      → (anonymize_signal fl t s sender fallback).destination
        ≡ some (anonymize_signal fl t s receiver fallback').identity
  unfolding anonymize_signal
  destination_is_identity sender receiver fallback fallback' respelled h =
      let e = normalize_id_respelled respelled in
      destination_national sender (λ z. h (sym e ∙ z))
      ∙ ap (λ n. some (national_mosaic fl t s n)) e
      ∙ ap some (sym (identity_national receiver h))

  -- The identity mosaic, its scope and its basis are the same for two events whose national
  -- identifiers are spellings of one identifier, which is more than separators: neither the
  -- internal identifier, the name, nor any other field has a part in them.
  pub identity_of_respelled :
      (r q : RawData F) (fallback fallback' : Text)
      → IsRespelled t r.national_id q.national_id
      → normalize_id t q.national_id ≢ []
      → (anonymize_signal fl t s r fallback).identity
        ≡ (anonymize_signal fl t s q fallback').identity
  unfolding anonymize_signal
  identity_of_respelled r q fallback fallback' respelled h =
      let e = normalize_id_respelled respelled in
      identity_national r (λ z. h (sym e ∙ z))
      ∙ ap (national_mosaic fl t s) e
      ∙ sym (identity_national q h)

  -- How a mosaic is keyed, read off its scope.
  abbrev pub IsKeyed : Mosaic → Type 0
  IsKeyed m =
      ((m.scope ≡ scope_bank)
        × (text : Text) × (m.value ≡ t.hmac_hex (mosaic_key_material s.salt s.pepper) text))
      ⊎ ((m.scope ≡ scope_regional)
          × (s.keying ≡ keying_regional)
          × (m.basis ≡ basis_national_id)
          × (nid : Text) × (m.value ≡ t.hmac_hex s.pepper (codes "v3|id|" ++ nid)))

  national-IsKeyed : (nid : Text) → IsKeyed (national_mosaic fl t s nid)
  unfolding national_mosaic
  national-IsKeyed nid = elim (Bool-cases (text_eq s.keying keying_regional)) [
    | inl e ↦
        rw (e, national_mosaic) (inr (refl, text_eq→eq s.keying keying_regional e, refl, nid, refl))
    | inr e ↦ rw (e, national_mosaic) (inl (refl, codes "v3|id|" ++ nid, refl))
  ]

  local-IsKeyed : (text : Text) → IsKeyed (local_mosaic fl t s text)
  unfolding local_mosaic
  local-IsKeyed text = inl (refl, codes "v3|local|" ++ text, refl)

  identity-IsKeyed : (r : RawData F) → IsKeyed (identity_of fl t s r)
  unfolding identity_of
  identity-IsKeyed r = go (normalize_id t r.national_id) refl
    where
      go : (n : Text) → normalize_id t r.national_id ≡ n → IsKeyed (identity_of fl t s r)
      go [] e =
          rw (e, identity_of)
            (local-IsKeyed (normalize_id t r.id ++ (b'|' ∷ normalize_name t r.name)))
      go (c ∷ n) e = rw (e, identity_of) (national-IsKeyed (c ∷ n))

  abbrev pub IsKeyedIfAny : Option Mosaic → Type 0
  IsKeyedIfAny none = Unit
  IsKeyedIfAny (some m) = IsKeyed m

  destination-IsKeyed : (r : RawData F) → IsKeyedIfAny (destination_of fl t s r)
  unfolding destination_of
  destination-IsKeyed r = go (normalize_id t r.counterparty_national_id) refl
    where
      go :
          (n : Text)
          → normalize_id t r.counterparty_national_id ≡ n
          → IsKeyedIfAny (destination_of fl t s r)
      go [] e = elim (Bool-cases (is_empty r.counterparty_id)) [
        | inl d ↦ rw (e, d, destination_of) tt
        | inr d ↦ rw (e, d, destination_of) (local-IsKeyed (normalize_id t r.counterparty_id))
      ]
      go (c ∷ n) e = rw (e, destination_of) (national-IsKeyed (c ∷ n))

  -- The declared scope of the identity mosaic and of the destination mosaic, if there is one, is
  -- how it is keyed. One with scope "bank" is a MAC under mosaicKeyMaterial of the bank's salt
  -- and the pepper. One with scope "regional" exists only under the regional policy and for a
  -- national identifier, and is a MAC under the pepper alone.
  pub scopes_are_keyings :
      (r : RawData F) (fallback : Text)
      → IsKeyed (anonymize_signal fl t s r fallback).identity
        × IsKeyedIfAny (anonymize_signal fl t s r fallback).destination
  unfolding anonymize_signal
  scopes_are_keyings r fallback = (identity-IsKeyed r, destination-IsKeyed r)
