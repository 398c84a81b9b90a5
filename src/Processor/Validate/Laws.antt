-- ===== src/Processor/Validate/Laws.antt =====
-- What RawData.Validate promises (internal/processor/anonymizer.go).
use mathlib.Core.Path.{subst}
use edge_gw_project.Prelude.{
  ℕ, ◌≤◌, ◌≡◌, ◌≢◌, ◌⊎◌, refl, sym, ap, false, Option, length, Among, trim_space, is_empty, arith,
  if◌then◌else◌, ◌∙◌, Bool, true, ◌&&◌, ◌||◌, ◌==◌, leb, none, some, map, Text,
}
use edge_gw_project.Prelude.{
  List, [], ◌∷◌, text_eq, text_eq→eq, all, inl, inr, Bool-cases, Option-cases,
}
use edge_gw_project.Processor.Outside.{Floats, Toolkit}
use edge_gw_project.Processor.Signal.{RawData}
use edge_gw_project.Processor.Validate.{
  validate, check_fields, check_types, check_endpoint_type, canonical_in, is_listed, is_bad_ref,
  matches_ref_pattern, is_ref_char, check_location, is_bad_latitude, is_bad_longitude, is_bad_time,
  bad_id, bad_name, bad_account, bad_amount, bad_timestamp, bad_latitude, bad_longitude,
  bad_transaction_ref, valid_signal_types, valid_endpoint_types,
}

abbrev is_lower : ℕ → Bool
is_lower c = leb b'a' c && leb c b'z'

abbrev is_upper_or_underscore : ℕ → Bool
is_upper_or_underscore c = (leb b'A' c && leb c b'Z') || c == b'_'

map_fixed :
    (p : ℕ → Bool) (f : ℕ → ℕ)
    → ((c : ℕ) → p c ≡ true → f c ≡ c)
    → (s : Text) → all p s ≡ true
    → map f s ≡ s
map_fixed p f h [] a = refl
map_fixed p f h (c ∷ s) a = elim (Bool-cases (p c)) [
  | inl e ↦ simp (h c e, map_fixed p f h s (rw e at a)) refl
  | inr e ↦ cc (rw e at a)
]

listed-all :
    (p : ℕ → Bool) (s : Text) (xs : List Text)
    → all (all p) xs ≡ true
    → is_listed s xs ≡ true
    → all p s ≡ true
unfolding is_listed
listed-all p s [] a h = cc
listed-all p s (x ∷ xs) a h = elim (Bool-cases (all p x)) [
  | inr e ↦ cc (rw e at a)
  | inl e ↦ elim (Bool-cases (text_eq s x)) [
    | inl d ↦ ap (all p) (text_eq→eq s x d) ∙ e
    | inr d ↦ listed-all p s xs (rw e at a) (rw d at h)
  ]
]

-- A canonical spelling is its own.
canonical_again :
    (listed : List Text) (p : ℕ → Bool) (f : ℕ → ℕ)
    → ((c : ℕ) → p c ≡ true → f c ≡ c)
    → all (all p) listed ≡ true
    → (s z : Text) → canonical_in listed f s ≡ some z
    → canonical_in listed f z ≡ some z
unfolding canonical_in
canonical_again listed p f h a [] z e =
    let same : [] ≡ z = cc e in subst (λ y. canonical_in listed f y ≡ some y) same refl
canonical_again listed p f h a (c ∷ s) z e = elim (Bool-cases (is_listed (map f (c ∷ s)) listed)) [
  | inr d ↦ cc (rw d at e)
  | inl d ↦
      let same : map f (c ∷ s) ≡ z = cc (rw d at e) in
      let again = map_fixed p f h (map f (c ∷ s)) (listed-all p _ listed a d) in
      subst (λ y. canonical_in listed f y ≡ some y) same (rw (again, d) refl)
]

-- A letter, a digit, the underscore or the dash.
abbrev is_word_char : ℕ → Bool
is_word_char c =
    (leb b'A' c && leb c b'Z')
    || (leb b'a' c && leb c b'z')
    || (leb b'0' c && leb c b'9')
    || c == b'_'
    || c == b'-'

-- Between 1 and 64 such characters.
abbrev pub IsReference : Text → Type 0
IsReference s = (all is_word_char s ≡ true) × (1 ≤ length s) × (length s ≤ 64)

-- Empty as it was, or on the list, in its canonical spelling.
abbrev pub IsCanonical : List Text → (ℕ → ℕ) → Text → Text → Type 0
IsCanonical listed spell given z =
    ((given ≡ []) × (z ≡ [])) ⊎ ((z ≡ map spell given) × Among z listed)

-- No coordinates, or two that are numbers on the map.
abbrev pub IsPlaced : {F : Type 0} → Floats F → Option F → Option F → Type 0
IsPlaced fl none none = Unit
IsPlaced fl none (some lon) = true ≡ false
IsPlaced fl (some lat) none = true ≡ false
IsPlaced fl (some lat) (some lon) =
    (fl.lt lat (fl.neg (fl.of_nat 90)) ≡ false)
    × (fl.lt (fl.of_nat 90) lat ≡ false)
    × (fl.is_nan lat ≡ false)
    × (fl.lt lon (fl.neg (fl.of_nat 180)) ≡ false)
    × (fl.lt (fl.of_nat 180) lon ≡ false)
    × (fl.is_nan lon ≡ false)

-- What the fields of an event must be, the spellings of its types apart.
abbrev pub HasPassed : {F : Type 0} → Floats F → Toolkit → RawData F → Type 0
HasPassed fl t r =
    (trim_space r.id ≢ [])
    × (trim_space r.name ≢ [])
    × (trim_space r.account ≢ [])
    × (fl.le r.amount (fl.of_nat 0) ≡ false)
    × (fl.is_inf r.amount ≡ false)
    × ((n : ℕ) × (t.parse_time r.timestamp ≡ some n))
    × IsPlaced fl r.latitude r.longitude
    × ((trim_space r.transaction_ref ≡ []) ⊎ IsReference (trim_space r.transaction_ref))

passed :
    {A : Type 0} (b : Bool) (e : A) (o : Option A)
    → (if b then some e else o) ≡ none
    → (b ≡ false) × (o ≡ none)
passed true e o h = cc
passed false e o h = (refl, h)

passed_rest :
    {A : Type 0} (o p : Option A)
    → elim o [ some e ↦ some e | none ↦ p ] ≡ none
    → (o ≡ none) × (p ≡ none)
passed_rest none p h = (refl, h)
passed_rest (some e) p h = cc

filled : (s : Text) → is_empty s ≡ false → s ≢ []
filled [] h = cc
filled (c ∷ s) h = λ e. cc e

neither : (a b : Bool) → (a || b) ≡ false → (a ≡ false) × (b ≡ false)
neither false b h = (refl, h)
neither true b h = cc

none_of : (a b c : Bool) → (a || b || c) ≡ false → (a ≡ false) × (b ≡ false) × (c ≡ false)
none_of false false c h = (refl, refl, h)
none_of true b c h = cc
none_of false true c h = cc

timed :
    {A : Type 0} (o : Option A)
    → elim o [ none ↦ true | some n ↦ false ] ≡ false
    → (n : A) × (o ≡ some n)
timed none h = cc
timed (some n) h = (n, refl)

referenced : (s : Text) → is_bad_ref s ≡ false → (trim_space s ≡ []) ⊎ IsReference (trim_space s)
unfolding is_bad_ref matches_ref_pattern is_ref_char
referenced s h = elim (Bool-cases (is_empty (trim_space s))) [
  | inl e ↦ inl (blank (trim_space s) e)
  | inr e ↦ elim (Bool-cases (all is_word_char (trim_space s))) [
    | inr a ↦ absurd (cc (simp (e, a) at h))
    | inl a ↦ inr (a, ground (arith, simp (e, a) at h), ground (arith, simp (e, a) at h))
  ]
]
  where
    blank : (z : Text) → is_empty z ≡ true → z ≡ []
    blank [] e = refl
    blank (c ∷ z) e = cc

module _ {F : Type 0} (fl : Floats F) (t : Toolkit) where
  placed : (lat lon : Option F) → check_location fl t lat lon ≡ none → IsPlaced fl lat lon
  unfolding check_location is_bad_latitude is_bad_longitude
  placed none none h = tt
  placed none (some lon) h = cc
  placed (some lat) none h = cc
  placed (some lat) (some lon) h =
      let (a, rest) = passed (is_bad_latitude fl t lat) bad_latitude _ h in
      let (b, _) = passed (is_bad_longitude fl t lon) bad_longitude _ rest in
      let (south, north, lat_number) =
        none_of (fl.lt lat (fl.neg (fl.of_nat 90))) (fl.lt (fl.of_nat 90) lat) (fl.is_nan lat) a in
      let (west, east, lon_number) =
        none_of (fl.lt lon (fl.neg (fl.of_nat 180))) (fl.lt (fl.of_nat 180) lon) (fl.is_nan lon)
          b in
      (south, north, lat_number, west, east, lon_number)

  checked : (r : RawData F) → check_fields fl t r ≡ none → HasPassed fl t r
  unfolding check_fields is_bad_time
  checked r h =
      let (id, h1) = passed (is_empty (trim_space r.id)) bad_id _ h in
      let (name, h2) = passed (is_empty (trim_space r.name)) bad_name _ h1 in
      let (account, h3) = passed (is_empty (trim_space r.account)) bad_account _ h2 in
      let (amount, h4) =
        passed (fl.le r.amount (fl.of_nat 0) || fl.is_inf r.amount) bad_amount _ h3 in
      let (time, h5) = passed (is_bad_time fl t r.timestamp) bad_timestamp _ h4 in
      let (place, h6) = passed_rest (check_location fl t r.latitude r.longitude) _ h5 in
      let (ref, _) = passed (is_bad_ref r.transaction_ref) bad_transaction_ref none h6 in
      let (positive, finite) = neither (fl.le r.amount (fl.of_nat 0)) _ amount in
      (
        filled _ id,
        filled _ name,
        filled _ account,
        positive,
        finite,
        timed (t.parse_time r.timestamp) time,
        placed r.latitude r.longitude place,
        referenced r.transaction_ref ref,
      )

listed-Among : (s : Text) (xs : List Text) → is_listed s xs ≡ true → Among s xs
unfolding is_listed
listed-Among s [] h = cc
listed-Among s (x ∷ xs) h = elim (Bool-cases (text_eq s x)) [
  | inl d ↦ inl (text_eq→eq s x d)
  | inr d ↦ inr (listed-Among s xs (rw d at h))
]

canonical_in-IsCanonical :
    (listed : List Text) (f : ℕ → ℕ) (s z : Text)
    → canonical_in listed f s ≡ some z
    → IsCanonical listed f s z
unfolding canonical_in
canonical_in-IsCanonical listed f [] z e = inl (refl, cc e)
canonical_in-IsCanonical listed f (c ∷ s) z e =
    elim (Bool-cases (is_listed (map f (c ∷ s)) listed)) [
      | inr d ↦ cc (rw d at e)
      | inl d ↦
          let same : map f (c ∷ s) ≡ z = cc (rw d at e) in
          inr (sym same, subst (λ y. Among y listed) same (listed-Among _ listed d))
    ]

module _ {F : Type 0} (fl : Floats F) (t : Toolkit)
    (lower : (c : ℕ) → is_lower c ≡ true → t.to_lower c ≡ c)
    (upper : (c : ℕ) → is_upper_or_underscore c ≡ true → t.to_upper c ≡ c) where
  same_fields :
      (r : RawData F) (st et : Text)
      → check_fields fl t (record r { signal_type = st; endpoint_type = et }) ≡ check_fields fl t r
  unfolding check_fields
  same_fields r st et = refl

  validate_first :
      (r : RawData F) (st et : Text)
      → check_fields fl t r ≡ none
      → canonical_in valid_signal_types t.to_lower r.signal_type ≡ some st
      → canonical_in valid_endpoint_types t.to_upper r.endpoint_type ≡ some et
      → validate fl t r ≡ (none, record r { signal_type = st; endpoint_type = et })
  unfolding validate check_types check_endpoint_type
  validate_first r st et e d g = rw (e, d, g, validate, check_types, check_endpoint_type) refl

  again :
      (r : RawData F) (st et : Text)
      → check_fields fl t r ≡ none
      → canonical_in valid_signal_types t.to_lower st ≡ some st
      → canonical_in valid_endpoint_types t.to_upper et ≡ some et
      → validate fl t (record r { signal_type = st; endpoint_type = et })
        ≡ (none, record r { signal_type = st; endpoint_type = et })
  again r st et e d g =
      validate_first (record r { signal_type = st; endpoint_type = et }) st et
        (same_fields r st et ∙ e) d g

  -- An event that Validate accepts has an id, a name and an account that are not blank, an amount
  -- that is not at most 0 and not infinite, a timestamp that time.Parse reads, no coordinates or two
  -- on the map, and no transaction_ref or one of 1 to 64 letters, digits, underscores and dashes
  -- between blanks; its signal_type and endpoint_type have become spellings on the allowlists, or are
  -- absent, and nothing else has changed; and to validate it again is to accept it unchanged. Lower and upper case fix the
  -- ASCII letters of their case, and the underscore.
  pub validate_accepts :
      (r : RawData F)
      → (validate fl t r).0 ≡ none
      → (signal_type : Text) × (endpoint_type : Text) × ((validate fl t r).1
          ≡ record r { signal_type = signal_type; endpoint_type = endpoint_type })
        × HasPassed fl t r
        × (canonical_in valid_signal_types t.to_lower r.signal_type ≡ some signal_type)
        × (canonical_in valid_endpoint_types t.to_upper r.endpoint_type ≡ some endpoint_type)
        × IsCanonical valid_signal_types t.to_lower r.signal_type signal_type
        × IsCanonical valid_endpoint_types t.to_upper r.endpoint_type endpoint_type
        × (validate fl t (validate fl t r).1 ≡ (none, (validate fl t r).1))
  unfolding validate check_types check_endpoint_type
  validate_accepts r ok = elim (Option-cases (check_fields fl t r)) [
    | inr (x, e) ↦ cc (rw (e, validate) at ok)
    | inl e ↦ elim (Option-cases (canonical_in valid_signal_types t.to_lower r.signal_type)) [
      | inl d ↦ cc (rw (e, d, validate, check_types) at ok)
      | inr (st, d) ↦
          elim (Option-cases (canonical_in valid_endpoint_types t.to_upper r.endpoint_type)) [
            | inl g ↦ cc (rw (e, d, g, validate, check_types, check_endpoint_type) at ok)
            | inr (et, g) ↦ rw (validate_first r st et e d g) (
              st,
              et,
              refl,
              checked fl t r e,
              d,
              g,
              canonical_in-IsCanonical valid_signal_types t.to_lower r.signal_type st d,
              canonical_in-IsCanonical valid_endpoint_types t.to_upper r.endpoint_type et g,
              again r st et e
                  (canonical_again valid_signal_types is_lower t.to_lower lower refl r.signal_type
                    st d)
                  (canonical_again valid_endpoint_types is_upper_or_underscore t.to_upper upper refl
                    r.endpoint_type et g),
            )
          ]
    ]
  ]
