-- ===== src/Processor/Normalize/Laws.antt =====
-- What the normal form of an identifier forgets (internal/processor/anonymizer.go).
use edge_gw_project.Prelude.{ℕ, ◌≡◌, true, false, [], ◌∷◌, Text, refl}
use edge_gw_project.Processor.Outside.{Toolkit}
use edge_gw_project.Processor.Normalize.{is_separator, normalize_id}

-- The two spellings differ in the case of their runes and in separators only.
pub data IsRespelled (t : Toolkit) : Text → Text → Type 0 where
  done : IsRespelled t [] []
  skip_left :
      {r : ℕ} {a b : Text} → is_separator r ≡ true → IsRespelled t a b → IsRespelled t (r ∷ a) b
  skip_right :
      {r : ℕ} {a b : Text} → is_separator r ≡ true → IsRespelled t a b → IsRespelled t a (r ∷ b)
  same :
      {r q : ℕ} {a b : Text}
      → is_separator r ≡ false
      → is_separator q ≡ false
      → t.to_upper r ≡ t.to_upper q
      → IsRespelled t a b
      → IsRespelled t (r ∷ a) (q ∷ b)

pub normalize_id_respelled :
    {t : Toolkit} {a b : Text} → IsRespelled t a b → normalize_id t a ≡ normalize_id t b
unfolding normalize_id
normalize_id_respelled done = refl
normalize_id_respelled (skip_left h r) = simp h (normalize_id_respelled r)
normalize_id_respelled (skip_right h r) = simp h (normalize_id_respelled r)
normalize_id_respelled (same h k e r) = simp (h, k, e, normalize_id_respelled r)
