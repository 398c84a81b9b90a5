-- ===== src/Processor/Normalize.antt =====
-- The normal forms of identifiers and names (NormalizeID, NormalizeName) and the key of a
-- bank's mosaics (mosaicKeyMaterial) of internal/processor/anonymizer.go.
pub mod Laws
use edge_gw_project.Prelude.{ℕ, ◌||◌, List, [], ◌∷◌, ◌++◌, ◌==◌, map, if◌then◌else◌}
use edge_gw_project.Prelude.{Text, Bool, is_empty, is_space}
use edge_gw_project.Processor.Outside.{Toolkit}

-- The runes that NormalizeID drops.
unfoldable pub is_separator : ℕ → Bool
is_separator r = is_space r || r == b'-' || r == b'.'

-- NormalizeID
unfoldable pub normalize_id : Toolkit → Text → Text
normalize_id t [] = []
normalize_id t (r ∷ s) =
    let rest = normalize_id t s in if is_separator r then rest else t.to_upper r ∷ rest

-- `strings.Fields`: the words between runs of space, with the word being read.
unfoldable pub fields_from : Text → Text → List Text
fields_from [] [] = []
fields_from (c ∷ word) [] = (c ∷ word) ∷ []
fields_from word (r ∷ s) =
    let flushed = fields_from [] s in
    let grown = fields_from (word ++ (r ∷ [])) s in
    if is_space r then (if is_empty word then flushed else word ∷ flushed) else grown

unfoldable pub fields : Text → List Text
fields s = fields_from [] s

-- `strings.Join` with one space
unfoldable pub join_spaced : List Text → Text
join_spaced [] = []
join_spaced (w ∷ []) = w
join_spaced (w ∷ v ∷ ws) = w ++ (b' ' ∷ join_spaced (v ∷ ws))

-- NormalizeName
unfoldable pub normalize_name : Toolkit → Text → Text
normalize_name t s = join_spaced (fields (map t.to_upper s))

-- mosaicKeyMaterial
unfoldable pub mosaic_key_material : Text → Text → Text
mosaic_key_material salt [] = salt
mosaic_key_material salt (c ∷ pepper) = salt ++ (b'|' ∷ c ∷ pepper)
