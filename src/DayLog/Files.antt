-- ===== src/DayLog/Files.antt =====
-- The files of a directory, by their paths.
use edge_gw_project.Prelude.{◌≡◌, refl, ap, ◌∙◌, ◌≢◌, inl, inr, true}
use edge_gw_project.Prelude.{Option, none, some, [], ◌∷◌, Text, text_eq}
use edge_gw_project.Prelude.{text_eq→eq, text_eq_refl, text_eq_of_ne, Bool-cases}
use edge_gw_project.DayLog.{DayFile, Files, find_file, set_file, link_all}

pub find-set_file_self :
    (p : Text) (f : DayFile) (fs : Files) → find_file p (set_file p f fs) ≡ some f
unfolding find_file set_file
find-set_file_self p f [] = rw (text_eq_refl p)
find-set_file_self p f ((q, g) ∷ fs) = elim (Bool-cases (text_eq p q)) [
  | inl e ↦ rw e (rw (text_eq_refl p))
  | inr e ↦ rw e (rw e (find-set_file_self p f fs))
]

-- The bytes of a path, none if there is no such file.
abbrev pub bytes_in : Option DayFile → Text
bytes_in none = []
bytes_in (some f) = f.bytes

abbrev pub bytes_of : Text → Files → Text
bytes_of p fs = bytes_in (find_file p fs)

pub find-set_file_other :
    (p q : Text) (f : DayFile) (fs : Files) → q ≢ p → find_file q (set_file p f fs) ≡ find_file q fs
unfolding find_file set_file
find-set_file_other p q f [] h = rw (text_eq_of_ne q p h)
find-set_file_other p q f ((r, g) ∷ fs) h = elim (Bool-cases (text_eq p r)) [
  | inl e ↦ rw (e, ← text_eq→eq p r e, text_eq_of_ne q p h)
  | inr e ↦ rw (e, find-set_file_other p q f fs h)
]

unfoldable pub linked : Option DayFile → Option DayFile
linked none = none
linked (some f) = some (record f { linked = true })

pub find-link_all : (q : Text) (fs : Files) → find_file q (link_all fs) ≡ linked (find_file q fs)
unfolding find_file link_all linked
find-link_all q [] = refl
find-link_all q ((p, f) ∷ fs) = elim (Bool-cases (text_eq q p)) [
  | inl e ↦ rw e
  | inr e ↦ rw e (find-link_all q fs)
]

pub bytes-link_all : (q : Text) (fs : Files) → bytes_of q (link_all fs) ≡ bytes_of q fs
unfolding linked
bytes-link_all q fs = ap bytes_in (find-link_all q fs) ∙ same (find_file q fs)
  where
    same : (o : Option DayFile) → bytes_in (linked o) ≡ bytes_in o
    same none = refl
    same (some f) = refl
