-- ===== src/Spool/Dir/Laws.antt =====
-- Laws of the directory operations of Spool/Dir.antt.
use mathlib.Core.List.{reverse, reverse-append}
use edge_gw_project.Prelude.{suc, ◌≡◌, refl, ap, ◌∙◌, ◌≢◌, ◌⊎◌, inl, inr}
use edge_gw_project.Prelude.{true, false, none, some, List, [], ◌∷◌, ◌++◌, arith}
use edge_gw_project.Prelude.{
  Text, codes, text_eq, text_eq→eq, text_eq_of_ne, text_eq_refl, text_le, cut_prefix,
}
use edge_gw_project.Prelude.{cut_prefix-append, length, Among, Bool-cases}
use edge_gw_project.Spool.Dir.{DirEntry, file, subdir, has_suffix, is_json, read_file, remove_file}
use edge_gw_project.Spool.Dir.{put_file, pending_names, insert_name, sort_names, list_pending}

pub has_suffix-append : (s suffix : Text) → has_suffix (s ++ suffix) suffix ≡ true
unfolding has_suffix
has_suffix-append s suffix =
    rw (reverse-append s suffix, cut_prefix-append (reverse suffix) (reverse s), has_suffix)

-- The suffix of a temporary file differs from that of a signal in its last letter.
pub temp_not_json : (s : Text) → is_json (s ++ codes ".tmp") ≡ false
unfolding has_suffix cut_prefix
temp_not_json s = rw (reverse-append s (codes ".tmp"), has_suffix)

-- No two files of a directory have one name.
abbrev pub HasUniqueNames : List DirEntry → Type 0
HasUniqueNames [] = Unit
HasUniqueNames (subdir d ∷ dir) = HasUniqueNames dir
HasUniqueNames (file n bytes ∷ dir) = (read_file n dir ≡ none) × HasUniqueNames dir

module _ (n : Text) where
  pub read-remove_file :
      (m : Text) (dir : List DirEntry) → m ≢ n → read_file m (remove_file n dir) ≡ read_file m dir
  unfolding read_file remove_file
  read-remove_file m [] h = refl
  read-remove_file m (subdir d ∷ dir) h = read-remove_file m dir h
  read-remove_file m (file k bytes ∷ dir) h = elim (Bool-cases (text_eq n k)) [
    | inl e ↦ rw (e, ← text_eq→eq n k e, text_eq_of_ne m n h) (read-remove_file m dir h)
    | inr e ↦ rw (e, read-remove_file m dir h)
  ]

  pub read-put_file :
      (m bytes : Text) (dir : List DirEntry)
      → m ≢ n
      → read_file m (put_file n bytes dir) ≡ read_file m dir
  unfolding read_file put_file
  read-put_file m bytes dir h = rw (text_eq_of_ne m n h) (read-remove_file m dir h)

  pub read-put_file_self :
      (bytes : Text) (dir : List DirEntry) → read_file n (put_file n bytes dir) ≡ some bytes
  unfolding read_file put_file
  read-put_file_self bytes dir = rw (text_eq_refl n)

  pub remove_file_absent : (dir : List DirEntry) → read_file n dir ≡ none → remove_file n dir ≡ dir
  unfolding read_file remove_file
  remove_file_absent [] h = refl
  remove_file_absent (subdir d ∷ dir) h = ap (◌∷◌ (subdir d)) (remove_file_absent dir h)
  remove_file_absent (file k bytes ∷ dir) h = ground (arith, remove_file_absent dir)

  pub pending-remove_other :
      (dir : List DirEntry)
      → is_json n ≡ false
      → pending_names (remove_file n dir) ≡ pending_names dir
  unfolding pending_names remove_file
  pending-remove_other [] h = refl
  pending-remove_other (subdir d ∷ dir) h = pending-remove_other dir h
  pending-remove_other (file k bytes ∷ dir) h = elim (Bool-cases (text_eq n k)) [
    | inl e ↦ rw (e, ← text_eq→eq n k e, h) (pending-remove_other dir h)
    | inr e ↦ rw (e, pending-remove_other dir h)
  ]

  pub read-remove_file_self : (dir : List DirEntry) → read_file n (remove_file n dir) ≡ none
  unfolding read_file remove_file
  read-remove_file_self [] = refl
  read-remove_file_self (subdir d ∷ dir) = read-remove_file_self dir
  read-remove_file_self (file k bytes ∷ dir) = elim (Bool-cases (text_eq n k)) [
    | inl e ↦ rw e (read-remove_file_self dir)
    | inr e ↦ rw (e, read_file) (rw e (read-remove_file_self dir))
  ]

  pub pending-remove_count :
      (dir : List DirEntry) {bytes : Text}
      → HasUniqueNames dir
      → is_json n ≡ true
      → read_file n dir ≡ some bytes
      → length (pending_names dir) ≡ suc (length (pending_names (remove_file n dir)))
  unfolding pending_names remove_file read_file
  pending-remove_count [] u j h = cc
  pending-remove_count (subdir d ∷ dir) u j h = pending-remove_count dir u j h
  pending-remove_count (file k bytes ∷ dir) (new, u) j h = elim (Bool-cases (text_eq n k)) [
    | inl e ↦
        rw (e, ← text_eq→eq n k e, j) (rw (remove_file_absent dir (rw (text_eq→eq n k e) new)))
    | inr e ↦
        let below = pending-remove_count dir u j (rw e at h) in
        elim (Bool-cases (is_json k)) [ inl p ↦ rw (e, p) (ap suc below) | inr p ↦ rw (e, p) below ]
  ]

  pub read_of_pending :
      (dir : List DirEntry)
      → Among n (pending_names dir)
      → (is_json n ≡ true) × ((bytes : Text) × (read_file n dir ≡ some bytes))
  unfolding pending_names read_file
  read_of_pending [] m = elim m [ ]
  read_of_pending (subdir d ∷ dir) m = read_of_pending dir m
  read_of_pending (file k bytes ∷ dir) m = elim (Bool-cases (text_eq n k)) [
    | inl e ↦ elim (Bool-cases (is_json k)) [
      | inl j ↦ (rw (text_eq→eq n k e) j, (bytes, rw e))
      | inr j ↦ let (jn, (b, r)) = read_of_pending dir (ground (arith, m)) in (jn, (bytes, rw e))
    ]
    | inr e ↦ let (jn, (b, r)) = read_of_pending dir (later k bytes dir e m) in (jn, (b, rw e r))
  ]
    where
      later :
          (k bytes : Text) (dir : List DirEntry)
          → text_eq n k ≡ false
          → Among n (pending_names (file k bytes ∷ dir))
          → Among n (pending_names dir)
      later k bytes dir e m = elim (Bool-cases (is_json k)) [
        | inl j ↦ elim (rw j at m) [ inl p ↦ absurd (cc (rw p at e, text_eq_refl k)) | inr q ↦ q ]
        | inr j ↦ rw j at m
      ]

pub remove_file-HasUniqueNames :
    (n : Text) (dir : List DirEntry) → HasUniqueNames dir → HasUniqueNames (remove_file n dir)
unfolding remove_file
remove_file-HasUniqueNames n [] u = tt
remove_file-HasUniqueNames n (subdir d ∷ dir) u = remove_file-HasUniqueNames n dir u
remove_file-HasUniqueNames n (file k bytes ∷ dir) (new, u) = elim (Bool-cases (text_eq n k)) [
  | inl e ↦ rw e (remove_file-HasUniqueNames n dir u)
  | inr e ↦ rw e (
    read-remove_file n k dir (λ p. cc (rw p at e, text_eq_refl n)) ∙ new,
    remove_file-HasUniqueNames n dir u,
  )
]

pub put_file-HasUniqueNames :
    (n bytes : Text) (dir : List DirEntry)
    → HasUniqueNames dir
    → HasUniqueNames (put_file n bytes dir)
unfolding put_file
put_file-HasUniqueNames n bytes dir u =
    (read-remove_file_self n dir, remove_file-HasUniqueNames n dir u)

pub length-insert_name : (x : Text) (xs : List Text) → length (insert_name x xs) ≡ suc (length xs)
unfolding insert_name
length-insert_name x [] = refl
length-insert_name x (y ∷ ys) = ground (arith, length-insert_name x ys)

pub length-sort_names : (xs : List Text) → length (sort_names xs) ≡ length xs
unfolding sort_names
length-sort_names [] = refl
length-sort_names (x ∷ xs) = length-insert_name x (sort_names xs) ∙ ap suc (length-sort_names xs)

pub length-list_pending :
    (dir : List DirEntry) → length (list_pending dir) ≡ length (pending_names dir)
unfolding list_pending
length-list_pending dir = length-sort_names (pending_names dir)

Among-insert_name :
    (a x : Text) (xs : List Text) → Among a (insert_name x xs) → (a ≡ x) ⊎ Among a xs
unfolding insert_name
Among-insert_name a x [] m = m
Among-insert_name a x (y ∷ ys) m = elim (Bool-cases (text_le x y)) [
  | inl e ↦ rw e at m
  | inr e ↦ elim (rw e at m) [
    | inl p ↦ inr (inl p)
    | inr q ↦ elim (Among-insert_name a x ys q) [ inl r ↦ inl r | inr r ↦ inr (inr r) ]
  ]
]

pub Among-sort_names : (a : Text) (xs : List Text) → Among a (sort_names xs) → Among a xs
unfolding sort_names
Among-sort_names a [] m = m
Among-sort_names a (x ∷ xs) m = elim (Among-insert_name a x (sort_names xs) m) [
  | inl e ↦ inl e
  | inr r ↦ inr (Among-sort_names a xs r)
]

-- The head of the listing is a signal's file in the directory.
pub head_of_listing :
    (dir : List DirEntry) (n : Text) (names : List Text)
    → list_pending dir ≡ n ∷ names
    → (is_json n ≡ true) × ((bytes : Text) × (read_file n dir ≡ some bytes))
unfolding list_pending
head_of_listing dir n names e =
    read_of_pending n dir (Among-sort_names n (pending_names dir) (rw e (inl refl)))
