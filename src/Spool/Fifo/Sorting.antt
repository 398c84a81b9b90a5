-- ===== src/Spool/Fifo/Sorting.antt =====
-- The sorted listing when a file leaves the directory or comes into it (internal/spool/spool.go).
use mathlib.Core.Path.{subst}
use edge_gw_project.Prelude.{◌≤◌, ◌≡◌, refl, sym, ap, ◌∙◌, inl, inr, true, false, none, some}
use edge_gw_project.Prelude.{
  List, [], ◌∷◌, arith, All, Among, Text, text_eq, text_eq→eq, text_eq_refl, text_eq_of_ne, text_le,
  length, if◌then◌else◌, Bool-cases,
}
use edge_gw_project.Spool.Dir.{
  DirEntry, file, subdir, is_json, read_file, remove_file, put_file, pending_names, insert_name,
  sort_names, list_pending,
}
use edge_gw_project.Spool.Dir.Laws.{
  HasUniqueNames, read-remove_file, remove_file_absent, pending-remove_other, pending-remove_count,
  length-list_pending, read_of_pending, head_of_listing, Among-sort_names,
}
use edge_gw_project.Spool.Dir.Order.{IsLeast, IsSorted, IsLeast-trans, sort_names-IsSorted}
use edge_gw_project.Spool.Fifo.{contents, queue_of, offer}

module _ (n : Text) where
  pub without : List Text → List Text
  without [] = []
  without (x ∷ xs) = let rest = without xs in if text_eq n x then rest else x ∷ rest

  pending-remove :
      (dir : List DirEntry) → pending_names (remove_file n dir) ≡ without (pending_names dir)
  unfolding pending_names remove_file without
  pending-remove [] = refl
  pending-remove (subdir d ∷ dir) = pending-remove dir
  pending-remove (file k bytes ∷ dir) = ground (arith, pending-remove dir)

  IsLeast-without : (x : Text) (ys : List Text) → IsLeast x ys → IsLeast x (without ys)
  unfolding without
  IsLeast-without x [] l = tt
  IsLeast-without x (y ∷ ys) (l, ls) = elim (Bool-cases (text_eq n y)) [
    | inl e ↦ rw e (IsLeast-without x ys ls)
    | inr e ↦ rw e (l, IsLeast-without x ys ls)
  ]

  insert_name_least : (x : Text) (zs : List Text) → IsLeast x zs → insert_name x zs ≡ x ∷ zs
  unfolding insert_name
  insert_name_least x [] l = refl
  insert_name_least x (z ∷ zs) (l, ls) = rw l refl

  without-insert_name_self : (ys : List Text) → without (insert_name n ys) ≡ without ys
  unfolding without insert_name
  without-insert_name_self [] = rw (text_eq_refl n) refl
  without-insert_name_self (y ∷ ys) = elim (Bool-cases (text_le n y)) [
    | inl l ↦ rw (l, text_eq_refl n) refl
    | inr l ↦ rw (l, without-insert_name_self ys) refl
  ]

  without-insert_name :
      (x : Text) (ys : List Text)
      → text_eq n x ≡ false
      → IsSorted ys
      → without (insert_name x ys) ≡ insert_name x (without ys)
  unfolding without insert_name
  without-insert_name x [] f s = rw f refl
  without-insert_name x (y ∷ ys) f (l, s) = elim (Bool-cases (text_le x y)) [
    | inl e ↦
        rw (e, f)
          (sym (
            insert_name_least x (without (y ∷ ys))
              (IsLeast-without x (y ∷ ys) (e, IsLeast-trans x y ys e l))))
    | inr e ↦ ground (arith, e, without-insert_name x ys f s)
  ]

  without-sort_names : (xs : List Text) → without (sort_names xs) ≡ sort_names (without xs)
  unfolding sort_names without
  without-sort_names [] = refl
  without-sort_names (x ∷ xs) = elim (Bool-cases (text_eq n x)) [
    | inl e ↦
        subst (λ z. without (insert_name z (sort_names xs)) ≡ sort_names (without (z ∷ xs)))
          (text_eq→eq n x e)
          (without-insert_name_self (sort_names xs)
            ∙ without-sort_names xs
            ∙ rw (text_eq_refl n) refl)
    | inr e ↦ rw e (
        without-insert_name x (sort_names xs) e (sort_names-IsSorted xs)
        ∙ ap (insert_name x) (without-sort_names xs))
  ]

  length-without : (xs : List Text) → length (without xs) ≤ length xs
  unfolding without
  length-without [] = omega arith
  length-without (x ∷ xs) = ground (arith, length-without xs)

  without_full : (xs : List Text) → length xs ≤ length (without xs) → without xs ≡ xs
  unfolding without
  without_full [] h = refl
  without_full (x ∷ xs) h = elim (Bool-cases (text_eq n x)) [
    | inl e ↦ absurd (omega (arith, rw e at h, length-without xs))
    | inr e ↦ rw e (ap (λ z. x ∷ z) (without_full xs (omega (arith, rw e at h))))
  ]

  contents-without :
      (xs : List Text) (dir : List DirEntry)
      → contents (without xs) (remove_file n dir) ≡ contents (without xs) dir
  unfolding without contents
  contents-without [] dir = refl
  contents-without (x ∷ xs) dir = elim (Bool-cases (text_eq n x)) [
    | inl e ↦ rw e (contents-without xs dir)
    | inr e ↦
        rw (e, contents)
          (rw
            (
              read-remove_file n x dir (λ p. cc (rw p at e, text_eq_refl n)),
              contents-without xs dir,
            )
            refl)
  ]

  list_pending-remove :
      (dir : List DirEntry) → list_pending (remove_file n dir) ≡ without (list_pending dir)
  unfolding list_pending
  list_pending-remove dir =
      ap sort_names (pending-remove dir) ∙ sym (without-sort_names (pending_names dir))

  -- Without the file at the head, the queue is its rest.
  pub queue_of-remove :
      (rest : List Text) (dir : List DirEntry)
      → HasUniqueNames dir
      → list_pending dir ≡ n ∷ rest
      → queue_of (remove_file n dir) ≡ contents rest dir
  unfolding queue_of without
  queue_of-remove rest dir u e =
      let (j, (bytes, r)) = head_of_listing dir n rest e in
      let kept : list_pending (remove_file n dir) ≡ without rest =
        rw (list_pending-remove dir, e, text_eq_refl n) refl in
      let count = pending-remove_count n dir u j r in
      let listed = length-list_pending dir in
      let left = length-list_pending (remove_file n dir) in
      let shorter : length rest ≤ length (without rest) =
        omega (arith, count, listed, left, ap length e, ap length kept) in
      rw (kept, contents-without rest dir, without_full rest shorter) refl

  -- A file that is no signal's may go without changing the queue.
  pub queue_of-remove_other :
      (dir : List DirEntry) → is_json n ≡ false → queue_of (remove_file n dir) ≡ queue_of dir
  unfolding queue_of list_pending
  queue_of-remove_other dir j =
      let same : list_pending (remove_file n dir) ≡ list_pending dir =
        ap sort_names (pending-remove_other n dir j) in
      let kept = sym (list_pending-remove dir) ∙ same in
      ap (λ z. contents z (remove_file n dir)) (same ∙ sym kept)
      ∙ contents-without (list_pending dir) dir
      ∙ ap (λ z. contents z dir) kept

  abbrev DiffersFrom : Text → Type 0
  DiffersFrom y = text_eq y n ≡ false

  contents-insert_name :
      (p : Text) (ns : List Text) (dir : List DirEntry)
      → All DiffersFrom ns
      → contents (insert_name n ns) (file n p ∷ dir) ≡ offer (n, p) (contents ns dir)
  unfolding contents insert_name offer read_file
  contents-insert_name p [] dir a = rw (text_eq_refl n) refl
  contents-insert_name p (y ∷ ys) dir (d, a) = elim (Bool-cases (text_le n y)) [
    | inl l ↦ rw (l, text_eq_refl n, d) (rw (contents-added p ys dir a) refl)
    | inr l ↦ rw (l, d, contents-insert_name p ys dir a) refl
  ]
    where
      contents-added :
          (p : Text) (ns : List Text) (dir : List DirEntry)
          → All DiffersFrom ns
          → contents ns (file n p ∷ dir) ≡ contents ns dir
      contents-added p [] dir a = refl
      contents-added p (y ∷ ys) dir (d, a) = rw (d, contents-added p ys dir a) refl

  All-of_Among : (xs : List Text) → ((y : Text) → Among y xs → DiffersFrom y) → All DiffersFrom xs
  All-of_Among [] h = tt
  All-of_Among (x ∷ xs) h = (h x (inl refl), All-of_Among xs (λ y m. h y (inr m)))

  -- A new signal is offered to the queue.
  pub queue_of-put :
      (p : Text) (dir : List DirEntry)
      → is_json n ≡ true
      → read_file n dir ≡ none
      → queue_of (put_file n p dir) ≡ offer (n, p) (queue_of dir)
  unfolding queue_of put_file list_pending pending_names sort_names
  queue_of-put p dir j fresh =
      rw (j, remove_file_absent n dir fresh)
        (contents-insert_name p (sort_names (pending_names dir)) dir (
          All-of_Among (sort_names (pending_names dir)) (λ y m. text_eq_of_ne y n (λ e.
            clash y e (read_of_pending y dir (Among-sort_names y (pending_names dir) m)).1.1))))
    where
      clash : (y : Text) → y ≡ n → {b : Text} → read_file y dir ≡ some b → ⊥
      clash y e r = cc (rw e at r)
