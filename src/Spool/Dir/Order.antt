-- ===== src/Spool/Dir/Order.antt =====
-- The listing of the spool directory is sorted, so the forwarder takes the oldest signal first
-- (internal/spool/spool.go).
use edge_gw_project.Prelude.{ℕ, ◌<◌, ◌≤◌, ◌^◌, ◌≡◌, refl, sym, ap, ◌∙◌, ◌⊎◌, inl, inr}
use edge_gw_project.Prelude.{true, false, some, List, [], ◌∷◌, arith, Text, text_le, Among, All}
use edge_gw_project.Prelude.{Bool-cases, ltb, ltb→lt}
use edge_gw_project.Spool.Name.{spool_name, parse_spool_time}
use edge_gw_project.Spool.Name.Laws.{parse-spool_name, text_le-spool_name}
use edge_gw_project.Spool.Dir.{DirEntry, pending_names, insert_name, sort_names, list_pending}

pub text_le-total : (x y : Text) → text_le x y ≡ false → text_le y x ≡ true
unfolding text_le
text_le-total [] ys h = cc
text_le-total (x ∷ xs) [] h = refl
text_le-total (x ∷ xs) (y ∷ ys) h = ground (arith, text_le-total xs ys)

text_le_antisymm : (x y : Text) → text_le x y ≡ true → text_le y x ≡ true → x ≡ y
unfolding text_le
text_le_antisymm [] [] h k = refl
text_le_antisymm [] (y ∷ ys) h k = cc
text_le_antisymm (x ∷ xs) [] h k = cc
text_le_antisymm (x ∷ xs) (y ∷ ys) h k = ground (arith, text_le_antisymm xs ys)

text_le_trans : (x y z : Text) → text_le x y ≡ true → text_le y z ≡ true → text_le x z ≡ true
unfolding text_le
text_le_trans [] y z h k = refl
text_le_trans (x ∷ xs) [] z h k = cc
text_le_trans (x ∷ xs) (y ∷ ys) [] h k = cc
text_le_trans (x ∷ xs) (y ∷ ys) (z ∷ zs) h k = ground (arith, text_le_trans xs ys zs)

abbrev pub IsLeast : Text → List Text → Type 0
IsLeast x xs = All (λ y. text_le x y ≡ true) xs

abbrev pub IsSorted : List Text → Type 0
IsSorted [] = Unit
IsSorted (x ∷ xs) = IsLeast x xs × IsSorted xs

pub IsLeast-trans : (x y : Text) (zs : List Text) → text_le x y ≡ true → IsLeast y zs → IsLeast x zs
IsLeast-trans x y [] h l = tt
IsLeast-trans x y (z ∷ zs) h (l, ls) = (text_le_trans x y z h l, IsLeast-trans x y zs h ls)

IsLeast-insert_name :
    (x y : Text) (ys : List Text) → text_le y x ≡ true → IsLeast y ys → IsLeast y (insert_name x ys)
unfolding insert_name
IsLeast-insert_name x y [] h l = (h, tt)
IsLeast-insert_name x y (z ∷ zs) h (l, ls) = elim (Bool-cases (text_le x z)) [
  | inl e ↦ rw e (h, (l, ls))
  | inr e ↦ rw e (l, IsLeast-insert_name x y zs h ls)
]

insert_name-IsSorted : (x : Text) (ys : List Text) → IsSorted ys → IsSorted (insert_name x ys)
unfolding insert_name
insert_name-IsSorted x [] s = (tt, tt)
insert_name-IsSorted x (y ∷ ys) (l, s) = elim (Bool-cases (text_le x y)) [
  | inl e ↦ rw e ((e, IsLeast-trans x y ys e l), (l, s))
  | inr e ↦ rw e (IsLeast-insert_name x y ys (text_le-total x y e) l, insert_name-IsSorted x ys s)
]

pub sort_names-IsSorted : (xs : List Text) → IsSorted (sort_names xs)
unfolding sort_names
sort_names-IsSorted [] = tt
sort_names-IsSorted (x ∷ xs) = insert_name-IsSorted x (sort_names xs) (sort_names-IsSorted xs)

Among-insert_name_self : (x : Text) (ys : List Text) → Among x (insert_name x ys)
unfolding insert_name
Among-insert_name_self x [] = inl refl
Among-insert_name_self x (y ∷ ys) = elim (Bool-cases (text_le x y)) [
  | inl e ↦ rw e (inl refl)
  | inr e ↦ rw e (inr (Among-insert_name_self x ys))
]

Among-insert_name_other : (a x : Text) (ys : List Text) → Among a ys → Among a (insert_name x ys)
unfolding insert_name
Among-insert_name_other a x [] m = elim m [ ]
Among-insert_name_other a x (y ∷ ys) m = elim (Bool-cases (text_le x y)) [
  | inl e ↦ rw e (inr m)
  | inr e ↦ rw e (elim m [ inl p ↦ inl p | inr q ↦ inr (Among-insert_name_other a x ys q) ])
]

-- Every pending name is in the listing.
pub Among-list_pending : (a : Text) (xs : List Text) → Among a xs → Among a (sort_names xs)
unfolding sort_names
Among-list_pending a [] m = m
Among-list_pending a (x ∷ xs) (inl e) = rw e (Among-insert_name_self x (sort_names xs))
Among-list_pending a (x ∷ xs) (inr m) =
    Among-insert_name_other a x (sort_names xs) (Among-list_pending a xs m)

least_of_Among : (x a : Text) (xs : List Text) → IsLeast x xs → Among a xs → text_le x a ≡ true
least_of_Among x a [] l m = elim m [ ]
least_of_Among x a (y ∷ ys) (l, ls) (inl e) = rw e l
least_of_Among x a (y ∷ ys) (l, ls) (inr m) = least_of_Among x a ys ls m

head_is_least :
    (dir : List DirEntry) (x a : Text) (rest : List Text)
    → list_pending dir ≡ x ∷ rest
    → Among a (pending_names dir)
    → (a ≡ x) ⊎ (text_le x a ≡ true)
unfolding list_pending
head_is_least dir x a rest e m = elim (rw e at (Among-list_pending a (pending_names dir) m)) [
  | inl p ↦ inl p
  | inr q ↦ inr (least_of_Among x a rest (rw e at (sort_names-IsSorted (pending_names dir))).0 q)
]

some_eq : (a b : ℕ) → some a ≡ some b → a ≡ b
some_eq a b h = cc

-- Among signals that Enqueue named, the one at the head of the listing has the earliest clock
-- reading: none that waits was enqueued before it. Readings fit an int64.
pub head_is_oldest :
    (dir : List DirEntry) (n i m j : ℕ) (rest : List Text)
    → n < 2 ^ 63
    → m < 2 ^ 63
    → list_pending dir ≡ spool_name n i ∷ rest
    → Among (spool_name m j) (pending_names dir)
    → n ≤ m
head_is_oldest dir n i m j rest hn hm e a = elim (Bool-cases (ltb m n)) [
  | inr later ↦ ground arith
  | inl before ↦ absurd (
      omega (
        arith,
        ltb→lt m n before,
        same_time (elim (head_is_least dir _ _ rest e a) [
          | inl p ↦ p
          | inr l ↦
              text_le_antisymm _ _ (text_le-spool_name m n j i (ltb→lt m n before) (omega arith)) l
        ]),
      ))
]
  where
    same_time : spool_name m j ≡ spool_name n i → m ≡ n
    same_time p =
        some_eq m n
          (sym (parse-spool_name m j hm) ∙ ap parse_spool_time p ∙ parse-spool_name n i hn)
