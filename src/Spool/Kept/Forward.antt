-- ===== src/Spool/Kept/Forward.antt =====
-- The forwarder takes a signal away only with its confirmation, or moves it to `dead`
-- (internal/spool/spool.go).
use mathlib.Core.Path.{subst}
use edge_gw_project.Prelude.{ℕ, ◌≡◌, refl, sym, ◌∙◌, ◌≢◌, ◌⊎◌, inl, inr, Bool, true}
use edge_gw_project.Prelude.{
  Option, none, some, List, [], ◌∷◌, Text, text_eq, text_eq→eq, text_eq_refl, ◌-◌, Bool-cases,
}
use edge_gw_project.Prelude.{Option-cases}
use edge_gw_project.Spool.Name.{parse_spool_time}
use edge_gw_project.Spool.Dir.{read_file, remove_file, put_file, is_json, list_pending}
use edge_gw_project.Spool.Dir.Laws.{
  read-remove_file, read-remove_file_self, read-put_file, read-put_file_self,
}
use edge_gw_project.Spool.Queue.{
  Hook, on_dead, on_depth, on_delivered, fire, Spool, ForwardFaults, dec_depth, dead_letter, settle,
  send, read_head, forward_head, forward_oldest, update_oldest_pending,
}
use edge_gw_project.Spool.Kept.{Confirmation, KeptIn, Kept, Kept-same}

module _ {W E : Type 0} (hooks : Hook → W → W) (is_permanent : E → Bool)
    (forward : Text → W → Option E × W) (law : Confirmation hooks forward) (name payload : Text)
    (json : is_json name ≡ true) where
  bury-Kept :
      (n bytes : Text) (s : Spool W)
      → read_file n s.dir ≡ some bytes
      → Kept law.Confirmed name payload s
      → Kept law.Confirmed name payload (
          fire hooks on_dead (
            dec_depth hooks
              (record s { dir = remove_file n s.dir; dead = put_file n bytes s.dead })))
  unfolding dec_depth
  bury-Kept n bytes s r k = elim (Bool-cases (text_eq name n)) [
    | inl e ↦ moved (text_eq→eq name n e) k
    | inr e ↦
        let apart : name ≢ n = λ p. cc (rw p at e, text_eq_refl n) in
        Kept-same law.Confirmed name payload s.dir _ s.dead _ s.world _
          (read-remove_file n name s.dir apart) (read-put_file n name bytes s.dead apart) world k
  ]
    where
      world :
          law.Confirmed payload s.world
          → law.Confirmed payload (hooks on_dead (hooks (on_depth (s.depth - 1)) s.world))
      world f = law.hooks_confirmed payload _ _ (law.hooks_confirmed payload _ _ f)

      moved :
          name ≡ n
          → Kept law.Confirmed name payload s
          → Kept law.Confirmed name payload (
              fire hooks on_dead (
                dec_depth hooks
                  (record s { dir = remove_file n s.dir; dead = put_file n bytes s.dead })))
      moved p (inl e) = inr (
          inl (
            rw p (read-remove_file_self n s.dir),
            rw p (read-put_file_self n bytes s.dead) ∙ sym r ∙ rw p at e,
          ))
      moved p (inr (inl (e, d))) = absurd (cc (rw p at e))
      moved p (inr (inr f)) = inr (inr (world f))

  dead_letter-Kept :
      (x : ForwardFaults) (n : Text) (s : Spool W)
      → Kept law.Confirmed name payload s
      → Kept law.Confirmed name payload (dead_letter hooks x n s)
  unfolding dead_letter
  dead_letter-Kept x n s k = elim (Bool-cases x.bury_ok) [
    | inl b ↦ elim (Option-cases (read_file n s.dir)) [
      | inl e ↦ rw (b, e, dead_letter) k
      | inr (bytes, e) ↦ rw (b, e, dead_letter) (bury-Kept n bytes s e k)
    ]
    | inr b ↦ rw b k
  ]

  -- The head is removed only with a confirmation of the bytes that it holds.
  delivered-Kept :
      (x : ForwardFaults) (now : ℕ) (n bytes : Text) (s : Spool W)
      → read_file n s.dir ≡ some bytes
      → law.Confirmed bytes s.world
      → Kept law.Confirmed name payload s
      → Kept law.Confirmed name payload (settle hooks is_permanent forward x now n (none, s)).1
  unfolding settle
  delivered-Kept x now n bytes s r c k = elim (Bool-cases x.remove_ok) [
    | inl b ↦ rw b (elim (Bool-cases (text_eq name n)) [
      | inl e ↦ gone (text_eq→eq name n e) k
      | inr e ↦
          Kept-same law.Confirmed name payload s.dir _ s.dead _ s.world _
            (read-remove_file n name s.dir (λ p. cc (rw p at e, text_eq_refl n))) refl world k
    ])
    | inr b ↦
        rw b (Kept-same law.Confirmed name payload s.dir _ s.dead _ s.world _ refl refl world k)
  ]
    where
      world :
          law.Confirmed payload s.world
          → law.Confirmed payload (
              hooks
                (on_delivered (parse_spool_time n) now)
                (hooks (on_depth (s.depth - 1)) s.world))
      world f = law.hooks_confirmed payload _ _ (law.hooks_confirmed payload _ _ f)

      gone :
          name ≡ n
          → Kept law.Confirmed name payload s
          → KeptIn law.Confirmed name payload (remove_file n s.dir) s.dead (
              hooks
                (on_delivered (parse_spool_time n) now)
                (hooks (on_depth (s.depth - 1)) s.world))
      gone p (inl e) =
          let same : bytes ≡ payload = cc (rw p at e) in
          inr (inr (world (subst (λ q. law.Confirmed q s.world) same c)))
      gone p (inr (inl (e, d))) = absurd (cc (rw p at e))
      gone p (inr (inr f)) = inr (inr (world f))

  send-Kept :
      (x : ForwardFaults) (now : ℕ) (n : Text) (bytes : Option Text) (s : Spool W)
      → (bytes ≡ none) ⊎ (bytes ≡ read_file n s.dir)
      → law.Good s.world
      → Kept law.Confirmed name payload s
      → Kept law.Confirmed name payload (send hooks is_permanent forward x now n bytes s).1
  unfolding send
  send-Kept x now n none s r g k = dead_letter-Kept x n s k
  send-Kept x now n (some p) s r g k = elim (Option-cases (forward p s.world).0) [
    | inl e ↦ rw e (
        delivered-Kept x now n p (record s { world = (forward p s.world).1 })
          (elim r [ inl q ↦ cc | inr q ↦ sym q ]) (law.confirms p s.world g e) onward)
    | inr (f, e) ↦ elim (Bool-cases (is_permanent f)) [
      | inl b ↦
          rw (e, settle, b)
            (dead_letter-Kept x n (record s { world = (forward p s.world).1 }) onward)
      | inr b ↦
          rw (e, settle, b)
            (Kept-same law.Confirmed name payload s.dir _ s.dead _ (forward p s.world).1 _ refl refl
              (law.hooks_confirmed payload _ _) onward)
    ]
  ]
    where
      onward : KeptIn law.Confirmed name payload s.dir s.dead (forward p s.world).1
      onward =
          Kept-same law.Confirmed name payload s.dir s.dir s.dead s.dead s.world _ refl refl
            (law.forward_confirmed payload p s.world g) k

  forward_head-Kept :
      (x : ForwardFaults) (now : ℕ) (names : List Text) (s : Spool W)
      → law.Good s.world
      → Kept law.Confirmed name payload s
      → Kept law.Confirmed name payload (forward_head hooks is_permanent forward x now names s).1
  unfolding forward_head
  forward_head-Kept x now [] s g k = k
  forward_head-Kept x now (n ∷ names) s g k = send-Kept x now n (read_head x n s) s what_is_read g k
    where
      what_is_read : (read_head x n s ≡ none) ⊎ (read_head x n s ≡ read_file n s.dir)
      what_is_read = elim (Bool-cases x.read_file_ok) [
        | inl b ↦ inr (rw (b, read_head))
        | inr b ↦ inl (rw (b, read_head))
      ]

  pub forward_oldest-Kept :
      (x : ForwardFaults) (now : ℕ) (s : Spool W)
      → law.Good s.world
      → Kept law.Confirmed name payload s
      → Kept law.Confirmed name payload (forward_oldest hooks is_permanent forward x now s).1
  unfolding forward_oldest
  forward_oldest-Kept x now s g k = elim (Bool-cases x.read_dir_ok) [
    | inl b ↦ simp b (
        forward_head-Kept x now (list_pending s.dir)
          (update_oldest_pending hooks (list_pending s.dir) now s) (law.hooks_keep _ s.world g)
          (Kept-same law.Confirmed name payload s.dir s.dir s.dead s.dead s.world _ refl refl
            (law.hooks_confirmed payload _ s.world) k))
    | inr b ↦ simp b k
  ]
