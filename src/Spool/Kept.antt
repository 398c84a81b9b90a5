-- ===== src/Spool/Kept.antt =====
-- Where a signal can be while requests and the forwarder run (internal/spool/spool.go).
pub mod Enqueue
pub mod Forward
pub mod Steps
use edge_gw_project.Prelude.{◌≡◌, ◌∙◌, ◌≢◌, ◌⊎◌, inl, inr, true, false}
use edge_gw_project.Prelude.{Option, none, some, List, Text}
use edge_gw_project.Spool.Dir.{DirEntry, read_file, is_json}
use edge_gw_project.Spool.Queue.{Hook, Spool}

-- Where a signal with this name and payload can be: it waits, it lies in `dead`, or the world has
-- its confirmation.
abbrev pub KeptIn :
    {W : Type 0} → (Text → W → Type 0) → Text → Text → List DirEntry → List DirEntry → W → Type 0
KeptIn Confirmed name payload dir dead w =
    (read_file name dir ≡ some payload)
    ⊎ (((read_file name dir ≡ none) × (read_file name dead ≡ some payload)) ⊎ Confirmed payload w)

abbrev pub Kept : {W : Type 0} → (Text → W → Type 0) → Text → Text → Spool W → Type 0
Kept Confirmed name payload s = KeptIn Confirmed name payload s.dir s.dead s.world

pub ne_of_json : (n m : Text) → is_json n ≡ true → is_json m ≡ false → n ≢ m
ne_of_json n m a b e = cc

-- What a confirmation is: `forward` answers with success only where the world then has one, and no
-- step takes it away, as long as the world is good.
pub record Confirmation {W E : Type 0} (hooks : Hook → W → W) (forward : Text → W → Option E × W)
    : Type 1 where
  pub Good : W → Type 0
  pub hooks_keep : (h : Hook) (w : W) → Good w → Good (hooks h w)
  pub forward_keeps : (p : Text) (w : W) → Good w → Good (forward p w).1
  pub Confirmed : Text → W → Type 0
  pub confirms : (p : Text) (w : W) → Good w → (forward p w).0 ≡ none → Confirmed p (forward p w).1
  pub forward_confirmed :
      (p q : Text) (w : W) → Good w → Confirmed p w → Confirmed p (forward q w).1
  pub hooks_confirmed : (p : Text) (h : Hook) (w : W) → Confirmed p w → Confirmed p (hooks h w)

module _ {W : Type 0} (Confirmed : Text → W → Type 0) (name payload : Text) where
  -- Nothing about the signal's files changed.
  pub Kept-same :
      (dir dir' dead dead' : List DirEntry) (w w' : W)
      → read_file name dir' ≡ read_file name dir
      → read_file name dead' ≡ read_file name dead
      → (Confirmed payload w → Confirmed payload w')
      → KeptIn Confirmed name payload dir dead w
      → KeptIn Confirmed name payload dir' dead' w'
  Kept-same d d' e e' w w' a b c (inl r) = inl (a ∙ r)
  Kept-same d d' e e' w w' a b c (inr (inl (r, q))) = inr (inl (a ∙ r, b ∙ q))
  Kept-same d d' e e' w w' a b c (inr (inr f)) = inr (inr (c f))
