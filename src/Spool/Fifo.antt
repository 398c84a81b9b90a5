-- ===== src/Spool/Fifo.antt =====
-- What the spool promises, as a queue (internal/spool/spool.go): the waiting signals in the order
-- of their names, to which a request adds one and from which the forwarder takes the first.
pub mod Sorting
pub mod Steps
pub mod Replay
use edge_gw_project.Prelude.{
  ◌≡◌, Option, none, some, List, [], ◌∷◌, Text, text_le, text_eq, if◌then◌else◌,
}
use edge_gw_project.Spool.Dir.{DirEntry, read_file, list_pending}

-- A waiting signal: its name and its payload.
abbrev pub Item : Type 0
Item = Text × Text

abbrev pub bytes_or_empty : Option Text → Text
bytes_or_empty none = []
bytes_or_empty (some bytes) = bytes

unfoldable pub contents : List Text → List DirEntry → List Item
contents [] dir = []
contents (n ∷ names) dir = (n, bytes_or_empty (read_file n dir)) ∷ contents names dir

-- The queue that a directory stands for.
unfoldable pub queue_of : List DirEntry → List Item
queue_of dir = contents (list_pending dir) dir

-- Adds a signal behind those of smaller names.
unfoldable pub offer : Item → List Item → List Item
offer x [] = x ∷ []
offer x (y ∷ ys) = let rest = offer x ys in if text_le x.0 y.0 then x ∷ y ∷ ys else y ∷ rest

pub data QueueStep (q : List Item) : List Item → Type 0 where
  stays : QueueStep q q
  offers : (x : Item) → QueueStep q (offer x q)
  takes : {x : Item} {rest : List Item} → q ≡ x ∷ rest → QueueStep q rest

-- What a queue is told: a signal comes in at the place of its name, or the one of a name leaves.
pub data QueueOp : Type 0 where
  joins : Item → QueueOp
  leaves : Text → QueueOp

unfoldable pub without_name : Text → List Item → List Item
without_name n [] = []
without_name n (x ∷ q) = let rest = without_name n q in if text_eq n x.0 then q else x ∷ rest

unfoldable pub do_op : QueueOp → List Item → List Item
do_op (joins x) q = offer x q
do_op (leaves n) q = without_name n q

-- The queue after what it was told, the last first.
unfoldable pub replay : List QueueOp → List Item → List Item
replay [] q = q
replay (o ∷ earlier) q = do_op o (replay earlier q)
