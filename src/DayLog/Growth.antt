-- ===== src/DayLog/Growth.antt =====
-- Appending to a day's file adds to the files of a directory and takes nothing from them.
use mathlib.Core.List.{append_assoc, append-nil}
use mathlib.Core.Path.{subst}
use edge_gw_project.Prelude.{◌≡◌, sym, ap, ◌∙◌, inl, inr, [], ◌++◌, Text}
use edge_gw_project.DayLog.{DayLog, DayFaults, append}
use edge_gw_project.DayLog.Files.{bytes_of}
use edge_gw_project.DayLog.Laws.{IsHandled, append_only}

-- The bytes of a path are those that it had, and more behind them.
abbrev pub Grows : Text → DayLog → DayLog → Type 0
Grows p d u = (more : Text) × (bytes_of p u.files ≡ bytes_of p d.files ++ more)

pub Grows-refl : (p : Text) (d : DayLog) → Grows p d d
Grows-refl p d = ([], sym (append-nil (bytes_of p d.files)))

pub Grows-trans : (p : Text) (d u v : DayLog) → Grows p d u → Grows p u v → Grows p d v
Grows-trans p d u v (a, e) (b, f) =
    (a ++ b, f ∙ ap (λ z. z ++ b) e ∙ append_assoc (bytes_of p d.files) a b)

pub append-Grows :
    (path : Text → Text) (x : DayFaults) (day line : Text) (d : DayLog) (p : Text)
    → IsHandled path d
    → Grows p d (append x (path day) day line d).1
append-Grows path x day line d p h =
    let (own, other) = append_only path x day line d p h in
    elim other [
      | inl e ↦ subst (λ q. Grows q d (append x (path day) day line d).1) (sym e) own
      | inr e ↦ ([], e ∙ sym (append-nil (bytes_of p d.files)))
    ]
