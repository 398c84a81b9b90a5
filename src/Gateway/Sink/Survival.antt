-- ===== src/Gateway/Sink/Survival.antt =====
-- What a power loss leaves of the local sink (cmd/gateway/sink.go).
use edge_gw_project.Prelude.{ℕ, ◌≡◌, none, some, List, [], ◌∷◌, ◌++◌, Text}
use edge_gw_project.DayLog.{DayFile, DayLog, DayFaults, find_file}
use edge_gw_project.DayLog.Files.{bytes_of}
use edge_gw_project.DayLog.Laws.{IsHandled}
use edge_gw_project.DayLog.PowerLoss.{
  Fate, power_loss, IsDurable, power_loss-IsDurable, append-IsDurable,
}
use edge_gw_project.DayLog.Survival.{IsLinkedIfAny, append_recorded-IsDurable}
use edge_gw_project.Gateway.Sink.{sink_path, sink_forward}
use edge_gw_project.Gateway.Sink.Laws.{deliver_all}

module _ (format_day : ℕ → Text) (dir : Text) where
  deliver_all-IsDurable :
      (p text : Text) (rest : List (DayFaults × ℕ × Text)) (d : DayLog)
      → IsDurable p text d.files
      → IsDurable p text (deliver_all format_day dir rest d).files
  unfolding deliver_all sink_forward
  deliver_all-IsDurable p text [] d k = k
  deliver_all-IsDurable p text ((x, now, payload) ∷ rest) d k =
      deliver_all-IsDurable p text rest (sink_forward format_day dir x now payload d).1 (
        append-IsDurable x p text (sink_path dir (format_day now)) (format_day now)
          (payload ++ (b'\n' ∷ [])) d k)

  -- With the open file that of the noted day, and the day's file absent or with a durable
  -- directory entry: a payload whose delivery succeeded survives a power loss after any later
  -- deliveries, whichever of their system calls fail. Whatever becomes of what no fsync has
  -- covered, the day's file is there and begins with what it held and the payload on its line.
  pub delivered_survives :
      (x : DayFaults) (now : ℕ) (payload : Text) (d : DayLog) (rest : List (DayFaults × ℕ × Text))
      (fate : Fate)
      → IsHandled (sink_path dir) d
      → IsLinkedIfAny (sink_path dir (format_day now)) d.files
      → (sink_forward format_day dir x now payload d).0 ≡ none
      → let p = sink_path dir (format_day now) in
        let later =
          deliver_all format_day dir rest (sink_forward format_day dir x now payload d).1 in
        (f : DayFile) × (more : Text) × (find_file p (power_loss fate later.files) ≡ some f)
        × (f.bytes ≡ (bytes_of p d.files ++ (payload ++ (b'\n' ∷ []))) ++ more)
  unfolding sink_forward
  delivered_survives x now payload d rest fate h l ok =
      let p = sink_path dir (format_day now) in
      let line = payload ++ (b'\n' ∷ []) in
      let u = (sink_forward format_day dir x now payload d).1 in
      power_loss-IsDurable fate p (bytes_of p d.files ++ line)
        (deliver_all format_day dir rest u).files
        (deliver_all-IsDurable p (bytes_of p d.files ++ line) rest u
          (append_recorded-IsDurable (sink_path dir) x (format_day now) line d h l ok))
