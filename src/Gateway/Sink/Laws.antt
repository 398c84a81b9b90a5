-- ===== src/Gateway/Sink/Laws.antt =====
-- What the local sink promises (cmd/gateway/sink.go).
use edge_gw_project.Prelude.{ℕ, ◌≡◌, refl, ◌∙◌, none, some, List, [], ◌∷◌, ◌++◌, Text}
use edge_gw_project.Prelude.{ap}
use edge_gw_project.DayLog.{DayFile, DayLog, DayFaults, find_file}
use edge_gw_project.DayLog.Files.{bytes_of}
use edge_gw_project.DayLog.Laws.{IsHandled, append_recorded, append-IsHandled}
use edge_gw_project.DayLog.Growth.{Grows, Grows-refl, Grows-trans, append-Grows}
use edge_gw_project.Gateway.Sink.{sink_path, sink_forward}

module _ (format_day : ℕ → Text) (dir : Text) where
  -- Deliveries, each with what the system calls and the clock do.
  unfoldable pub deliver_all : List (DayFaults × ℕ × Text) → DayLog → DayLog
  deliver_all [] d = d
  deliver_all ((x, now, payload) ∷ rest) d =
      deliver_all rest (sink_forward format_day dir x now payload d).1

  forward-IsHandled :
      (x : DayFaults) (now : ℕ) (payload : Text) (d : DayLog)
      → IsHandled (sink_path dir) d
      → IsHandled (sink_path dir) (sink_forward format_day dir x now payload d).1
  unfolding sink_forward
  forward-IsHandled x now payload d h =
      append-IsHandled (sink_path dir) x (format_day now) (payload ++ (b'\n' ∷ [])) d h

  forward-Grows :
      (p : Text) (x : DayFaults) (now : ℕ) (payload : Text) (d : DayLog)
      → IsHandled (sink_path dir) d
      → Grows p d (sink_forward format_day dir x now payload d).1
  unfolding sink_forward
  forward-Grows p x now payload d h =
      append-Grows (sink_path dir) x (format_day now) (payload ++ (b'\n' ∷ [])) d p h

  deliver_all-Grows :
      (p : Text) (rest : List (DayFaults × ℕ × Text)) (d : DayLog)
      → IsHandled (sink_path dir) d
      → Grows p d (deliver_all rest d)
  unfolding deliver_all
  deliver_all-Grows p [] d h = Grows-refl p d
  deliver_all-Grows p ((x, now, payload) ∷ rest) d h =
      let u = (sink_forward format_day dir x now payload d).1 in
      Grows-trans p d u (deliver_all rest u) (forward-Grows p x now payload d h)
        (deliver_all-Grows p rest u (forward-IsHandled x now payload d h))

  bytes_found :
      (p : Text) (d : DayLog) (g : DayFile)
      → find_file p d.files ≡ some g
      → bytes_of p d.files ≡ g.bytes
  bytes_found p d g e = rw e refl

  -- With the open file that of the noted day: a payload whose delivery succeeded stands, as a line of its own end, in the file of
  -- its day behind what was there before, and any later deliveries, whichever of their system calls
  -- fail, leave those bytes in place and only add behind them.
  pub delivered_stays :
      (x : DayFaults) (now : ℕ) (payload : Text) (d : DayLog) (rest : List (DayFaults × ℕ × Text))
      → IsHandled (sink_path dir) d
      → (sink_forward format_day dir x now payload d).0 ≡ none
      → let p = sink_path dir (format_day now) in
        let later = deliver_all rest (sink_forward format_day dir x now payload d).1 in
        (more : Text) × (bytes_of p later.files
          ≡ (bytes_of p d.files ++ (payload ++ (b'\n' ∷ []))) ++ more)
  unfolding sink_forward
  delivered_stays x now payload d rest h ok =
      let p = sink_path dir (format_day now) in
      let u = (sink_forward format_day dir x now payload d).1 in
      let (more, e) = deliver_all-Grows p rest u (forward-IsHandled x now payload d h) in
      let (g, f, b, _) =
        append_recorded (sink_path dir) x (format_day now) (payload ++ (b'\n' ∷ [])) d h ok in
      (more, e ∙ ap (λ z. z ++ more) (bytes_found p u g f ∙ b))
