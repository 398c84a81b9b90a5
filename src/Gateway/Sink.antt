-- ===== src/Gateway/Sink.antt =====
-- The local sink (cmd/gateway/sink.go, Forward) over the day files of DayLog.antt.
pub mod Laws
pub mod Survival
use edge_gw_project.Prelude.{ℕ, Bool, none, some, if◌then◌else◌, Option, [], ◌∷◌, ◌++◌, Text, codes}
use edge_gw_project.DayLog.{Files, DayLog, DayFaults, DayError, append}

-- `filepath.Join(s.dir, "signals-"+day+".ndjson")`
unfoldable pub sink_path : Text → Text → Text
sink_path dir day = dir ++ (codes "/signals-" ++ (day ++ codes ".ndjson"))

-- localSink.Forward on the day that `format_day` gives the clock.
unfoldable pub sink_forward :
    (ℕ → Text) → Text → DayFaults → ℕ → Text → DayLog → Option DayError × DayLog
sink_forward format_day dir x now payload d =
    append x (sink_path dir (format_day now)) (format_day now) (payload ++ (b'\n' ∷ [])) d

-- newLocalSink, given whether the directory can be made: a sink with no open file.
unfoldable pub new_local_sink : Bool → Files → Option DayLog
new_local_sink mkdir_ok files =
    if mkdir_ok then some (record { files = files; day = []; handle = none }) else none
