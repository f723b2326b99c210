-- ===== src/Governor/Windows.antt =====
-- How many policy windows a sequence of calls counts: only `report_system_pressure` and
-- `advance_window` do (crates/resource-governor/src/lib.rs).
use local_search.Prelude.{ℕ, ◌+◌, List, [], ◌∷◌}
use local_search.Governor.Machine.{Event, observed_pressure, window}

abbrev pub weight : Event → ℕ
weight (observed_pressure p) = 1
weight window = 1
weight _ = 0

abbrev pub windows : List Event → ℕ
windows [] = 0
windows (e ∷ es) = weight e + windows es
