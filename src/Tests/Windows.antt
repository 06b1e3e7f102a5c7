-- ===== src/Tests/Windows.antt =====
-- Enrollment windows.
use profundiza_uq_backend.Base.{none, some, [], ◌∷◌}
use profundiza_uq_backend.Base.Table.{All}
use profundiza_uq_backend.Shared.Audit.{Meta}
use profundiza_uq_backend.Window.Service.{
  CreateInput, UpdateInput, Tables, create_window, update_window, commit,
}
use profundiza_uq_backend.Window.Service.Dates.{
  IsDated, Reach, here, next, creates, updates, Reach-IsDated,
}

abbrev request : Meta
request = record { ip_address = []; user_agent = [] }

abbrev no_windows : Tables
no_windows = record { windows = []; audit_events = [] }

abbrev spring_window : CreateInput
spring_window = record {
  semester_id = some 1;
  name = 97 ∷ [];
  starts_at = 10;
  ends_at = 20;
  target_shift = none;
  actor_id = 40;
}

abbrev longer : UpdateInput
longer = record {
  id = 30;
  name = none;
  starts_at = none;
  ends_at = some 30;
  target_shift = none;
  status = none;
  actor_id = 40;
}

abbrev with_window : Tables
with_window = (commit no_windows (create_window request 5 30 spring_window no_windows)).0

window_history :
    Reach no_windows (commit with_window (update_window request 6 longer with_window)).0
window_history = next (next here (creates request 5 30 spring_window)) (updates request 6 longer)

Reach-IsDated_example :
    All IsDated (commit with_window (update_window request 6 longer with_window)).0.windows
Reach-IsDated_example = Reach-IsDated window_history tt
