-- ===== src/Examples/Transfers.antt =====
-- An export of a small project, and its import into an empty database.
use open_graph_memory.Prelude.{ℕ, ◌≡◌, refl, none, [], ◌∷◌}
use open_graph_memory.Prelude.Sorting.{order_by, insert_by}
use open_graph_memory.Prelude.Int.{pos}
use open_graph_memory.Prelude.Results.{integrity_error, Result, ok, err}
use open_graph_memory.Json.{Json, int, text, end}
use open_graph_memory.Rows.{Attempt, success}
use open_graph_memory.Store.{Store}
use open_graph_memory.Portability.Export.{exported, export_project}
use open_graph_memory.Portability.Import.{import_project}
use open_graph_memory.Portability.Import.Roundtrip.{add_bundles, import_project-export_project}
use open_graph_memory.Examples.Data.{a_store, two_linked}

abbrev whole_json : ℕ → Json
whole_json n = int (pos n)

abbrev read_whole : Json → Result ℕ
read_whole (int (pos n)) = ok n
read_whole _ = err integrity_error

abbrev an_attempt : Attempt
an_attempt = record {
  id = "att_1";
  episode_id = "a";
  sequence = 1;
  hypothesis = "h";
  actions = text "act" ∷ [];
  result = success;
  notes = none;
  metadata = end;
}

abbrev a_project : Store ℕ
a_project = record (a_store two_linked []) { attempts = an_attempt ∷ [] }

abbrev nothing : Store ℕ
nothing = a_store [] []

import_project-export_project_example :
    import_project read_whole 50
      (λ n. "new")
      99
      "q"
      (export_project whole_json (λ t. "then") 98 a_project "p")
      nothing
    ≡ ok (2, add_bundles 99 "q" (exported a_project "p") nothing)
unfolding exported order_by insert_by
import_project-export_project_example =
    import_project-export_project read_whole 50 (λ n. "new") 99 whole_json (λ t. "then") (λ x. refl)
      "p" a_project 98 "q" nothing
      (refl, refl, (refl, refl, tt), tt, tt, (refl, refl, tt, tt, tt, tt))
