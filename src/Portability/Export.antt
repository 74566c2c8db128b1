-- ===== src/Portability/Export.antt =====
-- export_import.py `export_project`: the JSON of an export. `float_json` writes a float, `time_text` is
-- `isoformat` of a time.
use open_graph_memory.Prelude.{
  ℕ, String, Option, none, some, List, [], ◌∷◌, map, ◌==◌, leb, length, find_row, where_rows,
}
use open_graph_memory.Prelude.Int.{pos}
use open_graph_memory.Prelude.Sorting.{order_by}
use open_graph_memory.Json.{Json, null, int, text, list, dict, Items, nil, cons, Fields, end, field}
use open_graph_memory.Rows.{
  Episode, EpisodeStatus, open_status, active, degraded, superseded, rejected, archived, Attempt,
  AttemptResult, success, failed, partial, Outcome, OutcomeStatus, cancelled, Evidence,
}
use open_graph_memory.Store.{Store}

abbrev pub status_text : EpisodeStatus → String
status_text open_status = "open"
status_text active = "active"
status_text degraded = "degraded"
status_text superseded = "superseded"
status_text rejected = "rejected"
status_text archived = "archived"

abbrev pub result_text : AttemptResult → String
result_text success = "success"
result_text failed = "failed"
result_text partial = "partial"

abbrev pub outcome_text : OutcomeStatus → String
outcome_text success = "success"
outcome_text failed = "failed"
outcome_text partial = "partial"
outcome_text cancelled = "cancelled"

abbrev pub items_json : List Json → Items
items_json [] = nil
items_json (v ∷ vs) = cons v (items_json vs)

abbrev pub optional_text : Option String → Json
optional_text none = null
optional_text (some s) = text s

abbrev pub optional_dict : Option Fields → Json
optional_dict none = null
optional_dict (some fs) = dict fs

abbrev pub attempt_json : Attempt → Json
attempt_json a = dict (
    field "id" (text a.id) (
      field "sequence" (int (pos a.sequence)) (
        field "hypothesis" (text a.hypothesis) (
          field "actions" (list (items_json a.actions)) (
            field "result" (text (result_text a.result))
              (field "notes" (optional_text a.notes) (field "metadata" (dict a.metadata) end)))))))

abbrev pub outcome_json : Option Outcome → Json
outcome_json none = null
outcome_json (some o) = dict (
    field "id" (text o.id) (
      field "status" (text (outcome_text o.status)) (
        field "summary" (text o.summary) (
          field "lesson" (optional_text o.lesson) (
            field "metrics" (dict o.metrics) (
              field "pattern_key" (text o.pattern_key)
                (field "metadata" (dict o.metadata) end)))))))

abbrev pub evidence_json : Evidence → Json
evidence_json e = dict (
    field "id" (text e.id)
      (field "reference" (text e.reference) (field "metadata" (dict e.metadata) end)))

-- an episode with what belongs to it
pub record Bundle (F : Type 0) : Type 0 where
  pub episode : Episode F
  pub attempts : List Attempt
  pub outcome : Option Outcome
  pub evidence : List Evidence

module _ {F : Type 0} where
  abbrev pub bundle_of : Store F → Episode F → Bundle F
  bundle_of db ep = record {
    episode = ep;
    attempts =
        order_by (λ (a b : Attempt). leb a.sequence b.sequence)
          (where_rows (λ (a : Attempt). a.episode_id == ep.id) db.attempts);
    outcome = find_row (λ (o : Outcome). o.episode_id == ep.id) db.outcomes;
    evidence = where_rows (λ (e : Evidence). e.episode_id == ep.id) db.evidence;
  }

  unfoldable pub exported : Store F → String → List (Bundle F)
  exported db project_id =
      map (bundle_of db) (where_rows (λ (e : Episode F). e.project_id == project_id) db.episodes)

module _ {F : Type 0} (float_json : F → Json) (time_text : ℕ → String) where
  abbrev pub episode_fields : Bundle F → Fields
  episode_fields b =
      let ep = b.episode in
      field "id" (text ep.id) (
        field "domain" (text ep.domain) (
          field "type" (text ep.type) (
            field "title" (text ep.title) (
              field "goal" (text ep.goal) (
                field "problem_signature" (text ep.problem_signature) (
                  field "scope" (dict ep.scope) (
                    field "tags" (list (items_json (map text ep.tags))) (
                      field "metadata" (dict ep.metadata) (
                        field "content" (optional_dict ep.content) (
                          field "confidence" (float_json ep.confidence) (
                            field "version" (int (pos ep.version)) (
                              field "status" (text (status_text ep.status)) (
                                field "feedback_score" (int ep.feedback_score) (
                                  field "created_at" (text (time_text ep.created_at)) (
                                    field "updated_at" (text (time_text ep.updated_at)) (
                                      field "attempts"
                                        (list (items_json (map attempt_json b.attempts)))
                                        (field "outcome" (outcome_json b.outcome) (
                                          field "evidence"
                                            (list (items_json (map evidence_json b.evidence)))
                                            end))))))))))))))))))

  abbrev pub bundles_json : List (Bundle F) → Json
  bundles_json bs = list (items_json (map (λ b. dict (episode_fields b)) bs))

  -- The payload; its text is `json.dumps` of it.
  unfoldable pub export_project : ℕ → Store F → String → Fields
  export_project now db project_id =
      let bundles = exported db project_id in
      field "metadata"
        (dict (
          field "project_id" (text project_id) (
            field "exported_at" (text (time_text now)) (
              field "schema_version" (text "1.0.0")
                (field "episode_count" (int (pos (length bundles))) end)))))
        (field "episodes" (bundles_json bundles) end)
