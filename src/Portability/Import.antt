-- ===== src/Portability/Import.antt =====
-- export_import.py `import_project`: `ids` are the identifiers that `uuid7` returns in the request,
-- the first one first, and `now` its time. A value of another type than its column's is refused, as
-- the database does for the columns that are not JSON.
pub mod Roundtrip
use open_graph_memory.Prelude.{
  ℕ, zero, suc, ◌+◌, String, Bool, true, false, not, ◌||◌, ◌&&◌, Option, none, some, List, [], ◌∷◌,
  ◌++◌, ◌==◌, is_given, is_text, any_row, join, if◌then◌else◌,
}
use open_graph_memory.Prelude.Int.{ℤ, pos, negsuc}
use open_graph_memory.Prelude.Results.{
  http_exception, integrity_error, raised, Result, ok, err, ◌>>=◌, ◌>>◌, guard,
}
use open_graph_memory.Json.{
  Json, null, boolean, int, float, text, list, dict, Items, nil, cons, Fields, end, field, get,
  is_true,
}
use open_graph_memory.Rows.{
  Episode, EpisodeStatus, open_status, active, degraded, superseded, rejected, archived, Attempt,
  AttemptResult, success, failed, partial, Outcome, OutcomeStatus, cancelled, Evidence,
}
use open_graph_memory.Store.{Store, get_episode}

-- `d.get(key, default)` for a text column
abbrev pub read_text : Option Json → String → Result String
read_text none default = ok default
read_text (some (text s)) default = ok s
read_text (some v) default = err integrity_error

abbrev pub read_optional_text : Option Json → Result (Option String)
read_optional_text none = ok none
read_optional_text (some null) = ok none
read_optional_text (some (text s)) = ok (some s)
read_optional_text (some v) = err integrity_error

abbrev pub read_dict : Option Json → Result Fields
read_dict none = ok end
read_dict (some (dict fs)) = ok fs
read_dict (some v) = err integrity_error

abbrev pub read_optional_dict : Option Json → Result (Option Fields)
read_optional_dict none = ok none
read_optional_dict (some null) = ok none
read_optional_dict (some (dict fs)) = ok (some fs)
read_optional_dict (some v) = err integrity_error

abbrev pub read_nat : Option Json → ℕ → Result ℕ
read_nat none default = ok default
read_nat (some (int (pos n))) default = ok n
read_nat (some v) default = err integrity_error

abbrev pub read_int : Option Json → Result ℤ
read_int none = ok (pos 0)
read_int (some (int z)) = ok z
read_int (some v) = err integrity_error

abbrev pub json_items : Items → List Json
json_items nil = []
json_items (cons v vs) = v ∷ json_items vs

abbrev pub read_texts : List Json → Result (List String)
read_texts [] = ok []
read_texts (text s ∷ vs) = read_texts vs >>= λ rest. ok (s ∷ rest)
read_texts (v ∷ vs) = err integrity_error

-- a JSON column that holds a list
abbrev pub read_items : Option Json → Result (List Json)
read_items none = ok []
read_items (some (list vs)) = ok (json_items vs)
read_items (some v) = err integrity_error

-- what a loop runs over: the keys of a dictionary and the letters of a text are no dictionaries
abbrev pub read_rows : Option Json → Result (List Json)
read_rows none = ok []
read_rows (some (list vs)) = ok (json_items vs)
read_rows (some (dict end)) = ok []
read_rows (some (text s)) = if is_text s then err (raised "AttributeError") else ok []
read_rows (some v) = err (raised "TypeError")

-- `data.get`, which only a dictionary has
abbrev pub fields_of : Json → Result Fields
fields_of (dict fs) = ok fs
fields_of v = err (raised "AttributeError")

-- `data.get("id")`, None where it is false
abbrev pub read_id : Option Json → Result (Option String)
read_id none = ok none
read_id (some (text s)) = ok (some s)
read_id (some v) = if is_true v then err integrity_error else ok none

abbrev pub read_status : Option Json → Result EpisodeStatus
read_status none = ok open_status
read_status (some (text s)) =
    if s == "open"
    then ok open_status
    else if s == "active"
    then ok active
    else if s == "degraded"
    then ok degraded
    else if s == "superseded"
    then ok superseded
    else if s == "rejected"
    then ok rejected
    else if s == "archived"
    then ok archived
    else err integrity_error
read_status (some v) = err integrity_error

abbrev pub read_result : Option Json → Result AttemptResult
read_result none = ok success
read_result (some (text s)) =
    if s == "success"
    then ok success
    else if s == "failed"
    then ok failed
    else if s == "partial"
    then ok partial
    else err integrity_error
read_result (some v) = err integrity_error

abbrev pub read_outcome_status : Option Json → Result OutcomeStatus
read_outcome_status none = ok success
read_outcome_status (some (text s)) =
    if s == "success"
    then ok success
    else if s == "failed"
    then ok failed
    else if s == "partial"
    then ok partial
    else if s == "cancelled"
    then ok cancelled
    else err integrity_error
read_outcome_status (some v) = err integrity_error

abbrev pub value_of : Option String → String
value_of none = ""
value_of (some s) = s

-- The identifier of a row, and the number of fresh ones after it.
abbrev pub choose_id : (ℕ → String) → String → Bool → Option String → Bool → ℕ → String × ℕ
choose_id ids prefix remap raw exists n =
    if remap || not (is_given raw) || exists
    then (join (prefix ∷ ids n ∷ []), n + 1)
    else (value_of raw, n)

-- the store, the fresh identifiers used, and the episodes imported
pub record Progress (F : Type 0) : Type 0 where
  pub store : Store F
  pub used : ℕ
  pub imported : ℕ

module _ {F : Type 0} (ids : ℕ → String) where
  unfoldable pub import_attempt : Bool → String → Json → Progress F → Result (Progress F)
  import_attempt remap episode_id document st = do
    fs ← fields_of document
    raw ← read_id (get fs "id")
    let chosen =
        choose_id ids "att_" remap raw
          (any_row (λ (a : Attempt). a.id == value_of raw) st.store.attempts) st.used
    sequence ← read_nat (get fs "sequence") 1
    hypothesis ← read_text (get fs "hypothesis") ""
    actions ← read_items (get fs "actions")
    result ← read_result (get fs "result")
    notes ← read_optional_text (get fs "notes")
    metadata ← read_dict (get fs "metadata")
    let row : Attempt = record {
      id = chosen.0;
      episode_id = episode_id;
      sequence = sequence;
      hypothesis = hypothesis;
      actions = actions;
      result = result;
      notes = notes;
      metadata = metadata;
    }
    ok (record st {
      store = record st.store { attempts = st.store.attempts ++ row ∷ [] };
      used = chosen.1;
    })

  unfoldable pub import_attempts : Bool → String → List Json → Progress F → Result (Progress F)
  import_attempts remap episode_id [] st = ok st
  import_attempts remap episode_id (v ∷ vs) st =
      import_attempt remap episode_id v st >>= λ next. import_attempts remap episode_id vs next

  unfoldable pub import_outcome_fields : Bool → String → Fields → Progress F → Result (Progress F)
  import_outcome_fields remap episode_id fs st = do
    raw ← read_id (get fs "id")
    let chosen =
        choose_id ids "out_" remap raw
          (any_row (λ (o : Outcome). o.id == value_of raw) st.store.outcomes) st.used
    status ← read_outcome_status (get fs "status")
    summary ← read_text (get fs "summary") ""
    lesson ← read_optional_text (get fs "lesson")
    metrics ← read_dict (get fs "metrics")
    pattern_key ← read_text (get fs "pattern_key") ""
    metadata ← read_dict (get fs "metadata")
    let row : Outcome = record {
      id = chosen.0;
      episode_id = episode_id;
      status = status;
      summary = summary;
      lesson = lesson;
      metrics = metrics;
      pattern_key = pattern_key;
      metadata = metadata;
    }
    ok (record st {
      store = record st.store { outcomes = st.store.outcomes ++ row ∷ [] };
      used = chosen.1;
    })

  -- `if outcome_data:`
  abbrev pub import_outcome : Bool → String → Option Json → Progress F → Result (Progress F)
  import_outcome remap episode_id none st = ok st
  import_outcome remap episode_id (some (dict (field k v fs))) st =
      import_outcome_fields remap episode_id (field k v fs) st
  import_outcome remap episode_id (some v) st =
      if is_true v then err (raised "AttributeError") else ok st

  unfoldable pub import_evidence_row : Bool → String → Json → Progress F → Result (Progress F)
  import_evidence_row remap episode_id document st = do
    fs ← fields_of document
    raw ← read_id (get fs "id")
    let chosen =
        choose_id ids "ev_" remap raw
          (any_row (λ (e : Evidence). e.id == value_of raw) st.store.evidence) st.used
    reference ← read_text (get fs "reference") ""
    metadata ← read_dict (get fs "metadata")
    let row : Evidence = record {
      id = chosen.0;
      episode_id = episode_id;
      reference = reference;
      metadata = metadata;
    }
    ok (record st {
      store = record st.store { evidence = st.store.evidence ++ row ∷ [] };
      used = chosen.1;
    })

  unfoldable pub import_evidence : Bool → String → List Json → Progress F → Result (Progress F)
  import_evidence remap episode_id [] st = ok st
  import_evidence remap episode_id (v ∷ vs) st =
      import_evidence_row remap episode_id v st >>= λ next. import_evidence remap episode_id vs next

module _ {F : Type 0} (read_float : Json → Result F) (default_confidence : F) (ids : ℕ → String)
    (now : ℕ) where
  abbrev pub read_confidence : Option Json → Result F
  read_confidence none = ok default_confidence
  read_confidence (some v) = read_float v

  -- The row of an episode, and what belongs to it.
  unfoldable pub import_new_episode :
      String → String → Bool → Fields → Progress F → Result (Progress F)
  import_new_episode project_id episode_id remap fs st = do
    domain ← read_text (get fs "domain") "custom"
    type ← read_text (get fs "type") "custom"
    title ← read_text (get fs "title") "Imported episode"
    goal ← read_text (get fs "goal") ""
    problem_signature ← read_text (get fs "problem_signature") ""
    scope ← read_dict (get fs "scope")
    tags ← read_items (get fs "tags") >>= read_texts
    metadata ← read_dict (get fs "metadata")
    content ← read_optional_dict (get fs "content")
    confidence ← read_confidence (get fs "confidence")
    version ← read_nat (get fs "version") 1
    status ← read_status (get fs "status")
    feedback_score ← read_int (get fs "feedback_score")
    let row : Episode F = record {
      id = episode_id;
      project_id = project_id;
      domain = domain;
      type = type;
      title = title;
      goal = goal;
      problem_signature = problem_signature;
      scope = scope;
      tags = tags;
      metadata = metadata;
      content = content;
      confidence = confidence;
      version = version;
      root_id = none;
      status = status;
      feedback_score = feedback_score;
      superseded_by_id = none;
      created_at = now;
      updated_at = now;
    }
    attempts ← read_rows (get fs "attempts")
    with_attempts ←
        import_attempts ids remap episode_id attempts
          (record st { store = record st.store { episodes = st.store.episodes ++ row ∷ [] } })
    with_outcome ← import_outcome ids remap episode_id (get fs "outcome") with_attempts
    evidence ← read_rows (get fs "evidence")
    with_evidence ← import_evidence ids remap episode_id evidence with_outcome
    ok (record with_evidence { imported = with_evidence.imported + 1 })

  abbrev pub is_owned : Option (Episode F) → String → Bool
  is_owned none project_id = false
  is_owned (some e) project_id = e.project_id == project_id

  abbrev pub is_there : Option (Episode F) → Bool
  is_there none = false
  is_there (some e) = true

  abbrev pub existing : Option String → Store F → Option (Episode F)
  existing raw db = if is_given raw then get_episode db.episodes (value_of raw) else none

  abbrev import_found :
      String → Fields → Option String → Option (Episode F) → Progress F → Result (Progress F)
  import_found project_id fs raw found st =
      if is_owned found project_id
      then ok st
      else if is_there found || not (is_given raw)
      then import_new_episode project_id (join ("mem_" ∷ ids st.used ∷ [])) (is_there found) fs
          (record st { used = st.used + 1 })
      else import_new_episode project_id (value_of raw) false fs st

  -- An episode that the project has is passed over; one of another project gets new identifiers.
  unfoldable pub import_episode : String → Json → Progress F → Result (Progress F)
  import_episode project_id document st = do
    fs ← fields_of document
    raw ← read_id (get fs "id")
    let found = existing raw st.store
    import_found project_id fs raw found st

  unfoldable pub import_episodes : String → List Json → Progress F → Result (Progress F)
  import_episodes project_id [] st = ok st
  import_episodes project_id (v ∷ vs) st =
      import_episode project_id v st >>= λ next. import_episodes project_id vs next

  abbrev episodes_of : Option Json → Result (List Json)
  episodes_of none = ok []
  episodes_of (some (list vs)) = ok (json_items vs)
  episodes_of (some v) = err (http_exception 400 "invalid import data: episodes must be an array")

  -- The number of the imported episodes, and the store after the commit.
  unfoldable pub import_project : String → Fields → Store F → Result (ℕ × Store F)
  import_project project_id document db = do
    rows ← episodes_of (get document "episodes")
    last ← import_episodes project_id rows (record { store = db; used = 0; imported = 0 })
    ok (last.imported, last.store)
