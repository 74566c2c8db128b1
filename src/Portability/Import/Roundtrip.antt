-- ===== src/Portability/Import/Roundtrip.antt =====
-- export_import.py: the import of an export.
use open_graph_memory.Prelude.{
  ℕ, ◌+◌, String, ◌≡◌, refl, ap, ◌∙◌, sym, true, false, Option, none, some, List, [], ◌∷◌, ◌++◌,
  map, ◌==◌, is_text, any_row, length, arith, All, All-map, eq_iff, find_row, find_row-true,
  where_rows, leb,
}
use open_graph_memory.Prelude.Members.{All-selects}
use open_graph_memory.Prelude.Sorting.{order_by-All}
use mathlib.Core.List.{append_assoc, append-nil}
use open_graph_memory.Prelude.Results.{Result, ok, ◌>>=◌}
use open_graph_memory.Json.{Json, Fields, dict, text}
use open_graph_memory.Rows.{
  Episode, EpisodeStatus, open_status, active, degraded, superseded, rejected, archived, Attempt,
  AttemptResult, success, failed, partial, Outcome, OutcomeStatus, cancelled, Evidence,
}
use open_graph_memory.Store.{Store, get_episode}
use open_graph_memory.Portability.Export.{
  items_json, attempt_json, outcome_json, evidence_json, Bundle, episode_fields, exported,
  export_project, bundle_of, status_text, result_text, outcome_text, optional_text, optional_dict,
}
use open_graph_memory.Portability.Import.{
  json_items, read_texts, read_status, read_result, read_outcome_status, read_optional_text,
  read_optional_dict, Progress, import_attempt, import_attempts, import_outcome,
  import_outcome_fields, import_evidence_row, import_evidence, import_new_episode, import_episode,
  import_episodes, import_project,
}

json_items-items_json : (vs : List Json) → json_items (items_json vs) ≡ vs
json_items-items_json [] = refl
json_items-items_json (v ∷ vs) = λ i. v ∷ json_items-items_json vs i

read_texts-map : (ss : List String) → read_texts (map text ss) ≡ ok ss
read_texts-map [] = refl
read_texts-map (s ∷ ss) = ap (λ r. r >>= λ rest. ok (s ∷ rest)) (read_texts-map ss)

read_status-status_text : (s : EpisodeStatus) → read_status (some (text (status_text s))) ≡ ok s
read_status-status_text open_status = refl
read_status-status_text active = refl
read_status-status_text degraded = refl
read_status-status_text superseded = refl
read_status-status_text rejected = refl
read_status-status_text archived = refl

read_result-result_text : (r : AttemptResult) → read_result (some (text (result_text r))) ≡ ok r
read_result-result_text success = refl
read_result-result_text failed = refl
read_result-result_text partial = refl

read_outcome_status-outcome_text :
    (s : OutcomeStatus) → read_outcome_status (some (text (outcome_text s))) ≡ ok s
read_outcome_status-outcome_text success = refl
read_outcome_status-outcome_text failed = refl
read_outcome_status-outcome_text partial = refl
read_outcome_status-outcome_text cancelled = refl

read_optional_text-optional_text :
    (o : Option String) → read_optional_text (some (optional_text o)) ≡ ok o
read_optional_text-optional_text none = refl
read_optional_text-optional_text (some s) = refl

read_optional_dict-optional_dict :
    (o : Option Fields) → read_optional_dict (some (optional_dict o)) ≡ ok o
read_optional_dict-optional_dict none = refl
read_optional_dict-optional_dict (some fs) = refl

-- The rows have identifiers, which are not empty and which neither the table nor a row before has.
abbrev NewAttempts : List Attempt → List Attempt → Type 0
NewAttempts [] table = Unit {0}
NewAttempts (a ∷ rest) table =
    (is_text a.id ≡ true)
    × (any_row (λ (x : Attempt). x.id == a.id) table ≡ false)
    × NewAttempts rest (table ++ a ∷ [])

abbrev NewEvidence : List Evidence → List Evidence → Type 0
NewEvidence [] table = Unit {0}
NewEvidence (e ∷ rest) table =
    (is_text e.id ≡ true)
    × (any_row (λ (x : Evidence). x.id == e.id) table ≡ false)
    × NewEvidence rest (table ++ e ∷ [])

abbrev NewOutcome : Option Outcome → List Outcome → Type 0
NewOutcome none table = Unit {0}
NewOutcome (some o) table =
    (is_text o.id ≡ true) × (any_row (λ (x : Outcome). x.id == o.id) table ≡ false)

-- The rows belong to the episode.
abbrev AreAttemptsOf : String → List Attempt → Type 0
AreAttemptsOf k rows = All (λ (a : Attempt). a.episode_id ≡ k) rows

abbrev AreEvidenceOf : String → List Evidence → Type 0
AreEvidenceOf k rows = All (λ (e : Evidence). e.episode_id ≡ k) rows

abbrev IsOutcomeOf : String → Option Outcome → Type 0
IsOutcomeOf k none = Unit {0}
IsOutcomeOf k (some o) = o.episode_id ≡ k

abbrev outcome_rows : Option Outcome → List Outcome
outcome_rows none = []
outcome_rows (some o) = o ∷ []

module _ {F : Type 0} (ids : ℕ → String) where
  abbrev add_attempts : Progress F → List Attempt → Progress F
  add_attempts st rows = record st {
    store = record st.store { attempts = st.store.attempts ++ rows };
  }

  abbrev add_outcomes : Progress F → List Outcome → Progress F
  add_outcomes st rows = record st {
    store = record st.store { outcomes = st.store.outcomes ++ rows };
  }

  abbrev add_evidence : Progress F → List Evidence → Progress F
  add_evidence st rows = record st {
    store = record st.store { evidence = st.store.evidence ++ rows };
  }

  import_attempt-attempt_json :
      (k : String) (a : Attempt) (st : Progress F)
      → a.episode_id ≡ k
      → is_text a.id ≡ true
      → any_row (λ (x : Attempt). x.id == a.id) st.store.attempts ≡ false
      → import_attempt ids false k (attempt_json a) st ≡ ok (add_attempts st (a ∷ []))
  unfolding import_attempt
  import_attempt-attempt_json k a st own named free =
      rw
        (
          read_result-result_text a.result,
          read_optional_text-optional_text a.notes,
          json_items-items_json a.actions,
          named,
          free,
        )
        (λ i. ok (add_attempts st (record a { episode_id = sym own i } ∷ [])))

  import_attempts-map :
      (k : String) (rows : List Attempt) (st : Progress F)
      → AreAttemptsOf k rows
      → NewAttempts rows st.store.attempts
      → import_attempts ids false k (map attempt_json rows) st ≡ ok (add_attempts st rows)
  unfolding import_attempts
  import_attempts-map k [] st own free =
      ap (λ t. ok (record st { store = record st.store { attempts = t } }))
        (sym (append-nil st.store.attempts))
  import_attempts-map k (a ∷ rows) st own (named, new, rest) =
      ap (λ r. r >>= λ next. import_attempts ids false k (map attempt_json rows) next)
        (import_attempt-attempt_json k a st own.0 named new)
      ∙ (import_attempts-map k rows (add_attempts st (a ∷ [])) own.1 rest
          ∙ ap (λ t. ok (record st { store = record st.store { attempts = t } }))
              (append_assoc st.store.attempts (a ∷ []) rows))

  import_outcome-outcome_json :
      (k : String) (o : Option Outcome) (st : Progress F)
      → IsOutcomeOf k o
      → NewOutcome o st.store.outcomes
      → import_outcome ids false k (some (outcome_json o)) st
        ≡ ok (add_outcomes st (outcome_rows o))
  unfolding import_outcome_fields
  import_outcome-outcome_json k none st own free =
      ap (λ t. ok (record st { store = record st.store { outcomes = t } }))
        (sym (append-nil st.store.outcomes))
  import_outcome-outcome_json k (some o) st own (named, new) =
      rw
        (
          read_outcome_status-outcome_text o.status,
          read_optional_text-optional_text o.lesson,
          named,
          new,
        )
        (λ i. ok (add_outcomes st (record o { episode_id = sym own i } ∷ [])))

  import_evidence-map :
      (k : String) (rows : List Evidence) (st : Progress F)
      → AreEvidenceOf k rows
      → NewEvidence rows st.store.evidence
      → import_evidence ids false k (map evidence_json rows) st ≡ ok (add_evidence st rows)
  unfolding import_evidence import_evidence_row
  import_evidence-map k [] st own free =
      ap (λ t. ok (record st { store = record st.store { evidence = t } }))
        (sym (append-nil st.store.evidence))
  import_evidence-map k (e ∷ rows) st own (named, new, rest) =
      ap (λ r. r >>= λ next. import_evidence ids false k (map evidence_json rows) next)
        (head e own.0 named new)
      ∙ (import_evidence-map k rows (add_evidence st (e ∷ [])) own.1 rest
          ∙ ap (λ t. ok (record st { store = record st.store { evidence = t } }))
              (append_assoc st.store.evidence (e ∷ []) rows))
    where
      head :
          (e : Evidence)
          → e.episode_id ≡ k
          → is_text e.id ≡ true
          → any_row (λ (x : Evidence). x.id == e.id) st.store.evidence ≡ false
          → import_evidence_row ids false k (evidence_json e) st ≡ ok (add_evidence st (e ∷ []))
      head e own named new =
          rw (named, new) (λ i. ok (add_evidence st (record e { episode_id = sym own i } ∷ [])))

module _ {F : Type 0} where
  -- The rows of a bundle belong to its episode.
  abbrev pub IsBundle : Bundle F → Type 0
  IsBundle b =
      AreAttemptsOf b.episode.id b.attempts
      × IsOutcomeOf b.episode.id b.outcome
      × AreEvidenceOf b.episode.id b.evidence

module _ {F : Type 0} (now : ℕ) where
  -- the row that an import makes of an episode
  abbrev pub moved : String → Episode F → Episode F
  moved project_id e = record e {
    project_id = project_id;
    root_id = none;
    superseded_by_id = none;
    created_at = now;
    updated_at = now;
  }

  -- The store with a bundle's rows, under the project
  abbrev pub add_bundle : String → Bundle F → Store F → Store F
  add_bundle project_id b db = record db {
    episodes = db.episodes ++ moved project_id b.episode ∷ [];
    attempts = db.attempts ++ b.attempts;
    outcomes = db.outcomes ++ outcome_rows b.outcome;
    evidence = db.evidence ++ b.evidence;
  }

  abbrev pub add_bundles : String → List (Bundle F) → Store F → Store F
  add_bundles project_id [] db = db
  add_bundles project_id (b ∷ bs) db = add_bundles project_id bs (add_bundle project_id b db)

  -- The identifiers of the bundles are not empty, not taken in the store and not taken twice.
  abbrev pub AreNew : String → List (Bundle F) → Store F → Type 0
  AreNew project_id [] db = Unit {0}
  AreNew project_id (b ∷ bs) db =
      (is_text b.episode.id ≡ true)
      × (get_episode db.episodes b.episode.id ≡ none)
      × NewAttempts b.attempts db.attempts
      × NewOutcome b.outcome db.outcomes
      × NewEvidence b.evidence db.evidence
      × AreNew project_id bs (add_bundle project_id b db)

module _ {F : Type 0} (read_float : Json → Result F) (default_confidence : F) (ids : ℕ → String)
    (now : ℕ) (float_json : F → Json) (time_text : ℕ → String)
    (exact : (x : F) → read_float (float_json x) ≡ ok x) where
  abbrev with_bundle : String → Bundle F → Progress F → Progress F
  with_bundle project_id b st = record st {
    store = add_bundle now project_id b st.store;
    imported = st.imported + 1;
  }

  import_new_episode-episode_fields :
      (project_id : String) (b : Bundle F) (st : Progress F)
      → IsBundle b
      → NewAttempts b.attempts st.store.attempts
      → NewOutcome b.outcome st.store.outcomes
      → NewEvidence b.evidence st.store.evidence
      → import_new_episode read_float default_confidence ids now project_id b.episode.id false
          (episode_fields float_json time_text b)
          st
        ≡ ok (with_bundle project_id b st)
  unfolding import_new_episode
  import_new_episode-episode_fields project_id b st own attempts outcome evidence =
      let started : Progress F = record st {
        store = record st.store {
          episodes = st.store.episodes ++ moved now project_id b.episode ∷ [];
        };
      } in
      rw
        (
          json_items-items_json (map text b.episode.tags),
          read_texts-map b.episode.tags,
          read_optional_dict-optional_dict b.episode.content,
          exact b.episode.confidence,
          read_status-status_text b.episode.status,
          json_items-items_json (map attempt_json b.attempts),
          json_items-items_json (map evidence_json b.evidence),
        )
        (rw (import_attempts-map ids b.episode.id b.attempts started own.0 attempts) (
          rw
            (import_outcome-outcome_json ids b.episode.id b.outcome
              (add_attempts ids started b.attempts) own.1 outcome)
            (rw
              (import_evidence-map ids b.episode.id b.evidence
                (add_outcomes ids (add_attempts ids started b.attempts) (outcome_rows b.outcome))
                own.2 evidence)
              refl)))

  import_episode-episode_fields :
      (project_id : String) (b : Bundle F) (st : Progress F)
      → IsBundle b
      → is_text b.episode.id ≡ true
      → get_episode st.store.episodes b.episode.id ≡ none
      → NewAttempts b.attempts st.store.attempts
      → NewOutcome b.outcome st.store.outcomes
      → NewEvidence b.evidence st.store.evidence
      → import_episode read_float default_confidence ids now project_id
          (dict (episode_fields float_json time_text b))
          st
        ≡ ok (with_bundle project_id b st)
  unfolding import_episode
  import_episode-episode_fields project_id b st own named free attempts outcome evidence =
      rw (named) (
        rw (free) (import_new_episode-episode_fields project_id b st own attempts outcome evidence))

  with_bundles : String → List (Bundle F) → Progress F → Progress F
  with_bundles project_id [] st = st
  with_bundles project_id (b ∷ bs) st = with_bundles project_id bs (with_bundle project_id b st)

  import_episodes-map :
      (project_id : String) (bs : List (Bundle F)) (st : Progress F)
      → All IsBundle bs
      → AreNew now project_id bs st.store
      → (last : Progress F) × (import_episodes read_float default_confidence ids now project_id
            (map (λ b. dict (episode_fields float_json time_text b)) bs)
            st
          ≡ ok last)
        × (last.store ≡ add_bundles now project_id bs st.store)
        × (last.imported ≡ st.imported + length bs)
  unfolding import_episodes
  import_episodes-map project_id [] st own free = (st, refl, refl, omega arith)
  import_episodes-map project_id (b ∷ bs) st own (named, fresh, attempts, outcome, evidence, rest) =
      let (last, run, same, count) =
        import_episodes-map project_id bs (with_bundle project_id b st) own.1 rest in
      (
        last,
        ap
              (λ r. r >>= λ next.
                import_episodes read_float default_confidence ids now project_id
                  (map (λ b. dict (episode_fields float_json time_text b)) bs) next)
              (import_episode-episode_fields project_id b st own.0 named fresh attempts outcome
                evidence)
            ∙ run,
        same,
        omega (arith, count),
      )

  bundle_of-IsBundle : (db : Store F) (e : Episode F) → IsBundle (bundle_of db e)
  bundle_of-IsBundle db e = (
    order_by-All (λ (a b : Attempt). leb a.sequence b.sequence) _ _
        (All-map (λ a t. (eq_iff a.episode_id e.id).0 t)
          (where_rows (λ (a : Attempt). a.episode_id == e.id) db.attempts)
          (All-selects (λ (a : Attempt). a.episode_id == e.id) db.attempts)),
    outcome (find_row (λ (o : Outcome). o.episode_id == e.id) db.outcomes) refl,
    All-map (λ v t. (eq_iff v.episode_id e.id).0 t)
        (where_rows (λ (v : Evidence). v.episode_id == e.id) db.evidence)
        (All-selects (λ (v : Evidence). v.episode_id == e.id) db.evidence),
  )
    where
      outcome :
          (o : Option Outcome)
          → find_row (λ (o : Outcome). o.episode_id == e.id) db.outcomes ≡ o
          → IsOutcomeOf e.id o
      outcome none q = tt
      outcome (some o) q = (eq_iff o.episode_id e.id).0 (find_row-true _ db.outcomes q)

  bundles-AreBundles : (db : Store F) (es : List (Episode F)) → All IsBundle (map (bundle_of db) es)
  bundles-AreBundles db [] = tt
  bundles-AreBundles db (e ∷ es) = (bundle_of-IsBundle db e, bundles-AreBundles db es)

  exported-AreBundles : (db : Store F) (project_id : String) → All IsBundle (exported db project_id)
  unfolding exported
  exported-AreBundles db project_id =
      bundles-AreBundles db (where_rows (λ (e : Episode F). e.project_id == project_id) db.episodes)

  -- If a float that is written is read back as it was, and the identifiers of what a project exports
  -- are neither empty nor taken in a store, there or twice, then importing the export into the store
  -- imports every episode of the project. It adds exactly the exported rows: each episode with its
  -- fields under the new project, without its links to others and with the time of the import, and
  -- its attempts, its outcome and its evidence as they were.
  pub import_project-export_project :
      (project_id : String) (source : Store F) (exported_at : ℕ) (new_project_id : String)
      (target : Store F)
      → AreNew now new_project_id (exported source project_id) target
      → import_project read_float default_confidence ids now new_project_id
          (export_project float_json time_text exported_at source project_id)
          target
        ≡ ok (
          length (exported source project_id),
          add_bundles now new_project_id (exported source project_id) target,
        )
  unfolding import_project export_project
  import_project-export_project project_id source exported_at new_project_id target new =
      let bundles = exported source project_id in
      let (last, run, same, count) =
        import_episodes-map new_project_id bundles
          (record { store = target; used = 0; imported = 0 })
          (exported-AreBundles source project_id) new in
      rw (json_items-items_json (map (λ b. dict (episode_fields float_json time_text b)) bundles))
        (rw run (λ i. ok ((count ∙ zero_add) i, same i)))
    where
      zero_add : {n : ℕ} → 0 + n ≡ n
      zero_add = omega arith
