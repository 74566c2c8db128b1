-- ===== src/Memory/Patterns/Promotion.antt =====
-- memory/api.py `feedback_pattern`: feedback on a pattern that was superseded.
use open_graph_memory.Prelude.{
  String, ◌≡◌, true, some, List, arith, is_given, eq_iff, update_rows, subst, sym, find_row-true,
  find_row-update_rows,
}
use open_graph_memory.Prelude.Int.{ℤ}
use open_graph_memory.Prelude.Results.{ok}
use open_graph_memory.Floats.{Floats}
use open_graph_memory.Rows.{Pattern}
use open_graph_memory.Store.{Store, get_pattern, put_pattern, has_pattern_key}
use open_graph_memory.Memory.Service.{is_promoted, PatternView, pattern_view}
use open_graph_memory.Memory.Patterns.{feedback_pattern, feedback_row}

get_pattern-owner :
    {F : Type 0} (ps : List (Pattern F)) (project key : String) (p : Pattern F)
    → get_pattern ps project key ≡ some p
    → (p.project_id ≡ project) × (p.pattern_key ≡ key)
get_pattern-owner ps project key p found = ground (
  arith,
  find_row-true (has_pattern_key project key) ps found,
  eq_iff p.project_id project,
  eq_iff p.pattern_key key,
)

-- A written pattern is the one that its own key finds.
put_pattern-get :
    {F : Type 0} (db : Store F) (q : Pattern F) (project key : String)
    → q.project_id ≡ project
    → q.pattern_key ≡ key
    → (p : Pattern F) → get_pattern db.patterns project key ≡ some p
    → get_pattern (put_pattern q db).patterns project key ≡ some q
put_pattern-get {F} db q project key e f p found =
    let own : has_pattern_key project key q ≡ true =
      ground (arith, eq_iff q.project_id project, eq_iff q.pattern_key key) in
    let row = find_row-update_rows (has_pattern_key project key) q db.patterns own found in
    subst
      (λ a.
        get_pattern (update_rows (has_pattern_key a q.pattern_key) (λ _. q) db.patterns) project key
        ≡ some q)
      (sym e)
      (subst
        (λ b.
          get_pattern (update_rows (has_pattern_key project b) (λ _. q) db.patterns) project key
          ≡ some q)
        (sym f) row)

module _ {F : Type 0} (fl : Floats F) (db : Store F) (project key : String) (score : ℤ)
    (p : Pattern F) {r : PatternView F × Store F}
    (found : get_pattern db.patterns project key ≡ some p)
    (returned : feedback_pattern fl db project key score ≡ ok r) where
  stored_row :
      (r.1 ≡ put_pattern (feedback_row fl p score) db)
      × (r.0.confidence ≡ (feedback_row fl p score).confidence)
  unfolding feedback_pattern pattern_view
  stored_row = ground arith

  -- Feedback on a pattern that another one has superseded leaves it superseded, and stores it as
  -- promoted whenever its counts and its new confidence allow a promotion.
  pub feedback_pattern_repromotes :
      is_given p.superseded_by_key ≡ true
      → is_promoted fl p.verified_outcomes r.0.confidence ≡ true
      → (q : Pattern F) × (get_pattern r.1.patterns project key ≡ some q)
        × (is_given q.superseded_by_key ≡ true)
        × (q.promoted ≡ true)
  feedback_pattern_repromotes superseded allowed =
      let (stored, confidence) = stored_row in
      let q = feedback_row fl p score in
      let (own_project, own_key) = get_pattern-owner db.patterns project key p found in
      let kept = put_pattern-get db q project key own_project own_key p found in
      (q, rw stored kept, superseded, rw confidence at allowed)
