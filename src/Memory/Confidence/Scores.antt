-- ===== src/Memory/Confidence/Scores.antt =====
-- memory/confidence.py: the confidence and the status that feedback leaves.
use open_graph_memory.Prelude.{
  ℕ, ◌+◌, ◌≤◌, ◌≡◌, refl, Bool, true, false, Option, none, some, arith, subst, sym, if◌then◌else◌,
}
use open_graph_memory.Prelude.Results.{ok}
use open_graph_memory.Json.{Fields}
use open_graph_memory.Floats.{Floats, FloatLaws, IsUnit, max_float}
use open_graph_memory.Rows.{Episode, EpisodeStatus}
use open_graph_memory.Store.{Store}
use open_graph_memory.Memory.Confidence.{
  FeedbackKind, confirm, reject, correct, stale, verified, calculate_confidence,
  apply_confidence_feedback, given_or,
}

abbrev pub status_or : Option EpisodeStatus → EpisodeStatus → EpisodeStatus
status_or none s = s
status_or (some t) s = t

abbrev pub next_version : FeedbackKind → ℕ → ℕ
next_version correct n = n + 1
next_version _ n = n

module _ {F : Type 0} (fl : Floats F) (laws : FloatLaws fl) where
  abbrev GivenIsUnit : Option F → Type 0
  GivenIsUnit none = Unit
  GivenIsUnit (some c) = IsUnit fl c

  IsUnit-cents : (n : ℕ) → n ≤ 100 → IsUnit fl (fl.cents n)
  IsUnit-cents n h = record {
    from_zero = laws.le_cents 0 n (omega arith);
    to_one = laws.le_cents n 100 h;
  }

  IsUnit-if :
      (b : Bool) (x y : F) → (b ≡ true → IsUnit fl x) → IsUnit fl y → IsUnit fl (if b then x else y)
  IsUnit-if true x y hx hy = hx refl
  IsUnit-if false x y hx hy = hy

  IsUnit-max : (x y : F) → IsUnit fl x → IsUnit fl y → IsUnit fl (max_float fl x y)
  IsUnit-max x y hx hy = IsUnit-if (fl.lt x y) y x (λ _. hy) hx

  IsUnit-given_or : (o : Option F) (x : F) → GivenIsUnit o → IsUnit fl x → IsUnit fl (given_or o x)
  IsUnit-given_or none x ho hx = hx
  IsUnit-given_or (some c) x ho hx = ho

  -- Every kind of feedback maps a confidence in [0, 1] to a confidence in [0, 1].
  pub calculate_confidence-IsUnit :
      (c : F) (kind : FeedbackKind) → IsUnit fl c → IsUnit fl (calculate_confidence fl c kind)
  unfolding calculate_confidence
  calculate_confidence-IsUnit c confirm h =
      IsUnit-if _ _ _
        (λ below. record {
          from_zero = laws.add_nonneg _ _ h.from_zero (laws.le_cents 0 10 (omega arith));
          to_one = laws.le_of_lt _ _ below;
        })
        (IsUnit-cents 100 (omega arith))
  calculate_confidence-IsUnit c reject h = IsUnit-cents 0 (omega arith)
  calculate_confidence-IsUnit c stale h =
      IsUnit-if _ _ _
        (λ above. record {
          from_zero = laws.le_of_lt _ _ above;
          to_one =
              laws.le_trans _ _ _ (laws.sub_le _ _ h (laws.le_cents 0 20 (omega arith))) h.to_one;
        })
        (IsUnit-cents 0 (omega arith))
  calculate_confidence-IsUnit c verified h = IsUnit-cents 100 (omega arith)
  calculate_confidence-IsUnit c _ h = h

  -- what `apply_confidence_feedback` leaves in the confidence
  abbrev confidence_after : F → FeedbackKind → Option F → F
  confidence_after c correct given = given_or given c
  confidence_after c kind given = calculate_confidence fl c kind

  module _ (now : ℕ) (db : Store F) (e : Episode F) (content : Option Fields)
      (given : Option F) where
    apply-confidence :
        (kind : FeedbackKind) {r : Episode F × Store F}
        → apply_confidence_feedback fl now db e kind content given ≡ ok r
        → r.0.confidence ≡ confidence_after e.confidence kind given
    unfolding apply_confidence_feedback
    apply-confidence confirm h = ground arith
    apply-confidence _ h = ground arith

    confidence_after-IsUnit :
        (kind : FeedbackKind)
        → IsUnit fl e.confidence
        → GivenIsUnit given
        → IsUnit fl (confidence_after e.confidence kind given)
    confidence_after-IsUnit correct h g = IsUnit-given_or given e.confidence g h
    confidence_after-IsUnit kind h g = calculate_confidence-IsUnit e.confidence kind h

    -- Feedback of any kind leaves the confidence in [0, 1], if it was and if a given one is.
    pub apply_confidence_feedback-IsUnit :
        (kind : FeedbackKind) {r : Episode F × Store F}
        → IsUnit fl e.confidence
        → GivenIsUnit given
        → apply_confidence_feedback fl now db e kind content given ≡ ok r
        → IsUnit fl r.0.confidence
    apply_confidence_feedback-IsUnit kind u g h =
        subst (IsUnit fl) (sym (apply-confidence kind h)) (confidence_after-IsUnit kind u g)
