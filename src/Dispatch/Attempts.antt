-- ===== src/Dispatch/Attempts.antt =====
-- graph/dispatch.py: attempts, leases and states of the jobs, over all sequences of steps.
use open_graph_memory.Prelude.{
  ℕ, String, ◌≡◌, refl, false, ◌||◌, not, ◌==◌, Option, none, some, inl, inr, arith, leb,
  Bool-cases, Option-cases,
}
use open_graph_memory.Jobs.{State, Document, GraphExtractionJob, get_graph_job, get_document}
use open_graph_memory.Dispatch.Execute.{
  claim, claim_document, fail_job, complete_job, set_document, claimed, is_taken, is_persisted,
}
use open_graph_memory.Dispatch.Steps.{
  Step, enqueues, dispatches, reconciles, renews, requeues, claims, ends_failed, ends_done, Steps,
  stop, step,
}
use open_graph_memory.Dispatch.Sound.{
  AreSound, put_graph_job-AreSound, IsSound-resting, job_found, enqueue-AreSound, dispatch-AreSound,
  reconcile-AreSound, renew-AreSound, requeue-AreSound,
}

set_document-jobs :
    (f : Document → Document) (d : Option Document) (s : State)
    → (set_document f d s).graph_jobs ≡ s.graph_jobs
set_document-jobs f none s = refl
set_document-jobs f (some d) s = refl

claim_document-AreSound :
    (now timeout : ℕ) (s : State) (j : GraphExtractionJob) (d : Option Document)
    → leb j.max_attempts j.attempt ≡ false
    → AreSound s
    → AreSound (claim_document now timeout s j d).1
claim_document-AreSound now timeout s j none more h = h
claim_document-AreSound now timeout s j (some d) more h =
    let next =
      put_graph_job-AreSound (claimed now timeout j) s
        (record {
          within = ground arith;
          leased = λ _. (_, refl);
          released = λ q. absurd (ground arith);
        })
        h in
    elim (Bool-cases (not (d.project_id == j.project_id) || not (d.dataset_id == j.dataset_id))) [
      | inl x ↦ rw x h
      | inr f ↦ elim (Bool-cases (is_persisted d.status)) [
        | inl y ↦ rw (f, y) next
        | inr g ↦ rw (f, g) h
      ]
    ]

claim-AreSound :
    (now timeout : ℕ) (s : State) (k : String) → AreSound s → AreSound (claim now timeout s k).1
unfolding claim
claim-AreSound now timeout s k h = elim (Option-cases (get_graph_job s k)) [
  | inl t ↦ rw (t, claim) h
  | inr (j, t) ↦ elim (Bool-cases (is_taken now j)) [
    | inl r ↦ rw (t, claim, r) h
    | inr f ↦ elim (Bool-cases (leb j.max_attempts j.attempt)) [
      | inl x ↦
          rw (t, claim, f, x)
            (put_graph_job-AreSound _ s (IsSound-resting _ (job_found s k t h).within refl refl) h)
      | inr x ↦
          rw (t, claim, f, x)
            (claim_document-AreSound now timeout s j (get_document s j.document_id) x h)
    ]
  ]
]

fail_job-AreSound :
    (now : ℕ) (m : String) (s : State) (k : String) → AreSound s → AreSound (fail_job now m s k).1
unfolding fail_job
fail_job-AreSound now m s k h = elim (Option-cases (get_graph_job s k)) [
  | inl t ↦ rw (t, fail_job) h
  | inr (j, t) ↦
      let w = (job_found s k t h).within in
      elim (Bool-cases (leb j.max_attempts j.attempt)) [
        | inl x ↦
            rw (t, fail_job, x, set_document-jobs)
              (put_graph_job-AreSound _ s (IsSound-resting _ w refl refl) h)
        | inr f ↦ rw (t, fail_job, f) (put_graph_job-AreSound _ s (IsSound-resting _ w refl refl) h)
      ]
]

complete_job-AreSound : (s : State) (k : String) → AreSound s → AreSound (complete_job s k)
unfolding complete_job
complete_job-AreSound s k h = elim (Option-cases (get_graph_job s k)) [
  | inl t ↦ rw (t, complete_job) h
  | inr (j, t) ↦
      let w = (job_found s k t h).within in
      rw (t, complete_job, set_document-jobs)
        (put_graph_job-AreSound _ s
          (record { within = w; leased = λ q. absurd (ground arith); released = λ _. refl }) h)
]

Step-AreSound : (s t : State) → Step s t → AreSound s → AreSound t
Step-AreSound _ _ (enqueues now k s d) h = enqueue-AreSound now k s d h
Step-AreSound _ _ (dispatches enqueue now limit s) h = dispatch-AreSound enqueue now limit s h
Step-AreSound _ _ (reconciles now timeout limit s) h = reconcile-AreSound now timeout limit s h
Step-AreSound _ _ (renews now timeout s k) h = renew-AreSound now timeout s k h
Step-AreSound _ _ (requeues now reason s k) h = requeue-AreSound now reason s k h
Step-AreSound _ _ (claims now timeout s k) h = claim-AreSound now timeout s k h
Step-AreSound _ _ (ends_failed now m s k) h = fail_job-AreSound now m s k h
Step-AreSound _ _ (ends_done s k) h = complete_job-AreSound s k h

-- Whatever sessions of the queue, the dispatcher, the reconciler and the workers follow each other,
-- each job keeps to its number of attempts, a job that runs has a lease, and a job that succeeded
-- has none, if that was so before.
pub Steps-AreSound : (s t : State) → Steps s t → AreSound s → AreSound t
Steps-AreSound _ _ (stop s) h = h
Steps-AreSound _ _ (step s u t first rest) h = Steps-AreSound u t rest (Step-AreSound s u first h)
