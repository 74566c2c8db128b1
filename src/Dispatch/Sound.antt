-- ===== src/Dispatch/Sound.antt =====
-- graph/dispatch.py: what each function of the dispatcher's side leaves of the jobs.
use open_graph_memory.Prelude.{
  ℕ, zero, suc, ◌+◌, ◌≤◌, String, ◌≡◌, refl, true, false, Option, none, some, List, [], ◌∷◌, inl,
  inr, arith, leb, All, All-append, All-where_rows, take, All-update_rows, find_row-All, Bool-cases,
  Option-cases,
}
use open_graph_memory.Jobs.{
  State, Document, failed, GraphExtractionJob, GraphExtractionOutbox, get_graph_job,
  get_graph_outbox, put_graph_job, is_graph_job,
}
use open_graph_memory.Dispatch.{
  is_running, is_succeeded, enqueue_graph_extraction, dispatch_pending_graph_jobs, pending_rows,
  publish_all, send_all, undo_publish, with_outbox, fail_document, fail_exhausted, published_now,
  max_graph_outbox_attempts,
}
use open_graph_memory.Dispatch.Leases.{
  reconcile_graph_jobs, renew_graph_job_lease, requeue_graph_job, recover_all, unpublish_all,
  expired_jobs, is_expired,
}

-- An attempt is one of those allowed, a running job has a lease and one that succeeded has none.
pub record IsSound (j : GraphExtractionJob) : Type 0 where
  pub within : j.attempt ≤ j.max_attempts
  pub leased : is_running j.status ≡ true → (t : ℕ) × (j.lease_expires_at ≡ some t)
  pub released : is_succeeded j.status ≡ true → j.lease_expires_at ≡ none

abbrev pub AreSound : State → Type 0
AreSound s = All IsSound s.graph_jobs

pub put_graph_job-AreSound :
    (j : GraphExtractionJob) (s : State) → IsSound j → AreSound s → AreSound (put_graph_job j s)
put_graph_job-AreSound j s sound h =
    All-update_rows IsSound (is_graph_job j.id) (λ _. j) (λ _ _ _. sound) s.graph_jobs h

-- A job that is neither running nor done, with no more attempts than before.
pub IsSound-resting :
    (j : GraphExtractionJob)
    → j.attempt ≤ j.max_attempts
    → is_running j.status ≡ false
    → is_succeeded j.status ≡ false
    → IsSound j
IsSound-resting j a r d = record {
  within = a;
  leased = λ q. absurd (ground arith);
  released = λ q. absurd (ground arith);
}

pub job_found :
    (s : State) (k : String) {j : GraphExtractionJob}
    → get_graph_job s k ≡ some j
    → AreSound s
    → IsSound j
job_found s k found h = find_row-All IsSound (is_graph_job k) s.graph_jobs h found

pub with_outbox-jobs :
    (now : ℕ) (k : String) (e : Option String) (f : GraphExtractionOutbox → GraphExtractionOutbox)
    (s : State)
    → (with_outbox now k e f s).graph_jobs ≡ s.graph_jobs
with_outbox-jobs now k e f s = elim (Option-cases (get_graph_outbox s k)) [
  | inl t ↦ rw (t, with_outbox) refl
  | inr (o, t) ↦ rw (t, with_outbox) refl
]

pub enqueue-AreSound :
    (now : ℕ) (k : String) (s : State) (d : Document)
    → AreSound s
    → AreSound (enqueue_graph_extraction now k s d)
unfolding enqueue_graph_extraction
enqueue-AreSound now k s d h = elim (Option-cases (get_graph_job s k)) [
  | inl t ↦
      rw t (All-append IsSound s.graph_jobs _ h (IsSound-resting _ (omega arith) refl refl, tt))
  | inr (j, t) ↦
      rw (t, with_outbox-jobs)
        (put_graph_job-AreSound _ s (IsSound-resting _ (omega arith) refl refl) h)
]

fail_document-jobs :
    (m : String) (d : Option Document) (s : State) → (fail_document m d s).graph_jobs ≡ s.graph_jobs
fail_document-jobs m none s = refl
fail_document-jobs m (some d) s = refl

publish_all-jobs :
    (now : ℕ) (os : List GraphExtractionOutbox) (s : State)
    → (publish_all now os s).graph_jobs ≡ s.graph_jobs
unfolding publish_all
publish_all-jobs now [] s = refl
publish_all-jobs now (o ∷ os) s = publish_all-jobs now os _

fail_exhausted-AreSound :
    (m k : String) (s : State) → AreSound s → AreSound (fail_exhausted m (get_graph_job s k) s)
fail_exhausted-AreSound m k s h = elim (Option-cases (get_graph_job s k)) [
  | inl t ↦ rw (t, fail_exhausted) h
  | inr (j, t) ↦
      let w = (job_found s k t h).within in
      let s' = put_graph_job (record j { status = failed; error_message = some m }) s in
      rw (t, fail_exhausted, fail_document-jobs)
        (put_graph_job-AreSound _ s (IsSound-resting _ w refl refl) h)
]

undo_publish-AreSound :
    (now : ℕ) (k m : String) (o : Option GraphExtractionOutbox) (s : State)
    → AreSound s
    → AreSound (undo_publish now k m o s)
unfolding undo_publish
undo_publish-AreSound now k m none s h = h
undo_publish-AreSound now k m (some o) s h = elim (Bool-cases (published_now now o)) [
  | inr f ↦ rw f h
  | inl p ↦ elim (Bool-cases (leb max_graph_outbox_attempts o.attempts)) [
    | inr f ↦ rw (p, f) h
    | inl x ↦ rw (p, x) (fail_exhausted-AreSound m k _ h)
  ]
]

send_all-AreSound :
    (enqueue : String → Option String) (now : ℕ) (os : List GraphExtractionOutbox) (n : ℕ)
    (s : State)
    → AreSound s
    → AreSound (send_all enqueue now os n s).1
unfolding send_all
send_all-AreSound enqueue now [] n s h = h
send_all-AreSound enqueue now (o ∷ os) n s h = elim (Option-cases (enqueue o.job_id)) [
  | inl t ↦ rw (t, send_all) (send_all-AreSound enqueue now os (n + 1) s h)
  | inr (m, t) ↦
      rw (t, send_all)
        (send_all-AreSound enqueue now os n _ (undo_publish-AreSound now o.job_id m _ s h))
]

pub dispatch-AreSound :
    (enqueue : String → Option String) (now limit : ℕ) (s : State)
    → AreSound s
    → AreSound (dispatch_pending_graph_jobs enqueue now limit s).1
unfolding dispatch_pending_graph_jobs
dispatch-AreSound enqueue now limit s h =
    send_all-AreSound enqueue now (pending_rows now limit s) 0 _
      (rw (publish_all-jobs now (pending_rows now limit s) s) h)

recover_all-AreSound :
    (now : ℕ) (js : List GraphExtractionJob) (s : State)
    → All IsSound js
    → AreSound s
    → AreSound (recover_all now js s)
unfolding recover_all
recover_all-AreSound now [] s a h = h
recover_all-AreSound now (j ∷ js) s a h =
    let w = a.0.within in
    recover_all-AreSound now js _ a.1
      (put_graph_job-AreSound _ s (IsSound-resting _ (omega arith) refl refl) h)

pub unpublish_all-jobs :
    (os : List GraphExtractionOutbox) (s : State) → (unpublish_all os s).graph_jobs ≡ s.graph_jobs
unfolding unpublish_all
unpublish_all-jobs [] s = refl
unpublish_all-jobs (o ∷ os) s = unpublish_all-jobs os _

All-take : (n : ℕ) (js : List GraphExtractionJob) → All IsSound js → All IsSound (take n js)
All-take zero js h = tt
All-take (suc n) [] h = tt
All-take (suc n) (j ∷ js) h = (h.0, All-take n js h.1)

pub reconcile-AreSound :
    (now timeout limit : ℕ) (s : State)
    → AreSound s
    → AreSound (reconcile_graph_jobs now timeout limit s).1
unfolding reconcile_graph_jobs
reconcile-AreSound now timeout limit s h = rw unpublish_all-jobs (
    recover_all-AreSound now (expired_jobs now limit s) s
      (All-take limit _ (All-where_rows IsSound (is_expired now) s.graph_jobs h)) h)

pub renew-AreSound :
    (now timeout : ℕ) (s : State) (k : String)
    → AreSound s
    → AreSound (renew_graph_job_lease now timeout s k)
unfolding renew_graph_job_lease
renew-AreSound now timeout s k h = elim (Option-cases (get_graph_job s k)) [
  | inl t ↦ rw (t, renew_graph_job_lease) h
  | inr (j, t) ↦
      let sound = job_found s k t h in
      elim (Bool-cases (is_running j.status)) [
        | inl r ↦
            rw (t, renew_graph_job_lease, r)
              (put_graph_job-AreSound _ s
                (record {
                  within = sound.within;
                  leased = λ _. (_, refl);
                  released = λ q. absurd (ground arith);
                })
                h)
        | inr f ↦ rw (t, renew_graph_job_lease, f) h
      ]
]

pub requeue-AreSound :
    (now : ℕ) (reason : String) (s : State) (k : String)
    → AreSound s
    → AreSound (requeue_graph_job now reason s k)
unfolding requeue_graph_job
requeue-AreSound now reason s k h = elim (Option-cases (get_graph_job s k)) [
  | inl t ↦ rw (t, requeue_graph_job) h
  | inr (j, t) ↦
      let w = (job_found s k t h).within in
      elim (Bool-cases (is_succeeded j.status)) [
        | inl r ↦ rw (t, requeue_graph_job, r) h
        | inr f ↦
            rw (t, requeue_graph_job, f, with_outbox-jobs)
              (put_graph_job-AreSound _ s (IsSound-resting _ (omega arith) refl refl) h)
      ]
]
