-- ===== src/Dispatch/Exhausted.antt =====
-- graph/dispatch.py: the attempts of an outbox row when its job is enqueued again.
use open_graph_memory.Prelude.{
  ℕ, zero, suc, ◌≤◌, String, ◌≡◌, refl, Bool, true, false, none, some, List, [], ◌∷◌, inl, inr,
  arith, ◌==◌, leb, take, where_rows, All, All-update_rows, Bool-cases, if◌then◌else◌,
}
use open_graph_memory.Jobs.{
  State, Document, GraphExtractionJob, GraphExtractionOutbox, get_graph_job, get_graph_outbox,
  put_graph_job, is_graph_outbox,
}
use open_graph_memory.Jobs.Lookup.{get_graph_job-put}
use open_graph_memory.Dispatch.Sound.{with_outbox-jobs}
use open_graph_memory.Dispatch.{
  enqueue_graph_extraction, is_pending, insert_outbox, oldest_first, pending_rows, with_outbox,
  reset_job, max_graph_outbox_attempts,
}

-- Every outbox row of the job is at the limit of attempts.
abbrev pub AtLimit : String → GraphExtractionOutbox → Type 0
AtLimit k o = (o.job_id == k) ≡ true → max_graph_outbox_attempts ≤ o.attempts

abbrev pub OfOther : String → GraphExtractionOutbox → Type 0
OfOther k o = (o.job_id == k) ≡ false

selected-OfOther :
    (now : ℕ) (s : State) (k : String) (os : List GraphExtractionOutbox)
    → All (AtLimit k) os
    → All (OfOther k) (where_rows (is_pending now s) os)
selected-OfOther now s k [] h = tt
selected-OfOther now s k (o ∷ os) h = go (is_pending now s o) refl (selected-OfOther now s k os h.1)
  where
    go :
        (b : Bool)
        → is_pending now s o ≡ b
        → All (OfOther k) (where_rows (is_pending now s) os)
        → All
            (OfOther k)
            (if b then o ∷ where_rows (is_pending now s) os else where_rows (is_pending now s) os)
    go true e rest = (
      elim (Bool-cases (o.job_id == k)) [
        | inl t ↦ let full = h.0 t in absurd (ground arith)
        | inr f ↦ f
      ],
      rest,
    )
    go false e rest = rest

insert-OfOther :
    (k : String) (o : GraphExtractionOutbox) (os : List GraphExtractionOutbox)
    → OfOther k o
    → All (OfOther k) os
    → All (OfOther k) (insert_outbox o os)
unfolding insert_outbox
insert-OfOther k o [] p h = (p, tt)
insert-OfOther k o (x ∷ os) p h = elim (Bool-cases (leb o.created_at x.created_at)) [
  | inl t ↦ rw (t, insert_outbox) (p, h)
  | inr f ↦ rw (f, insert_outbox) (h.0, insert-OfOther k o os p h.1)
]

sorted-OfOther :
    (k : String) (os : List GraphExtractionOutbox)
    → All (OfOther k) os
    → All (OfOther k) (oldest_first os)
unfolding oldest_first
sorted-OfOther k [] h = tt
sorted-OfOther k (o ∷ os) h = insert-OfOther k o (oldest_first os) h.0 (sorted-OfOther k os h.1)

take-OfOther :
    (k : String) (n : ℕ) (os : List GraphExtractionOutbox)
    → All (OfOther k) os
    → All (OfOther k) (take n os)
take-OfOther k zero os h = tt
take-OfOther k (suc n) [] h = tt
take-OfOther k (suc n) (o ∷ os) h = (h.0, take-OfOther k n os h.1)

pending_rows-OfOther :
    (later limit : ℕ) (s : State) (k : String)
    → All (AtLimit k) s.graph_outbox
    → All (OfOther k) (pending_rows later limit s)
unfolding pending_rows
pending_rows-OfOther later limit s k h =
    take-OfOther k limit _ (sorted-OfOther k _ (selected-OfOther later s k s.graph_outbox h))

module _ (now : ℕ) (k : String) (s : State) (d : Document) {j : GraphExtractionJob}
    {o : GraphExtractionOutbox} (found : get_graph_job s k ≡ some j)
    (row : get_graph_outbox s k ≡ some o) where
  enqueued-AtLimit :
      All (AtLimit k) s.graph_outbox
      → All (AtLimit k) (enqueue_graph_extraction now k s d).graph_outbox
  unfolding enqueue_graph_extraction
  enqueued-AtLimit h =
      rw (found, with_outbox, row)
        (All-update_rows (AtLimit k) (is_graph_outbox k)
          (λ x. record x { published_at = none; last_error = none }) (λ _ l _. l) s.graph_outbox h)

  enqueued-jobs :
      (enqueue_graph_extraction now k s d).graph_jobs
      ≡ (put_graph_job (reset_job now j) s).graph_jobs
  unfolding enqueue_graph_extraction
  enqueued-jobs = rw (found, with_outbox-jobs) refl

  -- A job whose outbox row has used its attempts is queued by a new enqueueing, but the dispatcher
  -- selects no row of it, at any later time and under any limit.
  pub enqueue_graph_extraction_exhausted :
      (later limit : ℕ)
      → All (AtLimit k) s.graph_outbox
      → (get_graph_job (enqueue_graph_extraction now k s d) k ≡ some (reset_job now j))
        × All (OfOther k) (pending_rows later limit (enqueue_graph_extraction now k s d))
  enqueue_graph_extraction_exhausted later limit h = (
    rw enqueued-jobs (get_graph_job-put s k j (reset_job now j) refl found),
    pending_rows-OfOther later limit _ k (enqueued-AtLimit h),
  )
