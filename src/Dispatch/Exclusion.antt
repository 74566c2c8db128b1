-- ===== src/Dispatch/Exclusion.antt =====
-- graph/dispatch.py: two claims of one job.
use open_graph_memory.Prelude.{
  ℕ, ◌+◌, ◌<◌, String, ◌≡◌, refl, ◌∙◌, true, Option, none, some, inl, inr, arith, Option-cases,
}
use open_graph_memory.Prelude.Results.{ok}
use open_graph_memory.Jobs.{
  State, Document, GraphExtractionJob, get_graph_job, get_document, put_graph_job,
}
use open_graph_memory.Jobs.Lookup.{get_graph_job-put}
use open_graph_memory.Dispatch.{lease_seconds}
use open_graph_memory.Dispatch.Execute.{
  answered, started, claim, claim_job, claim_document, claimed, is_taken,
}

-- A claim that started leaves the job running, under the lease that it wrote.
record IsClaimed (now timeout : ℕ) (s s' : State) (k document_id : String) : Type 0 where
  pub job : GraphExtractionJob
  pub found : get_graph_job s k ≡ some job
  pub started_on : document_id ≡ job.document_id
  pub stored : s'.graph_jobs ≡ (put_graph_job (claimed now timeout job) s).graph_jobs

claim_document-IsClaimed :
    (now timeout : ℕ) (s : State) (j : GraphExtractionJob) (d : Option Document) {c : String}
    {s' : State}
    → claim_document now timeout s j d ≡ (started c, s')
    → (c ≡ j.document_id) × (s'.graph_jobs ≡ (put_graph_job (claimed now timeout j) s).graph_jobs)
claim_document-IsClaimed now timeout s j none q = absurd (cc)
claim_document-IsClaimed now timeout s j (some d) q = ground arith

claim-IsClaimed :
    (now timeout : ℕ) (s : State) (k : String) {c : String} {s' : State}
    → claim now timeout s k ≡ (started c, s')
    → IsClaimed now timeout s s' k c
unfolding claim
claim-IsClaimed now timeout s k {c} {s'} q = elim (Option-cases (get_graph_job s k)) [
  | inl t ↦ absurd (ground arith)
  | inr (j, t) ↦
      let r : claim_document now timeout s j (get_document s j.document_id) ≡ (started c, s') =
        ground arith in
      let (a, b) = claim_document-IsClaimed now timeout s j (get_document s j.document_id) r in
      record { job = j; found = t; started_on = a; stored = b }
]

claim-found :
    (now timeout : ℕ) (s : State) (k : String) (j : GraphExtractionJob)
    → get_graph_job s k ≡ some j
    → claim now timeout s k ≡ claim_job now timeout s j
unfolding claim
claim-found now timeout s k j found = rw (found, claim) refl

-- From the moment at which a worker's claim of a job starts it until its lease ends, and as long as
-- the job's row is as the claim left it, whatever else has changed, another claim of that job is
-- answered with the job's document and changes nothing.
pub claim-claim :
    (now timeout now' timeout' : ℕ) (s later : State) (k : String) {c : String} {s' : State}
    → claim now timeout s k ≡ (started c, s')
    → get_graph_job later k ≡ get_graph_job s' k
    → now' < now + lease_seconds timeout
    → claim now' timeout' later k ≡ (answered (ok c), later)
claim-claim now timeout now' timeout' s later k {c} {s'} q kept live =
    let m = claim-IsClaimed now timeout s k q in
    let found : get_graph_job s' k ≡ some (claimed now timeout m.job) =
      rw m.stored (get_graph_job-put s k m.job (claimed now timeout m.job) refl m.found) in
    let taken : is_taken now' (claimed now timeout m.job) ≡ true = ground arith in
    claim-found now' timeout' later k (claimed now timeout m.job) (kept ∙ found)
    ∙ rw (taken, m.started_on) refl
