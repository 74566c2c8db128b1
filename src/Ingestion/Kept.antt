-- ===== src/Ingestion/Kept.antt =====
-- apps/api/app/ingestion.py: the chunks that a run leaves.
use open_graph_memory.Prelude.{
  ℕ, String, ◌≡◌, refl, sym, ◌∙◌, true, not, Option, none, some, List, [], ◌∷◌, ◌++◌, map, inl, inr,
  arith, ◌==◌, where_rows, Option-cases,
}
use open_graph_memory.Prelude.Results.{Result, ok, err}
use open_graph_memory.Jobs.{
  State, Document, DocumentStatus, JobStatus, IndexingJob, get_document, get_graph_job,
  get_graph_outbox,
}
use open_graph_memory.Chunking.{TextChunk}
use open_graph_memory.Dispatch.{enqueue_graph_extraction, with_outbox}
use open_graph_memory.Ingestion.{
  error_of, get_indexing_job, put_indexing_job, Outside, Work, finished, broken, persist, work,
  failed_job, fail_document_of, fail_ingestion, end_work, started_row, start_job, run_ingestion,
}
use open_graph_memory.Jobs.{ChunkRow}
use open_graph_memory.Ingestion.{error_of, chunk_row, is_of_document}
use open_graph_memory.Prelude.{==_refl, Bool-cases, ap}
use open_graph_memory.Ingestion.Stages.{Ends, work-Ends}

-- the chunks of the other documents
abbrev pub others : Document → List ChunkRow → List ChunkRow
others d rows = where_rows (λ r. not (r.document_id == d.id)) rows

-- the chunks that the deletion of the document's leaves
abbrev left_over : Document → List ChunkRow → List ChunkRow
left_over d rows = where_rows (λ r. not (is_of_document d r)) rows

others-left_over : (d : Document) (xs : List ChunkRow) → others d (left_over d xs) ≡ others d xs
others-left_over d [] = refl
others-left_over d (x ∷ xs) = elim (Bool-cases (is_of_document d x)) [
  | inl t ↦
      let same : (x.document_id == d.id) ≡ true = ground arith in
      let gone : left_over d (x ∷ xs) ≡ left_over d xs = rw t refl in
      let less : others d (x ∷ xs) ≡ others d xs = rw same refl in
      ap (others d) gone ∙ others-left_over d xs ∙ sym less
  | inr f ↦
      let kept : left_over d (x ∷ xs) ≡ x ∷ left_over d xs = rw f refl in
      ap (others d) kept ∙ elim (Bool-cases (x.document_id == d.id)) [
        | inl t ↦ rw t (others-left_over d xs)
        | inr g ↦ rw (g, others-left_over d xs) refl
      ]
]

others-own :
    (d : Document) (chunk_id : ℕ → String) (cs : List TextChunk)
    → others d (map (chunk_row chunk_id d) cs) ≡ []
others-own d chunk_id [] = refl
others-own d chunk_id (c ∷ cs) = rw (==_refl d.id) (others-own d chunk_id cs)

others-append :
    (d : Document) (xs ys : List ChunkRow) → others d ys ≡ [] → others d (xs ++ ys) ≡ others d xs
others-append d [] ys h = h
others-append d (x ∷ xs) ys h = elim (Bool-cases (x.document_id == d.id)) [
  | inl t ↦ rw t (others-append d xs ys h)
  | inr f ↦ rw (f, others-append d xs ys h) refl
]

enqueue-chunks :
    (now : ℕ) (k : String) (s : State) (d : Document)
    → (enqueue_graph_extraction now k s d).chunks ≡ s.chunks
unfolding enqueue_graph_extraction
enqueue-chunks now k s d = elim (Option-cases (get_graph_job s k)) [
  | inl t ↦ rw t refl
  | inr (j, t) ↦ elim (Option-cases (get_graph_outbox s k)) [
    | inl u ↦ rw (t, with_outbox, u) refl
    | inr (o, u) ↦ rw (t, with_outbox, u) refl
  ]
]

fail_ingestion-chunks :
    (code message : String) (j : Option IndexingJob) (s : State)
    → (fail_ingestion code message j s).chunks ≡ s.chunks
fail_ingestion-chunks code message none s = refl
fail_ingestion-chunks code message (some j) s = go (get_document s j.document_id)
  where
    go :
        (d : Option Document)
        → (fail_document_of message d (put_indexing_job (failed_job code message j) s)).chunks
          ≡ s.chunks
    go none = refl
    go (some d) = refl

module _ (o : Outside) (j : IndexingJob) (d : Document) (c : List ChunkRow) where
  abbrev Untouched : State → Type 0
  Untouched s = s.chunks ≡ c

  abbrev OthersKept : State → Type 0
  OthersKept s = others d s.chunks ≡ others d c

  persist-OthersKept :
      (chunks : List TextChunk) (s : State)
      → Untouched s
      → OthersKept (persist o j (record d { status = DocumentStatus.persisting }) chunks s)
  unfolding persist
  persist-OthersKept chunks s h =
      rw (enqueue-chunks, h)
        (others-append d (left_over d c) _ (others-own d o.chunk_id chunks) ∙ others-left_over d c)

  work-Kept : (s : State) → Untouched s → Ends Untouched OthersKept (work o j d s)
  work-Kept s h =
      work-Ends Untouched OthersKept o j d (λ stage x p. p) (λ e x p. p) persist-OthersKept s h

-- What a run does to the chunks: one that raises leaves them all, and any run leaves those of the
-- other documents.
abbrev pub KeepsChunks : Document → List ChunkRow → Result String × State → Type 0
KeepsChunks d c (ok name, s) = others d s.chunks ≡ others d c
KeepsChunks d c (err e, s) = s.chunks ≡ c

end_work-KeepsChunks :
    (o : Outside) (k : String) (d : Document) (c : List ChunkRow) (w : Work)
    → Ends (λ s. s.chunks ≡ c) (λ s. others d s.chunks ≡ others d c) w
    → KeepsChunks d c (end_work o k d w)
end_work-KeepsChunks o k d c (finished s) h = h
end_work-KeepsChunks o k d c (broken s code message) h =
    fail_ingestion-chunks code (error_of o code message) (get_indexing_job s k) s ∙ h

-- If the job and its document are there, a run that raises leaves all chunks as they were, and a
-- run that returns leaves those of all documents but the job's.
pub run_ingestion-KeepsChunks :
    (o : Outside) (s : State) (k : String) {j : IndexingJob} {d : Document}
    → get_indexing_job s k ≡ some j
    → get_document s j.document_id ≡ some d
    → KeepsChunks d s.chunks (run_ingestion o s k)
unfolding run_ingestion
run_ingestion-KeepsChunks o s k {j} {d} found documented =
    let start = started_row j in
    let worked : KeepsChunks d s.chunks (start_job o k s j (some d)) =
      end_work-KeepsChunks o k d s.chunks (work o start d (put_indexing_job start s))
        (work-Kept o start d s.chunks (put_indexing_job start s) refl) in
    go j.status refl worked
  where
    go :
        (status : JobStatus)
        → j.status ≡ status
        → KeepsChunks d s.chunks (start_job o k s j (some d))
        → KeepsChunks d s.chunks (run_ingestion o s k)
    go JobStatus.running q w = rw (run_ingestion, found, q) refl
    go JobStatus.succeeded q w = rw (run_ingestion, found, q) refl
    go JobStatus.queued q w = rw (run_ingestion, found, q, documented) w
    go JobStatus.failed q w = rw (run_ingestion, found, q, documented) w
