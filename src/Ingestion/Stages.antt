-- ===== src/Ingestion/Stages.antt =====
-- apps/api/app/ingestion.py: what holds at each commit of a run, by what its stages keep.
use open_graph_memory.Prelude.{List}
use open_graph_memory.Jobs.{
  State, Document, DocumentStatus, IndexingStage, IndexingJob, put_document,
}
use open_graph_memory.Chunking.{TextChunk}
use open_graph_memory.Ingestion.{
  Call, answer, failure, enter_stage, Outside, Work, finished, broken, attempting, chunk_call,
  embedding_call, persist, work,
}

module _ (Inv Fin : State → Type 0) where
  -- What holds of a run's last state, and of the last commit before an exception.
  abbrev pub Ends : Work → Type 0
  Ends (finished s) = Fin s
  Ends (broken s code message) = Inv s

  attempting-Ends :
      {A : Type 0} (s : State) (c : Call A) (next : A → Work)
      → Inv s
      → ((a : A) → Ends (next a))
      → Ends (attempting s c next)
  attempting-Ends s (answer a) next h n = n a
  attempting-Ends s (failure code message) next h n = h

  module _ (o : Outside) (j : IndexingJob) (d : Document)
      (entering : (stage : IndexingStage) (s : State)
        → Inv s
        → Inv (enter_stage o.event_id stage j s))
      (writing : (e : Document) (s : State) → Inv s → Inv (put_document e s))
      (persisting : (chunks : List TextChunk) (s : State)
        → Inv s
        → Fin (persist o j (record d { status = DocumentStatus.persisting }) chunks s)) where
    -- A property of states that the commits of the stages keep, and that the last commit turns into
    -- another one.
    pub work-Ends : (s : State) → Inv s → Ends (work o j d s)
    unfolding work
    work-Ends s h =
        let s1 = enter_stage o.event_id IndexingStage.reading j s in
        let h1 = entering IndexingStage.reading s h in
        let d2 = record d { status = DocumentStatus.parsing } in
        let s2 = enter_stage o.event_id IndexingStage.parsing j (put_document d2 s1) in
        let h2 = entering IndexingStage.parsing (put_document d2 s1) (writing d2 s1 h1) in
        let d3 = record d { status = DocumentStatus.chunking } in
        let s3 = enter_stage o.event_id IndexingStage.chunking j (put_document d3 s2) in
        let h3 = entering IndexingStage.chunking (put_document d3 s2) (writing d3 s2 h2) in
        let d4 = record d { status = DocumentStatus.persisting } in
        let s4 = enter_stage o.event_id IndexingStage.persisting j (put_document d4 s3) in
        let h4 = entering IndexingStage.persisting (put_document d4 s3) (writing d4 s3 h3) in
        attempting-Ends s1 (o.download d) _ h1 (λ content.
          attempting-Ends s2 (o.parse _ content) _ h2 (λ parsed.
            attempting-Ends s3 (chunk_call _) _ h3 (λ chunks.
              attempting-Ends s4 (o.cleanup_document_graph d4) _ h4 (λ u.
                attempting-Ends s4 (embedding_call o.embed_texts chunks) _ h4
                  (λ v. persisting chunks s4 h4)))))
