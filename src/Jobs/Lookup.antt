-- ===== src/Jobs/Lookup.antt =====
-- The rows of graph jobs: reading one after it was written.
use open_graph_memory.Prelude.{
  String, ◌≡◌, subst, sym, ◌∙◌, some, arith, eq_iff, find_row, update_rows, find_row-true,
  find_row-update_rows,
}
use open_graph_memory.Jobs.{State, GraphExtractionJob, get_graph_job, put_graph_job, is_graph_job}

pub get_graph_job-put :
    (s : State) (k : String) (j j' : GraphExtractionJob)
    → j'.id ≡ j.id
    → get_graph_job s k ≡ some j
    → get_graph_job (put_graph_job j' s) k ≡ some j'
get_graph_job-put s k j j' same found =
    let own = find_row-true (is_graph_job k) s.graph_jobs found in
    let is_k : j'.id ≡ k = same ∙ ground (arith, eq_iff j.id k) in
    subst
      (λ i.
        find_row (is_graph_job k) (update_rows (is_graph_job i) (λ _. j') s.graph_jobs) ≡ some j')
      (sym is_k)
      (find_row-update_rows (is_graph_job k) j' s.graph_jobs (ground (arith, eq_iff j'.id k)) found)
