-- ===== src/Dispatch/Reconciled.antt =====
-- graph/dispatch.py `reconcile_graph_jobs`: the jobs whose lease has expired.
use open_graph_memory.Prelude.{
  ℕ, zero, suc, ◌≤◌, ◌≡◌, refl, sym, subst, true, false, List, [], ◌∷◌, inl, inr, arith, ◌==◌,
  eq_iff, ==_refl, length, take, where_rows, any_row, update_rows, length-where_rows-le, All,
  All-map, Bool-cases,
}
use open_graph_memory.Jobs.{State, GraphExtractionJob, is_graph_job}
use open_graph_memory.Dispatch.Leases.{
  is_expired, recovered, recover_all, expired_jobs, reconcile_graph_jobs,
}
use open_graph_memory.Dispatch.Sound.{unpublish_all-jobs}

-- An expired job is one of those listed.
abbrev Covered : ℕ → List GraphExtractionJob → GraphExtractionJob → Type 0
Covered now js x = is_expired now x ≡ true → any_row (is_graph_job x.id) js ≡ true

abbrev pub NotExpired : ℕ → GraphExtractionJob → Type 0
NotExpired now x = is_expired now x ≡ false

put-Covered :
    (now : ℕ) (j : GraphExtractionJob) (js xs : List GraphExtractionJob)
    → All (Covered now (j ∷ js)) xs
    → All (Covered now js) (update_rows (is_graph_job j.id) (λ _. recovered now j) xs)
put-Covered now j js [] h = tt
put-Covered now j js (x ∷ xs) h = (
  elim (Bool-cases (x.id == j.id)) [
    | inl t ↦ rw t (λ q. absurd (ground arith))
    | inr f ↦ rw f (λ q. let c = h.0 q in ground (arith, eq_iff x.id j.id, eq_iff j.id x.id))
  ],
  put-Covered now j js xs h.1,
)

recover_all-NotExpired :
    (now : ℕ) (js : List GraphExtractionJob) (s : State)
    → All (Covered now js) s.graph_jobs
    → All (NotExpired now) (recover_all now js s).graph_jobs
unfolding recover_all
recover_all-NotExpired now [] s h =
    All-map
      (λ x c. elim (Bool-cases (is_expired now x)) [
        | inl t ↦ absurd (ground (arith, c t))
        | inr f ↦ f
      ])
      s.graph_jobs h
recover_all-NotExpired now (j ∷ js) s h =
    recover_all-NotExpired now js _ (put-Covered now j js s.graph_jobs h)

-- one more row in the list
Covered-more :
    (now : ℕ) (j : GraphExtractionJob) (js xs : List GraphExtractionJob)
    → All (Covered now js) xs
    → All (Covered now (j ∷ js)) xs
Covered-more now j js xs h = All-map (λ x c q. let r = c q in ground arith) xs h

where_rows-Covered :
    (now : ℕ) (xs : List GraphExtractionJob) → All (Covered now (where_rows (is_expired now) xs)) xs
where_rows-Covered now [] = tt
where_rows-Covered now (x ∷ xs) = elim (Bool-cases (is_expired now x)) [
  | inl t ↦
      let kept : where_rows (is_expired now) (x ∷ xs) ≡ x ∷ where_rows (is_expired now) xs =
        rw t refl in
      subst (λ ls. All (Covered now ls) (x ∷ xs)) (sym kept)
        (
          λ q. ground (arith, ==_refl x.id),
          Covered-more now x (where_rows (is_expired now) xs) xs (where_rows-Covered now xs),
        )
  | inr f ↦
      let dropped : where_rows (is_expired now) (x ∷ xs) ≡ where_rows (is_expired now) xs =
        rw f refl in
      subst (λ ls. All (Covered now ls) (x ∷ xs)) (sym dropped)
        (λ q. absurd (ground arith), where_rows-Covered now xs)
]

take-all : (n : ℕ) (xs : List GraphExtractionJob) → length xs ≤ n → take n xs ≡ xs
take-all zero [] h = refl
take-all zero (x ∷ xs) h = absurd (omega arith)
take-all (suc n) [] h = refl
take-all (suc n) (x ∷ xs) h = rw (take-all n xs (omega arith)) refl

-- Where the limit reaches all jobs, no job that runs has an expired lease after the
-- reconciliation, and the count is at least that of the jobs that had one.
pub reconcile_graph_jobs-NotExpired :
    (now timeout limit : ℕ) (s : State)
    → length s.graph_jobs ≤ limit
    → All (NotExpired now) (reconcile_graph_jobs now timeout limit s).1.graph_jobs
      × (length (where_rows (is_expired now) s.graph_jobs)
          ≤ (reconcile_graph_jobs now timeout limit s).0)
unfolding reconcile_graph_jobs
reconcile_graph_jobs-NotExpired now timeout limit s reach =
    let all : expired_jobs now limit s ≡ where_rows (is_expired now) s.graph_jobs =
      take-all limit (where_rows (is_expired now) s.graph_jobs)
        (omega (arith, length-where_rows-le (is_expired now) s.graph_jobs)) in
    (
      rw (unpublish_all-jobs, all)
          (recover_all-NotExpired now (where_rows (is_expired now) s.graph_jobs) s
            (where_rows-Covered now s.graph_jobs)),
      rw all (omega arith),
    )
