-- ===== src/Shell/Jobs.antt =====
-- The job table of Assignment1P1: `insert_job` of functions.c and the start of shell.c.
use network_programming_assi.Base.{
  ℕ, suc, ◌+◌, ◌≡◌, refl, ap, ◌∙◌, Option, none, some, List, [], ◌∷◌, ◌++◌, map, Outcome, ok, fault,
  ◌>>=◌, length, drop, set, replicate, arith,
}

-- The fields of `struct job` that are written.
pub record Job : Type 0 where
  pub id : ℕ
  pub pid : ℕ

-- An element of `shell->jobs`: `none` was never written, `some none` is NULL.
abbrev pub Slot : Type 0
Slot = Option (Option Job)

abbrev pub nr_jobs : ℕ
nr_jobs = 20

-- The NR_JOBS + 1 elements after the loop of `main` that sets the first NR_JOBS to NULL.
unfoldable pub start_jobs : List Slot
start_jobs = replicate nr_jobs (some none) ++ none ∷ []

-- The loop of `get_next_job_id` over the elements from the number `i` on.
unfoldable pub next_id : List Slot → ℕ → Outcome (Option ℕ)
next_id [] i = ok none
next_id (none ∷ slots) i = fault
next_id (some none ∷ slots) i = ok (some i)
next_id (some (some j) ∷ slots) i = next_id slots (i + 1)

unfoldable pub get_next_job_id : List Slot → Outcome (Option ℕ)
get_next_job_id jobs = next_id (drop 1 jobs) 1

abbrev put : ℕ → List Slot → Option ℕ → Option ℕ × List Slot
put pid jobs none = (none, jobs)
put pid jobs (some i) = (some i, set jobs i (some (some (record { id = i; pid = pid }))))

-- insert_job(j) with j->pid == pid: the number of the job, or none for -1, and the table.
unfoldable pub insert_job : ℕ → List Slot → Outcome (Option ℕ × List Slot)
insert_job pid jobs = do id ← get_next_job_id jobs; ok (put pid jobs id)

abbrev pub used : Job → Slot
used j = some (some j)

next_id-used :
    (js : List Job) (slots : List Slot) (i : ℕ)
    → next_id (map used js ++ slots) i ≡ next_id slots (i + length js)
unfolding next_id
next_id-used [] slots i = ap (next_id slots) (omega arith)
next_id-used (j ∷ js) slots i = next_id-used js slots (i + 1) ∙ ap (next_id slots) (omega arith)

set-used :
    (js : List Job) (slot : Slot) (slots : List Slot) (v : Slot)
    → set (map used js ++ slot ∷ slots) (length js) v ≡ map used js ++ v ∷ slots
set-used [] slot slots v = refl
set-used (j ∷ js) slot slots v = ap (used j ∷◌) (set-used js slot slots v)

-- When the first jobs of the table are in use and the next element is NULL, `insert_job` puts the
-- new job there, with that element's number, and changes no other element.
pub insert_job-free :
    (pid : ℕ) (zeroth : Slot) (js : List Job) (slots : List Slot)
    → insert_job pid (zeroth ∷ (map used js ++ some none ∷ slots))
      ≡ ok (
        some (suc (length js)),
        zeroth ∷ (map used js ++ used (record { id = suc (length js); pid = pid }) ∷ slots),
      )
unfolding insert_job get_next_job_id
insert_job-free pid zeroth js slots =
    let at : next_id (map used js ++ some none ∷ slots) 1 ≡ ok (some (suc (length js))) =
      next_id-used js (some none ∷ slots) 1
      ∙ (unfold next_id in ap (λ i. ok (some i)) (omega arith)) in
    rw at (ap (λ l. ok (some (suc (length js)), zeroth ∷ l)) (set-used js (some none) slots _))

-- When all jobs of a table without indeterminate elements are in use, `insert_job` gives -1 and
-- leaves the table as it is.
pub insert_job-full :
    (pid : ℕ) (zeroth : Slot) (js : List Job)
    → insert_job pid (zeroth ∷ (map used js ++ [])) ≡ ok (none, zeroth ∷ (map used js ++ []))
unfolding insert_job get_next_job_id
insert_job-full pid zeroth js =
    let at : next_id (map used js ++ []) 1 ≡ ok none =
      next_id-used js [] 1 ∙ (unfold next_id in refl) in
    rw at refl

-- In the table that `main` sets up, once the elements 1 to 19 are in use, whatever their jobs are,
-- one more `insert_job` reads the last element, which was never written.
pub insert_job-unset :
    (pid : ℕ) (js : List Job)
    → length js ≡ 19
    → insert_job pid (some none ∷ (map used js ++ drop 20 start_jobs)) ≡ fault
unfolding insert_job get_next_job_id start_jobs
insert_job-unset pid js e =
    let at : next_id (map used js ++ none ∷ []) 1 ≡ fault =
      next_id-used js (none ∷ []) 1 ∙ (unfold next_id in refl) in
    rw at refl
