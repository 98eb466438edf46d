-- ===== src/Swarm/Hub/Control/Cancel.antt =====
-- CancelMiner and the open jobs of a miner (swarm/hub.go).
use money_miner.Base.{
  ℕ, ◌⊎◌, ◌≡◌, refl, Bool, true, false, none, some, List, [], ◌∷◌, arith, ◌==◌, ◌&&◌, ◌||◌,
  if◌then◌else◌, select, update, All, Bool-cases, inl, inr, ==_refl, subst, sym, suc,
}
use money_miner.Store.Types.{StopReason, SwarmJob, JobStatus}
use money_miner.Store.Runs.{current_run, close_run}
use money_miner.Store.Lifecycle.{close_run_closes}
use money_miner.Store.Workers.{active_jobs_for_miner, set_swarm_job_status, is_open_job}
use money_miner.Swarm.Hub.State.{Hub}
use money_miner.Swarm.Hub.Control.{cancel_job, cancel_jobs, cancel_miner}

abbrev is_active : ℕ → SwarmJob → Bool
is_active miner j = j.miner == miner && is_open_job j

abbrev has_id : ℕ → List SwarmJob → Bool
has_id id [] = false
has_id id (j ∷ js) = j.id == id || has_id id js

-- Every open job of the miner is one of the listed ones.
abbrev AreListed : ℕ → List SwarmJob → List SwarmJob → Type 0
AreListed miner js rows = All (λ r. is_active miner r ≡ true → has_id r.id js ≡ true) rows

ended : ℕ → ℕ → List SwarmJob → List SwarmJob
ended id now rows =
    update (λ j. j.id == id && is_open_job j)
      (λ j. record j { status = JobStatus.ended; ended_at = some now }) rows

still_listed :
    (miner now : ℕ) (j : SwarmJob) (js : List SwarmJob) (r : SwarmJob)
    → (is_active miner r ≡ true → has_id r.id (j ∷ js) ≡ true)
    → let r' =
        if r.id == j.id && is_open_job r
        then record r { status = JobStatus.ended; ended_at = some now }
        else r in
      is_active miner r' ≡ true → has_id r'.id js ≡ true
still_listed miner now j js r h active = elim (Bool-cases (r.id == j.id && is_open_job r)) [
  | inl hit ↦ absurd (ground arith)
  | inr miss ↦ ground (arith, h (ground arith))
]

ended-AreListed :
    (miner now : ℕ) (j : SwarmJob) (js rows : List SwarmJob)
    → AreListed miner (j ∷ js) rows
    → AreListed miner js (ended j.id now rows)
unfolding ended
ended-AreListed miner now j js [] a = tt
ended-AreListed miner now j js (r ∷ rs) (h, a) =
    (λ active. still_listed miner now j js r h active, ended-AreListed miner now j js rs a)

cancel_job-jobs :
    (miner : ℕ) (reason : StopReason) (j : SwarmJob) (h : Hub)
    → (cancel_job miner reason j h).db.jobs ≡ ended j.id h.db.clock h.db.jobs
unfolding cancel_job ended set_swarm_job_status close_run
cancel_job-jobs miner reason j h = ground arith

none_left :
    (miner : ℕ) (rows : List SwarmJob)
    → AreListed miner [] rows
    → select (is_active miner) rows ≡ []
none_left miner [] a = refl
none_left miner (r ∷ rs) (h, a) = elim (Bool-cases (is_active miner r)) [
  | inl active ↦ absurd (cc (h active))
  | inr inactive ↦ rw inactive (none_left miner rs a)
]

one_more :
    (miner : ℕ) (k : SwarmJob) (js rows : List SwarmJob)
    → AreListed miner js rows
    → AreListed miner (k ∷ js) rows
one_more miner k js [] a = tt
one_more miner k js (r ∷ rs) (h, a) = (λ active. ground (arith, h active), one_more miner k js rs a)

listed_at_first :
    (miner : ℕ) (rows : List SwarmJob) → AreListed miner (select (is_active miner) rows) rows
listed_at_first miner [] = tt
listed_at_first miner (r ∷ rs) =
    let rest = select (is_active miner) rs in
    let ih = listed_at_first miner rs in
    elim (Bool-cases (is_active miner r)) [
      | inl active ↦
          let same : select (is_active miner) (r ∷ rs) ≡ r ∷ rest = rw active in
          subst (λ js. AreListed miner js (r ∷ rs)) (sym same)
            (λ _. ground (arith, ==_refl r.id), one_more miner r rest rs ih)
      | inr inactive ↦
          let same : select (is_active miner) (r ∷ rs) ≡ rest = rw inactive in
          subst (λ js. AreListed miner js (r ∷ rs)) (sym same) (λ active. cc, ih)
    ]

cancel_jobs-AreListed :
    (miner : ℕ) (reason : StopReason) (js : List SwarmJob) (h : Hub)
    → AreListed miner js h.db.jobs
    → AreListed miner [] (cancel_jobs miner reason js h).db.jobs
unfolding cancel_jobs
cancel_jobs-AreListed miner reason [] h a = a
cancel_jobs-AreListed miner reason (j ∷ js) h a =
    cancel_jobs-AreListed miner reason js (cancel_job miner reason j h)
      (rw (cancel_job-jobs miner reason j h) (ended-AreListed miner h.db.clock j js h.db.jobs a))

cancel_job-closed :
    (miner : ℕ) (reason : StopReason) (j : SwarmJob) (h : Hub)
    → current_run miner (cancel_job miner reason j h).db ≡ none
unfolding cancel_job
cancel_job-closed miner reason j h =
    (close_run_closes miner (suc miner) reason _ _ _ _ (omega arith)).0

cancel_jobs-closed :
    (miner : ℕ) (reason : StopReason) (j : SwarmJob) (js : List SwarmJob) (h : Hub)
    → current_run miner (cancel_jobs miner reason (j ∷ js) h).db ≡ none
unfolding cancel_jobs
cancel_jobs-closed miner reason j [] h = cancel_job-closed miner reason j h
cancel_jobs-closed miner reason j (k ∷ js) h =
    cancel_jobs-closed miner reason k js (cancel_job miner reason j h)

open_or_closed :
    (miner : ℕ) (reason : StopReason) (js : List SwarmJob) (h : Hub)
    → (js ≡ []) ⊎ (current_run miner (cancel_jobs miner reason js h).db ≡ none)
open_or_closed miner reason [] h = inl refl
open_or_closed miner reason (j ∷ js) h = inr (cancel_jobs-closed miner reason j js h)

-- After CancelMiner the miner has no open job; and it has no open run either, unless it had no open
-- job before.
pub cancel_miner_ends :
    (miner : ℕ) (reason : StopReason) (h : Hub)
    → (active_jobs_for_miner miner (cancel_miner miner reason h).db ≡ [])
      × ((active_jobs_for_miner miner h.db ≡ [])
          ⊎ (current_run miner (cancel_miner miner reason h).db ≡ none))
unfolding active_jobs_for_miner cancel_miner
cancel_miner_ends miner reason h = (
  none_left miner (cancel_jobs miner reason (select (is_active miner) h.db.jobs) h).db.jobs (
      cancel_jobs-AreListed miner reason (select (is_active miner) h.db.jobs) h
        (listed_at_first miner h.db.jobs)),
  open_or_closed miner reason (select (is_active miner) h.db.jobs) h,
)
