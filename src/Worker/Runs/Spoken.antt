-- ===== src/Worker/Runs/Spoken.antt =====
-- What jobs a worker speaks of in a session (cmd/worker/main.go).
use money_miner.Base.{
  ℕ, ◌≡◌, refl, Bool, true, false, ◌||◌, List, [], ◌∷◌, ◌++◌, ◌==◌, arith, All, All-append,
  Bool-cases, Option-cases, inl, inr,
}
use money_miner.Base.Map.{insert-All, erase-All, modify-All}
use money_miner.Store.Types.{is_simulated}
use money_miner.Engine.{Engine, Files, prepare, start}
use money_miner.Engine.Stats.{EngineStats}
use money_miner.Worker.{
  FileConfig, Session, AssignPayload, Outbound, hello, pong, ack, metrics, ping, job_assign,
  job_cancel, allocation_update, worker_revoke, new_engine, launch, handle_assign,
  handle_allocation, handle_inbound,
}
use money_miner.Worker.Runs.{Machine, Happening, arrives, ticks, reports, happen}

-- The job that a happening assigns.
abbrev assigns : ℕ → Happening → Bool
assigns job (arrives (job_assign p)) = p.job == job
assigns job (arrives ping) = false
assigns job (arrives (job_cancel k)) = false
assigns job (arrives (allocation_update k cpu gpu)) = false
assigns job (arrives worker_revoke) = false
assigns job (ticks stats) = false

abbrev pub is_assigned : List Happening → ℕ → Bool
is_assigned [] job = false
is_assigned (h ∷ hs) job = assigns job h || is_assigned hs job

-- A message about no job but those of `jobs`.
abbrev pub IsAbout : (jobs : ℕ → Bool) → Outbound → Type 0
IsAbout jobs (hello engines max_threads gpu_model vram_mb) = Unit
IsAbout jobs pong = Unit
IsAbout jobs (ack job fine) = jobs job ≡ true
IsAbout jobs (metrics job stats engine_kind) = jobs job ≡ true

abbrev IsOf : (jobs : ℕ → Bool) → ℕ × Engine → Type 0
IsOf jobs (job, e) = jobs job ≡ true

abbrev pub Keeps : (jobs : ℕ → Bool) → Session → Type 0
Keeps jobs s = All (IsOf jobs) s.jobs × All (IsAbout jobs) s.sent

-- What a happening assigns is one of `jobs`.
abbrev IsCovered : (jobs : ℕ → Bool) → Happening → Type 0
IsCovered jobs h = (job : ℕ) → assigns job h ≡ true → jobs job ≡ true

All-weaken :
    (jobs more : ℕ → Bool) (hs : List Happening)
    → ((job : ℕ) → jobs job ≡ true → more job ≡ true)
    → All (IsCovered jobs) hs
    → All (IsCovered more) hs
All-weaken jobs more [] up a = tt
All-weaken jobs more (h ∷ hs) up (c, a) = (λ job e. up job (c job e), All-weaken jobs more hs up a)

-- The happenings of a session assign what they assign.
pub is_assigned-IsCovered : (hs : List Happening) → All (IsCovered (is_assigned hs)) hs
is_assigned-IsCovered [] = tt
is_assigned-IsCovered (h ∷ hs) = (
  λ job e. rw e refl,
  All-weaken (is_assigned hs) (is_assigned (h ∷ hs)) hs (λ job e. later job e)
      (is_assigned-IsCovered hs),
)
  where
    later : (job : ℕ) → is_assigned hs job ≡ true → is_assigned (h ∷ hs) job ≡ true
    later job e = ground arith

reports-IsAbout :
    (jobs : ℕ → Bool) (stats : Engine → EngineStats) (es : List (ℕ × Engine))
    → All (IsOf jobs) es
    → All (IsAbout jobs) (reports stats es)
unfolding reports
reports-IsAbout jobs stats [] a = tt
reports-IsAbout jobs stats ((job, e) ∷ es) (h, a) = (h, reports-IsAbout jobs stats es a)

module _ (cfg : FileConfig) (files : Files) (spawns : Engine → Bool) (mc : Machine) where
  said :
      (jobs : ℕ → Bool) (job : ℕ) (fine : Bool) (sent : List Outbound)
      → jobs job ≡ true
      → All (IsAbout jobs) sent
      → All (IsAbout jobs) (sent ++ ack job fine ∷ [])
  said jobs job fine sent known a = All-append (IsAbout jobs) sent (ack job fine ∷ []) a (known, tt)

  launch-Keeps :
      (jobs : ℕ → Bool) (job : ℕ) (e : Engine) (s : Session)
      → jobs job ≡ true
      → Keeps jobs s
      → Keeps jobs (launch cfg files spawns job e s)
  unfolding launch
  launch-Keeps jobs job e s known (a, b) =
      elim (Option-cases (prepare files cfg.adapters_dir e.cfg e)) [
        | inl refused ↦ rw (refused, launch) (a, said jobs job false s.sent known b)
        | inr (ready, prepared) ↦ elim (Option-cases (start (spawns ready) ready)) [
          | inl failed ↦ rw (prepared, failed, launch) (a, said jobs job false s.sent known b)
          | inr (running, started) ↦
              rw (prepared, started, launch)
                (
                  insert-All (IsOf jobs) job running s.jobs known a,
                  said jobs job true s.sent known b,
                )
        ]
      ]

  handle_assign-Keeps :
      (jobs : ℕ → Bool) (p : AssignPayload) (s : Session)
      → jobs p.job ≡ true
      → Keeps jobs s
      → Keeps jobs (handle_assign cfg files spawns p s)
  unfolding handle_assign
  handle_assign-Keeps jobs p s known (a, b) = elim (Bool-cases (p.job == 0)) [
    | inl empty ↦ rw empty (a, b)
    | inr named ↦ elim (Bool-cases (is_simulated (new_engine p).kind)) [
      | inr real ↦ rw (named, real) (launch-Keeps jobs p.job (new_engine p) s known (a, b))
      | inl fake ↦ elim (Bool-cases cfg.allow_simulated) [
        | inl may ↦ rw (named, fake, may) (launch-Keeps jobs p.job (new_engine p) s known (a, b))
        | inr never ↦ rw (named, fake, never) (a, said jobs p.job false s.sent known b)
      ]
    ]
  ]

  happen-Keeps :
      (jobs : ℕ → Bool) (h : Happening) (s : Session)
      → IsCovered jobs h
      → Keeps jobs s
      → Keeps jobs (happen cfg files spawns mc h s)
  unfolding happen handle_inbound
  happen-Keeps jobs (arrives ping) s c (a, b) =
      (a, All-append (IsAbout jobs) s.sent (pong ∷ []) b (tt, tt))
  happen-Keeps jobs (arrives (job_assign p)) s c k =
      handle_assign-Keeps jobs p s (c p.job (ground arith)) k
  happen-Keeps jobs (arrives (job_cancel job)) s c (a, b) = (erase-All (IsOf jobs) job s.jobs a, b)
  happen-Keeps jobs (arrives (allocation_update job cpu gpu)) s c (a, b) = (
    modify-All (IsOf jobs) job (handle_allocation cfg files spawns cpu gpu) s.jobs
        (λ j e known. known) a,
    b,
  )
  happen-Keeps jobs (arrives worker_revoke) s c k = k
  happen-Keeps jobs (ticks stats) s c (a, b) = (
    a,
    All-append (IsAbout jobs) s.sent (reports stats s.jobs) b (reports-IsAbout jobs stats s.jobs a),
  )

  pub each-Keeps :
      (jobs : ℕ → Bool) (hs : List Happening)
      → All (IsCovered jobs) hs
      → All (λ h. (t : Session) → Keeps jobs t → Keeps jobs (happen cfg files spawns mc h t)) hs
  each-Keeps jobs [] a = tt
  each-Keeps jobs (h ∷ hs) (c, a) = (λ t k. happen-Keeps jobs h t c k, each-Keeps jobs hs a)
