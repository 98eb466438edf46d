-- ===== src/Worker/Jobs.antt =====
-- What engines a worker runs (cmd/worker/main.go).
use money_miner.Base.{
  [], ◌∷◌, List, ℕ, Text, ◌≡◌, Bool, false, some, ◌==◌, arith, All, All-append, Bool-cases,
  Option-cases, inl, inr,
}
use money_miner.Base.Map.{lookup, insert-All, erase-All, modify-All}
use money_miner.Store.Types.{EngineKind, is_simulated}
use money_miner.Engine.{
  Engine, EngineConfig, Files, prepare, prepare_adapter, start, stop, set_allocation, threads_used,
}
use money_miner.Worker.{
  overwritten, FileConfig, Session, Inbound, AssignPayload, ping, job_assign, job_cancel,
  allocation_update, worker_revoke, new_engine, launch, handle_assign, handle_allocation,
  handle_inbound,
}

-- A running engine that does not make numbers up.
abbrev IsReal : ℕ × Engine → Type 0
IsReal (job, e) = is_simulated e.kind ≡ false

abbrev pub AreReal : Session → Type 0
AreReal s = All IsReal s.jobs × All (λ e. is_simulated e.kind ≡ false) s.lost

overwritten-AreReal :
    (job : ℕ) (jobs : List (ℕ × Engine))
    → All IsReal jobs
    → All (λ e. is_simulated e.kind ≡ false) (overwritten (lookup job jobs))
overwritten-AreReal job [] a = tt
overwritten-AreReal job ((k, e) ∷ jobs) (h, a) = elim (Bool-cases (k == job)) [
  | inl same ↦ rw same (h, tt)
  | inr other ↦ rw other (overwritten-AreReal job jobs a)
]

prepare-kind :
    (files : Files) (dir : Text) (cfg : EngineConfig) (e ready : Engine)
    → prepare files dir cfg e ≡ some ready
    → ready.kind ≡ e.kind
unfolding prepare prepare_adapter
prepare-kind files dir cfg e ready h = ground arith

start-kind :
    (spawns : Bool) (e running : Engine) → start spawns e ≡ some running → running.kind ≡ e.kind
unfolding start
start-kind spawns e running h = ground arith

module _ (cfg : FileConfig) (files : Files) (spawns : Engine → Bool) where
  launch-AreReal :
      (job : ℕ) (e : Engine) (s : Session)
      → is_simulated e.kind ≡ false
      → AreReal s
      → AreReal (launch cfg files spawns job e s)
  unfolding launch
  launch-AreReal job e s real a = elim (Option-cases (prepare files cfg.adapters_dir e.cfg e)) [
    | inl refused ↦ rw (refused, launch) a
    | inr (ready, prepared) ↦ elim (Option-cases (start (spawns ready) ready)) [
      | inl failed ↦ rw (prepared, failed, launch) a
      | inr (running, started) ↦
          rw (prepared, started, launch)
            (
              insert-All IsReal job running s.jobs
                  (rw
                    (
                      start-kind (spawns ready) ready running started,
                      prepare-kind files cfg.adapters_dir e.cfg e ready prepared,
                    )
                    real)
                  a.0,
              All-append (λ (x : Engine). is_simulated x.kind ≡ false) s.lost
                  (overwritten (lookup job s.jobs)) a.1 (overwritten-AreReal job s.jobs a.0),
            )
    ]
  ]

  handle_assign-AreReal :
      (p : AssignPayload) (s : Session)
      → cfg.allow_simulated ≡ false
      → AreReal s
      → AreReal (handle_assign cfg files spawns p s)
  unfolding handle_assign
  handle_assign-AreReal p s never a = elim (Bool-cases (p.job == 0)) [
    | inl empty ↦ rw empty a
    | inr named ↦ elim (Bool-cases (is_simulated (new_engine p).kind)) [
      | inl fake ↦ rw (named, fake, never) a
      | inr real ↦ rw (named, real) (launch-AreReal p.job (new_engine p) s real a)
    ]
  ]

  handle_allocation-kind :
      (cpu gpu : ℕ) (e : Engine) → (handle_allocation cfg files spawns cpu gpu e).kind ≡ e.kind
  unfolding handle_allocation set_allocation stop start
  handle_allocation-kind cpu gpu e = ground arith

  pub handle_inbound-AreReal :
      (m : Inbound) (s : Session)
      → cfg.allow_simulated ≡ false
      → AreReal s
      → AreReal (handle_inbound cfg files spawns m s)
  unfolding handle_inbound
  handle_inbound-AreReal ping s never a = a
  handle_inbound-AreReal (job_assign p) s never a = handle_assign-AreReal p s never a
  handle_inbound-AreReal (job_cancel job) s never a = (erase-All IsReal job s.jobs a.0, a.1)
  handle_inbound-AreReal (allocation_update job cpu gpu) s never a = (
    modify-All IsReal job (handle_allocation cfg files spawns cpu gpu) s.jobs
        (λ j e real. rw (handle_allocation-kind cpu gpu e) real) a.0,
    a.1,
  )
  handle_inbound-AreReal worker_revoke s never a = a

  -- Once the allocation of a job on an adapter changes, the engine uses one thread, whatever share
  -- was asked for.
  handle_allocation_one_thread :
      (cpu gpu : ℕ) (e : Engine)
      → e.kind ≡ EngineKind.adapter
      → threads_used (handle_allocation cfg files spawns cpu gpu e) ≡ 1
  unfolding handle_allocation set_allocation stop start
  handle_allocation_one_thread cpu gpu e adapter = ground arith
