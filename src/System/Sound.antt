-- ===== src/System/Sound.antt =====
-- The invariant of the database: every job pairs a miner and a worker of one owner.
use money_miner.Base.{
  ℕ, ◌≡◌, ◌≤◌, refl, Bool, true, false, Option, none, some, List, [], ◌∷◌, ◌==◌, arith, All,
}
use money_miner.Store.Types.{MinerRow, Worker, SwarmJob}
use money_miner.Store.Db.{Db}
use money_miner.Swarm.Hub.Assignment.Placement.{AreOlder}
use money_miner.System.Keys.{IsTable, Stays, owner_of}

abbrev pub owner_of_miner : ℕ → List MinerRow → Option ℕ
owner_of_miner id rows = owner_of (λ (m : MinerRow). m.id) (λ m. m.owner) id rows

abbrev pub owner_of_worker : ℕ → List Worker → Option ℕ
owner_of_worker id rows = owner_of (λ (w : Worker). w.id) (λ w. w.owner) id rows

abbrev pub AreMiners : ℕ → List MinerRow → Type 0
AreMiners fresh rows = IsTable (λ (m : MinerRow). m.id) (λ m. m.owner) fresh rows

abbrev pub AreWorkers : ℕ → List Worker → Type 0
AreWorkers fresh rows = IsTable (λ (w : Worker). w.id) (λ w. w.owner) fresh rows

abbrev pub MinersStay : List MinerRow → List MinerRow → Type 0
MinersStay rows rows' = Stays (λ (m : MinerRow). m.id) (λ m. m.owner) rows rows'

abbrev pub WorkersStay : List Worker → List Worker → Type 0
WorkersStay rows rows' = Stays (λ (w : Worker). w.id) (λ w. w.owner) rows rows'

abbrev pub same_owner : Option ℕ → Option ℕ → Bool
same_owner (some a) (some b) = a == b
same_owner (some a) none = false
same_owner none (some b) = false
same_owner none none = false

-- The miner and the worker of a job exist and are of one owner.
abbrev pub IsPaired : List MinerRow → List Worker → SwarmJob → Type 0
IsPaired miners workers j =
    same_owner (owner_of_miner j.miner miners) (owner_of_worker j.worker workers) ≡ true

abbrev pub ArePaired : List MinerRow → List Worker → List SwarmJob → Type 0
ArePaired miners workers jobs = All (IsPaired miners workers) jobs

-- Jobs, miners and workers are older than the next id, the ids of miners and workers are keys, and
-- every job pairs a miner with a worker of the same owner.
pub record IsSound (db : Db) : Type 0 where
  pub older : AreOlder db.fresh db.jobs
  pub miners : AreMiners db.fresh db.miners
  pub workers : AreWorkers db.fresh db.workers
  pub paired : ArePaired db.miners db.workers db.jobs

pub jobs_later :
    (fresh later : ℕ) (jobs : List SwarmJob)
    → fresh ≤ later
    → AreOlder fresh jobs
    → AreOlder later jobs
jobs_later fresh later [] le a = tt
jobs_later fresh later (j ∷ jobs) le (h, a) =
    (omega (arith, h, le), jobs_later fresh later jobs le a)

same_owner_of : (a b : Option ℕ) → same_owner a b ≡ true → (o : ℕ) × (a ≡ some o) × (b ≡ some o)
same_owner_of (some a) (some b) h = (a, refl, ground arith)
same_owner_of (some a) none h = absurd (cc)
same_owner_of none (some b) h = absurd (cc)
same_owner_of none none h = absurd (cc)

self_owner : (o : ℕ) → same_owner (some o) (some o) ≡ true
self_owner o = ground arith

pub paired_owner :
    (miners : List MinerRow) (workers : List Worker) (j : SwarmJob)
    → IsPaired miners workers j
    → (o : ℕ) × (owner_of_miner j.miner miners ≡ some o)
      × (owner_of_worker j.worker workers ≡ some o)
paired_owner miners workers j h =
    same_owner_of (owner_of_miner j.miner miners) (owner_of_worker j.worker workers) h

pub pair_of :
    (miners : List MinerRow) (workers : List Worker) (j : SwarmJob) (o : ℕ)
    → owner_of_miner j.miner miners ≡ some o
    → owner_of_worker j.worker workers ≡ some o
    → IsPaired miners workers j
pair_of miners workers j o m w = rw (m, w) (self_owner o)

pub covered :
    (miners miners' : List MinerRow) (workers workers' : List Worker) (jobs : List SwarmJob)
    → MinersStay miners miners'
    → WorkersStay workers workers'
    → ArePaired miners workers jobs
    → ArePaired miners' workers' jobs
covered miners miners' workers workers' [] ms ws a = tt
covered miners miners' workers workers' (j ∷ jobs) ms ws (h, a) =
    let (o, m, w) = paired_owner miners workers j h in
    (
      pair_of miners' workers' j o (ms j.miner o m) (ws j.worker o w),
      covered miners miners' workers workers' jobs ms ws a,
    )
