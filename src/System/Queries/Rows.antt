-- ===== src/System/Queries/Rows.antt =====
-- Changes of the rows of one table, and the invariant.
use money_miner.Base.{ℕ, ◌≡◌, ◌≤◌, ◌<◌, Bool, List, arith, All-update, update}
use money_miner.Store.Types.{MinerRow, Worker, SwarmJob}
use money_miner.Store.Db.{Db}
use money_miner.System.Sound.{
  IsSound, IsPaired, AreMiners, AreWorkers, MinersStay, WorkersStay, jobs_later, covered,
}
use money_miner.System.Keys.{later-IsTable, update-IsTable, update-Stays}

-- Miners that come or change while the rest stays.
pub miners-IsSound :
    (rows : List MinerRow) (fresh : ℕ) (db : Db)
    → db.fresh ≤ fresh
    → MinersStay db.miners rows
    → AreMiners fresh rows
    → IsSound db
    → IsSound (record db { miners = rows; fresh = fresh })
miners-IsSound rows fresh db le stay table a = record {
  older = jobs_later db.fresh fresh db.jobs le a.older;
  miners = table;
  workers = later-IsTable _ _ db.fresh fresh db.workers le a.workers;
  paired = covered db.miners rows db.workers db.workers db.jobs stay (λ id owner e. e) a.paired;
}

pub update_miners-IsSound :
    (p : MinerRow → Bool) (f : MinerRow → MinerRow) (db : Db)
    → ((m : MinerRow) → ((f m).id ≡ m.id) × ((f m).owner ≡ m.owner))
    → IsSound db
    → IsSound (record db { miners = update p f db.miners })
update_miners-IsSound p f db kept a =
    miners-IsSound (update p f db.miners) db.fresh db (omega arith)
      (update-Stays _ _ p f db.miners kept)
      (update-IsTable _ _ p f db.fresh db.miners kept a.miners) a

pub workers-IsSound :
    (rows : List Worker) (fresh : ℕ) (db : Db)
    → db.fresh ≤ fresh
    → WorkersStay db.workers rows
    → AreWorkers fresh rows
    → IsSound db
    → IsSound (record db { workers = rows; fresh = fresh })
workers-IsSound rows fresh db le stay table a = record {
  older = jobs_later db.fresh fresh db.jobs le a.older;
  miners = later-IsTable _ _ db.fresh fresh db.miners le a.miners;
  workers = table;
  paired = covered db.miners db.miners db.workers rows db.jobs (λ id owner e. e) stay a.paired;
}

pub update_workers-IsSound :
    (p : Worker → Bool) (f : Worker → Worker) (db : Db)
    → ((w : Worker) → ((f w).id ≡ w.id) × ((f w).owner ≡ w.owner))
    → IsSound db
    → IsSound (record db { workers = update p f db.workers })
update_workers-IsSound p f db kept a =
    workers-IsSound (update p f db.workers) db.fresh db (omega arith)
      (update-Stays _ _ p f db.workers kept)
      (update-IsTable _ _ p f db.fresh db.workers kept a.workers) a

pub jobs-IsSound :
    (p : SwarmJob → Bool) (f : SwarmJob → SwarmJob) (db : Db)
    → ((j : SwarmJob) → ((f j).id ≡ j.id) × ((f j).miner ≡ j.miner) × ((f j).worker ≡ j.worker))
    → IsSound db
    → IsSound (record db { jobs = update p f db.jobs })
jobs-IsSound p f db kept a = record {
  older =
      All-update (λ (j : SwarmJob). j.id < db.fresh) p f db.jobs (λ j h. rw (kept j).0 h) a.older;
  miners = a.miners;
  workers = a.workers;
  paired =
      All-update (IsPaired db.miners db.workers) p f db.jobs (λ j h. rw ((kept j).1, (kept j).2) h)
        a.paired;
}
