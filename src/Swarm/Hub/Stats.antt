-- ===== src/Swarm/Hub/Stats.antt =====
-- LiveStats: the workers of an owner with their live overlay, and the totals (hub.go).
use money_miner.Base.{
  ℕ, suc, ◌+◌, Bool, true, false, Option, none, some, List, [], ◌∷◌, ◌++◌, if◌then◌else◌, length,
  Text,
}
use money_miner.Base.Map.{lookup}
use money_miner.Store.Types.{Worker, WorkerStatus, Kind}
use money_miner.Store.Workers.{list_workers}
use money_miner.Swarm.Hub.State.{Hub, LiveWorker}

pub record LiveWorkerView : Type 0 where
  pub id : ℕ
  pub name : Text
  pub kind : Kind
  pub status : WorkerStatus
  pub hashrate : ℕ

-- A live worker that is not revoked is `mining`, or `connected` without jobs.
abbrev live_status : WorkerStatus → List (ℕ × ℕ) → WorkerStatus
live_status WorkerStatus.revoked jobs = WorkerStatus.revoked
live_status _ [] = WorkerStatus.connected
live_status _ (_ ∷ _) = WorkerStatus.mining

abbrev view_with : Option LiveWorker → Worker → LiveWorkerView
view_with none w = record {
  id = w.id;
  name = w.name;
  kind = w.kind;
  status = w.status;
  hashrate = 0;
}
view_with (some lw) w = record {
  id = w.id;
  name = w.name;
  kind = w.kind;
  status = live_status w.status lw.jobs;
  hashrate = lw.hashrate;
}

unfoldable pub view : Hub → Worker → LiveWorkerView
view h w = view_with (lookup w.id h.live) w

abbrev is_online_status : WorkerStatus → Bool
is_online_status WorkerStatus.connected = true
is_online_status WorkerStatus.mining = true
is_online_status WorkerStatus.assigned = true
is_online_status _ = false

pub record LiveStats : Type 0 where
  pub workers : List LiveWorkerView
  pub workers_online : ℕ
  pub workers_total : ℕ
  pub hashrate : ℕ

unfoldable collect : Hub → List Worker → LiveStats → LiveStats
unfolding view
collect h [] st = st
collect h (w ∷ ws) st =
    let v = view h w in
    collect h ws (record st {
      workers = st.workers ++ v ∷ [];
      workers_online =
          if is_online_status v.status then suc st.workers_online else st.workers_online;
      hashrate = st.hashrate + v.hashrate;
    })

unfoldable pub live_stats : (owner : ℕ) → Hub → LiveStats
unfolding collect
live_stats owner h =
    let ws = list_workers owner h.db in
    collect h ws
      (record { workers = []; workers_online = 0; workers_total = length ws; hashrate = 0 })
