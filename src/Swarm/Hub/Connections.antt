-- ===== src/Swarm/Hub/Connections.antt =====
-- Connections: HandleWS, register, unregister, touch and supervise (hub.go).
pub mod Replaced
use money_miner.Base.{
  ℕ, ◌+◌, ◌≡◌, Bool, true, false, not, Option, none, some, List, [], ◌∷◌, ◌++◌, leb, ltb,
  if◌then◌else◌,
}
use money_miner.Base.Map.{lookup, insert, erase, modify}
use money_miner.Store.Types.{Kind, WorkerStatus}
use money_miner.Store.Workers.{set_worker_status}
use money_miner.Swarm.Hub.State.{
  Hub, LiveWorker, Event, worker_joined, worker_left, CloseReason, close, publish, with_db,
}

abbrev heartbeat_window : ℕ
heartbeat_window = 45

abbrev close_old : Option ℕ → Hub → Hub
close_old none h = h
close_old (some conn) h = close conn CloseReason.replaced h

-- `register`: the new connection takes the place of an old one, which is closed.
unfoldable pub register : (worker owner : ℕ) → Kind → (conn : ℕ) → Hub → Hub
register worker owner kind conn h =
    let h' = close_old (lookup worker h.conns) h in
    record h' {
      conns = insert worker conn h'.conns;
      live =
          insert worker
            (record {
              worker = worker;
              owner = owner;
              kind = kind;
              hashrate = 0;
              jobs = [];
              last_msg = h'.db.clock;
            })
            h'.live;
    }

abbrev left : ℕ → Option LiveWorker → Hub → Hub
left worker none h = h
left worker (some lw) h = publish lw.owner (worker_left worker) h

-- `unregister`, which HandleWS defers: it goes by the worker, whichever connection it held.
unfoldable pub unregister : ℕ → Hub → Hub
unfolding set_worker_status
unregister worker h = left worker (lookup worker h.live) (
    with_db (set_worker_status worker WorkerStatus.offline)
      (record h { conns = erase worker h.conns; live = erase worker h.live }))

-- `touch`
unfoldable pub touch : ℕ → Hub → Hub
touch worker h = record h {
  live = modify worker (λ lw. record lw { last_msg = h.db.clock }) h.live;
}

-- What HandleWS does for an authenticated worker before it assigns queued miners and reads.
unfoldable pub connect : (worker owner : ℕ) → Kind → (conn : ℕ) → Hub → Hub
unfolding register set_worker_status
connect worker owner kind conn h =
    publish owner (worker_joined worker kind) (
      with_db (set_worker_status worker WorkerStatus.connected) (register worker owner kind conn h))

-- One tick of `supervise`: whether it goes on watching, and the new state. `answers` says whether
-- the ping is answered in time.
unfoldable pub supervise_tick : (worker conn : ℕ) → (answers : Bool) → Hub → Bool × Hub
supervise_tick worker conn answers h = elim (lookup worker h.live) [
  | none ↦ (false, h)
  | some lw ↦
      if leb h.db.clock (lw.last_msg + heartbeat_window)
      then (true, h)
      else if answers
      then (true, h)
      else (false, close conn CloseReason.heartbeat_timeout h)
]
