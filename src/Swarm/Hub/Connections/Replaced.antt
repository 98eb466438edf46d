-- ===== src/Swarm/Hub/Connections/Replaced.antt =====
-- A worker that connects twice (swarm/hub.go).
use money_miner.Base.{ℕ, ◌≡◌, ◌≢◌, true, false, arith}
use money_miner.Base.Map.{lookup-insert, lookup-erase}
use money_miner.Store.Types.{Kind}
use money_miner.Swarm.Hub.State.{Hub, online}
use money_miner.Swarm.Hub.Connections.{register, unregister, connect}

-- After a worker connects it is online; after the connection that this one replaced has been
-- unregistered it is not, though nobody closed the new connection.
pub replaced_offline :
    (worker owner other : ℕ) (kind : Kind) (conn : ℕ) (h : Hub)
    → other ≢ worker
    → let h' = connect worker owner kind conn h in
      (online worker h' ≡ true)
      × (online worker (unregister worker h') ≡ false)
      × ((unregister worker h').closed ≡ h'.closed)
      × (online other (unregister worker h') ≡ online other h)
unfolding online connect unregister register
replaced_offline worker owner other kind conn h ne = grind (arith, lookup-insert, lookup-erase)
