-- ===== src/Swarm/Hub.antt =====
-- The hub's state and what it sends (swarm/hub.go). Every operation holds the mutex while it reads
-- and writes the maps; here each is one step on the whole state, database included. `sent`,
-- `closed` and `published` record, in order, what goes to the connections and to the broker.
pub mod State
pub mod Connections
pub mod Reports
pub mod Assignment
pub mod Control
pub mod Stats
pub mod Session
