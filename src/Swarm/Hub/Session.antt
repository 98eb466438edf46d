-- ===== src/Swarm/Hub/Session.antt =====
-- One worker connection from its request to its end: HandleWS (hub.go). What other connections and
-- the supervision do in the meantime are steps of their own.
use money_miner.Base.{
  ℕ, Bool, not, List, [], ◌∷◌, if◌then◌else◌, Text, codes, is_empty, trim_space, trim_prefix,
}
use money_miner.Swarm.Codes.{Crypto, done, authenticate_worker}
use money_miner.Swarm.Hub.State.{Hub, CloseReason, close}
use money_miner.Swarm.Hub.Connections.{connect, touch, unregister}
use money_miner.Swarm.Hub.Assignment.{assign_queued}
use money_miner.Swarm.Hub.Reports.{Inbound, handle_message}

-- `unauthorized` is the answer 401; `not_accepted` a handshake that fails.
pub data Ended : Type 0 where
  unauthorized not_accepted over : Ended

-- The token of the Authorization header.
abbrev pub worker_token : Text → Text
worker_token header = trim_space (trim_prefix header (codes "Bearer "))

-- The reading loop, up to the error that ends it.
unfoldable pub read_messages : (worker owner : ℕ) → List Inbound → Hub → Hub
unfolding touch handle_message
read_messages worker owner [] h = h
read_messages worker owner (m ∷ ms) h =
    read_messages worker owner ms (handle_message worker owner m (touch worker h))

module _ (crypto : Crypto) (writable : ℕ → Bool) where
  -- `handshake` says whether the handshake with its check of the origin succeeds; `conn` is the new
  -- connection and `ms` what arrives on it. At the end the connection is closed, then unregistered.
  unfoldable pub handle_ws :
      (header : Text) → (handshake : Bool) → (conn : ℕ) → (ms : List Inbound) → Hub → Ended × Hub
  unfolding read_messages
  handle_ws header handshake conn ms h =
      let token = worker_token header in
      if is_empty token
      then (Ended.unauthorized, h)
      else elim (authenticate_worker crypto token h.db) [
        | done (worker, owner, kind) ↦ if not handshake then (Ended.not_accepted, h) else (
          Ended.over,
          unregister worker (
              close conn CloseReason.bye (
                read_messages worker owner ms
                  (assign_queued writable owner (connect worker owner kind conn h)))),
        )
        | _ ↦ (Ended.unauthorized, h)
      ]
