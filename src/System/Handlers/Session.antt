-- ===== src/System/Handlers/Session.antt =====
-- A worker's connection as steps of the system (HandleWS of swarm/hub.go).
use money_miner.Base.{ℕ, Bool, List, [], ◌∷◌, Text, is_empty, Bool-cases, inl, inr}
use money_miner.Swarm.Codes.{Crypto, authenticate_worker}
use money_miner.Swarm.Hub.State.{Hub, CloseReason}
use money_miner.Swarm.Hub.Reports.{Inbound}
use money_miner.Swarm.Hub.Session.{worker_token, read_messages, handle_ws}
use money_miner.System.{Reach, next, connects, disconnects, touches, hears, closes}
use money_miner.System.Handlers.Control.{assign_queued-Reach}
use money_miner.System.Handlers.Nodes.{Outcome-cases}

module _ (first : Hub) where
  read_messages-Reach :
      (worker owner : ℕ) (ms : List Inbound) (h : Hub)
      → Reach first h
      → Reach first (read_messages worker owner ms h)
  unfolding read_messages
  read_messages-Reach worker owner [] h r = r
  read_messages-Reach worker owner (m ∷ ms) h r =
      read_messages-Reach worker owner ms _ (next (next r (touches worker)) (hears worker owner m))

  handle_ws-Reach :
      (crypto : Crypto) (writable : ℕ → Bool) (header : Text) (handshake : Bool) (conn : ℕ)
      (ms : List Inbound) (h : Hub)
      → Reach first h
      → Reach first (handle_ws crypto writable header handshake conn ms h).1
  unfolding handle_ws
  handle_ws-Reach crypto writable header handshake conn ms h r =
      elim (Bool-cases (is_empty (worker_token header))) [
        | inl bare ↦ rw (bare, handle_ws) r
        | inr token ↦ elim (Outcome-cases (authenticate_worker crypto (worker_token header) h.db)) [
          | inr (inl bad) ↦ rw (token, bad, handle_ws) r
          | inr (inr (inl bad)) ↦ rw (token, bad, handle_ws) r
          | inr (inr (inr bad)) ↦ rw (token, bad, handle_ws) r
          | inl ((worker, owner, kind), known) ↦ elim (Bool-cases handshake) [
            | inr failed ↦ rw (token, known, failed, handle_ws) r
            | inl shaken ↦
                rw (token, known, shaken, handle_ws)
                  (next
                    (next
                      (read_messages-Reach worker owner ms _ (
                        assign_queued-Reach first writable owner _ (
                          next r
                            (connects crypto (worker_token header) worker owner kind conn known))))
                      (closes conn CloseReason.bye))
                    (disconnects worker))
          ]
        ]
      ]
