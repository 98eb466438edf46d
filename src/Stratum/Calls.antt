-- ===== src/Stratum/Calls.antt =====
-- The parts of Call, and the runs of a client (stratum/client.go).
pub mod Matched
pub mod Answered
use money_miner.Base.{
  ℕ, ◌+◌, ◌≡◌, Bool, true, Option, none, some, List, [], ◌∷◌, ◌++◌, if◌then◌else◌, Text, codes,
}
use money_miner.Base.Map.{lookup, insert, erase}
use money_miner.Stratum.{
  Client, Frame, RpcReq, RpcResp, CallResult, responded, rpc_error, write_failed, cancelled, Phase,
  numbered, registered, written, returned, new_client, receive, fail_all,
}

-- The parts of `Call`. First it takes its number.
unfoldable pub take_number : Client → ℕ × Client
take_number c =
    (c.seq + 1, record c { seq = c.seq + 1; calls = insert (c.seq + 1) numbered c.calls })

-- It puts its channel into the table,
unfoldable pub register : ℕ → Client → Client
register id c = record c { pending = insert id id c.pending; calls = insert id registered c.calls }

-- writes its request, which may fail,
unfoldable pub write : ℕ → (method : Text) → (params : List Text) → (works : Bool) → Client → Client
write id method params works c =
    if works
    then record c {
      calls = insert id written c.calls;
      sent = c.sent ++ record { id = id; method = method; params = params } ∷ [];
    }
    else record c { calls = insert id (returned write_failed) c.calls }

abbrev outcome : RpcResp → CallResult
outcome r = elim r.error [ none ↦ responded r.result | some e ↦ rpc_error e ]

-- and waits for its channel
unfoldable pub answer : ℕ → RpcResp → Client → Client
answer id r c = record c {
  boxes = erase id c.boxes;
  calls = insert id (returned (outcome r)) c.calls;
}

-- or the end of its context.
unfoldable pub expire : ℕ → Client → Client
expire id c = record c { calls = insert id (returned cancelled) c.calls }

-- Method and parameters of `Subscribe`, `Authorize` and `Submit`.
unfoldable subscribe_call : (ua : Text) → Text × List Text
subscribe_call ua = (codes "mining.subscribe", ua ∷ [])

unfoldable authorize_call : (username password : Text) → Text × List Text
authorize_call username password = (codes "mining.authorize", username ∷ password ∷ [])

unfoldable submit_call : (username job_id extra2 ntime nonce : Text) → Text × List Text
submit_call username job_id extra2 ntime nonce =
    (codes "mining.submit", username ∷ job_id ∷ extra2 ∷ ntime ∷ nonce ∷ [])

-- What can happen to a client. A step of a call has a condition on how far the call has come.
pub data Step : Client → Client → Type 0 where
  takes_number : {c : Client} → Step c (take_number c).1
  registers : {c : Client} (id : ℕ) → lookup id c.calls ≡ some numbered → Step c (register id c)
  writes :
      {c : Client} (id : ℕ) (method : Text) (params : List Text) (works : Bool)
      → lookup id c.calls ≡ some registered
      → Step c (write id method params works c)
  receives : {c : Client} (f : Frame) → c.reading ≡ true → Step c (receive f c)
  breaks : {c : Client} (error : Text) → c.reading ≡ true → Step c (fail_all error c)
  answers :
      {c : Client} (id : ℕ) (r : RpcResp)
      → lookup id c.calls ≡ some written
      → lookup id c.boxes ≡ some r
      → Step c (answer id r c)
  expires : {c : Client} (id : ℕ) → lookup id c.calls ≡ some written → Step c (expire id c)

pub data Reach : Client → Type 0 where
  start : Reach new_client
  next : {c c' : Client} → Reach c → Step c c' → Reach c'

-- A run from one state to another.
pub data Run (c : Client) : Client → Type 0 where
  stay : Run c c
  then : {d d' : Client} → Run c d → Step d d' → Run c d'
