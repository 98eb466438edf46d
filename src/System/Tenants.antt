-- ===== src/System/Tenants.antt =====
-- What a worker reports, along the runs of the server (swarm/hub.go).
use money_miner.Base.{
  ℕ, ◌≡◌, ◌⊎◌, refl, Bool, true, false, not, none, some, List, [], ◌∷◌, ◌++◌, ◌==◌, ◌&&◌, arith,
  All, find, find_sound, find-All, select, update, Bool-cases, inl, inr, Text, is_empty, ==_refl,
}
use money_miner.Base.Int.{ℤ}
use money_miner.Store.Types.{
  Result-cases, ok, MinerRow, MinerStatus, Sample, Worker, SwarmJob, Miner, Currency,
}
use money_miner.Store.Db.{Db}
use money_miner.Store.Miners.{set_miner_status}
use money_miner.Store.Metrics.{insert_metric_sample, worker_exists, in_int4}
use money_miner.Store.Runs.{miner_exists}
use money_miner.Store.Isolation.{miners_of_others}
use money_miner.Store.Workers.{
  get_worker, is_owned_worker, active_job_for_worker, is_active_for, set_worker_status,
  set_swarm_job_status, update_worker_caps,
}
use money_miner.Swarm.Hub.State.{Hub}
use money_miner.Swarm.Hub.Reports.{
  Inbound, hello, pong, job_ack, metrics, share_submit, log, other, handle_message, handle_ack,
  handle_metrics, append_log,
}
use money_miner.Swarm.Hub.Assignment.{assign}
use money_miner.Swarm.Hub.Assignment.Placement.{Answered, assign_places}
use money_miner.System.{Reach, start, next}
use money_miner.System.Keys.{IsKeyed}
use money_miner.System.Sound.{IsSound, IsPaired, owner_of_miner, owner_of_worker, paired_owner}
use money_miner.System.Hubs.{Step-IsSound}

-- From a sound database, every state that the server reaches is sound, in whatever order queries,
-- connections, messages, assignments and cancellations come.
pub Reach-IsSound : (first h : Hub) → IsSound first.db → Reach first h → IsSound h.db
Reach-IsSound first _ a start = a
Reach-IsSound first h a (next {h = b} r s) = Step-IsSound b h s (Reach-IsSound first b a r)

-- In every state that the server reaches from a sound one, Assign does what it says.
assign_places_always :
    (writable : ℕ → Bool) (m : Miner) (cur : Currency) (wallet : Text) (first h : Hub)
    → IsSound first.db
    → Reach first h
    → Answered writable m cur wallet h (assign writable m cur wallet h)
assign_places_always writable m cur wallet first h a r =
    assign_places writable m cur wallet h (Reach-IsSound first h a r).older

-- The worker of a sound database that its owner finds.
worker_key :
    (owner worker : ℕ) (w : Worker) (db : Db)
    → IsSound db
    → get_worker owner worker db ≡ ok w
    → owner_of_worker worker db.workers ≡ some owner
unfolding get_worker
worker_key owner worker w db a got =
    let hit : find (is_owned_worker owner worker) db.workers ≡ some w = ground arith in
    let sound : is_owned_worker owner worker w ≡ true =
      find_sound (is_owned_worker owner worker) db.workers w hit in
    let key : owner_of_worker w.id db.workers ≡ some w.owner =
      find-All (IsKeyed (λ (q : Worker). q.id) (λ q. q.owner) db.workers)
        (is_owned_worker owner worker) db.workers w a.workers.keyed hit in
    ground arith

-- The miner of an active job is the worker's owner's.
active_miner_owner :
    (owner worker job : ℕ) (w : Worker) (j : SwarmJob) (db : Db)
    → IsSound db
    → get_worker owner worker db ≡ ok w
    → active_job_for_worker job worker db ≡ ok j
    → owner_of_miner j.miner db.miners ≡ some owner
unfolding active_job_for_worker
active_miner_owner owner worker job w j db a got active =
    let hit : find (is_active_for job worker) db.jobs ≡ some j = ground arith in
    let mine : is_active_for job worker j ≡ true =
      find_sound (is_active_for job worker) db.jobs j hit in
    let paired : IsPaired db.miners db.workers j =
      find-All (IsPaired db.miners db.workers) (is_active_for job worker) db.jobs j a.paired hit in
    let (o, m, k) = paired_owner db.miners db.workers j paired in
    let key = worker_key owner worker w db a got in ground arith

-- Where ids are keys, a change of the miner with an id of the owner leaves others' rows alone.
status-others_kept :
    (id owner now : ℕ) (status : MinerStatus) (table rows : List MinerRow)
    → owner_of_miner id table ≡ some owner
    → All (IsKeyed (λ (m : MinerRow). m.id) (λ m. m.owner) table) rows
    → select
        (λ m. not (m.owner == owner))
        (update (λ m. m.id == id) (λ m. record m { status = status; updated_at = now }) rows)
      ≡ select (λ m. not (m.owner == owner)) rows
status-others_kept id owner now status table [] e a = refl
status-others_kept id owner now status table (m ∷ rows) e (k, a) =
    let rest = status-others_kept id owner now status table rows e a in
    elim (Bool-cases (m.id == id)) [
      | inr differ ↦ rw (differ, rest) refl
      | inl same ↦
          let theirs : not (m.owner == owner) ≡ false = ground (arith, ==_refl owner) in
          rw (same, theirs) rest
    ]

-- At most one sample is added, and it is of a miner of the owner.
abbrev IsOwnSample : (owner : ℕ) → Db → Db → Type 0
IsOwnSample owner db db' =
    (db'.samples ≡ db.samples)
    ⊎ ((s : Sample) × (db'.samples ≡ db.samples ++ s ∷ [])
        × (owner_of_miner s.miner db.miners ≡ some owner))

-- What a message of a worker may do to the database.
abbrev pub IsConfinedTo : (owner : ℕ) → Db → Db → Type 0
IsConfinedTo owner db db' =
    (miners_of_others owner db' ≡ miners_of_others owner db) × IsOwnSample owner db db'

module _ (owner worker : ℕ) (w : Worker) where
  ack-IsConfinedTo :
      (job : ℕ) (fine : Bool) (h : Hub)
      → IsSound h.db
      → get_worker owner worker h.db ≡ ok w
      → IsConfinedTo owner h.db (handle_ack worker owner job fine h).db
  unfolding handle_ack set_worker_status set_miner_status set_swarm_job_status
  ack-IsConfinedTo job fine h a got = elim (Result-cases (active_job_for_worker job worker h.db)) [
    | inr (x, foreign) ↦ rw (foreign, handle_ack) (refl, inl refl)
    | inl (j, active) ↦
        let theirs = active_miner_owner owner worker job w j h.db a got active in
        elim (Bool-cases fine) [
          | inl good ↦
              rw (active, good, handle_ack)
                (
                  status-others_kept j.miner owner h.db.clock MinerStatus.running h.db.miners
                      h.db.miners theirs a.miners.keyed,
                  inl refl,
                )
          | inr bad ↦
              rw (active, bad, handle_ack)
                (
                  status-others_kept j.miner owner h.db.clock MinerStatus.error h.db.miners
                      h.db.miners theirs a.miners.keyed,
                  inl refl,
                )
        ]
  ]

  insert-IsOwnSample :
      (miner hashrate : ℕ) (acc rej : ℤ) (db : Db)
      → owner_of_miner miner db.miners ≡ some owner
      → IsConfinedTo owner db (insert_metric_sample miner (some worker) hashrate acc rej db).1
  unfolding insert_metric_sample
  insert-IsOwnSample miner hashrate acc rej db theirs =
      elim (Bool-cases
        (miner_exists miner db && worker_exists (some worker) db && in_int4 acc && in_int4 rej)) [
          | inr refused ↦ rw (refused, insert_metric_sample) (refl, inl refl)
          | inl stored ↦ rw (stored, insert_metric_sample) (refl, inr (_, refl, theirs))
        ]

  metrics-IsConfinedTo :
      (job hashrate : ℕ) (acc rej : ℤ) (h : Hub)
      → IsSound h.db
      → get_worker owner worker h.db ≡ ok w
      → IsConfinedTo owner h.db (handle_metrics worker owner job hashrate acc rej h).db
  unfolding handle_metrics
  metrics-IsConfinedTo job hashrate acc rej h a got =
      elim (Result-cases (active_job_for_worker job worker h.db)) [
        | inr (x, foreign) ↦ rw (foreign, handle_metrics) (refl, inl refl)
        | inl (j, active) ↦
            rw (active, handle_metrics)
              (insert-IsOwnSample j.miner hashrate _ _ h.db
                (active_miner_owner owner worker job w j h.db a got active))
      ]

  message-IsConfinedTo :
      (m : Inbound) (h : Hub)
      → IsSound h.db
      → get_worker owner worker h.db ≡ ok w
      → IsConfinedTo owner h.db (handle_message worker owner m h).db
  unfolding handle_message append_log update_worker_caps
  message-IsConfinedTo (hello none) h a got = (refl, inl refl)
  message-IsConfinedTo (hello (some caps)) h a got = (refl, inl refl)
  message-IsConfinedTo pong h a got = (refl, inl refl)
  message-IsConfinedTo (job_ack job fine) h a got = elim (Bool-cases (job == 0)) [
    | inl empty ↦ rw (empty, handle_message) (refl, inl refl)
    | inr named ↦ rw (named, handle_message) (ack-IsConfinedTo job fine h a got)
  ]
  message-IsConfinedTo (metrics job hashrate acc rej) h a got = elim (Bool-cases (job == 0)) [
    | inl empty ↦ rw (empty, handle_message) (refl, inl refl)
    | inr named ↦ rw (named, handle_message) (metrics-IsConfinedTo job hashrate acc rej h a got)
  ]
  message-IsConfinedTo share_submit h a got = (refl, inl refl)
  message-IsConfinedTo (log level msg) h a got = elim (Bool-cases (is_empty msg)) [
    | inl empty ↦ rw (empty, handle_message) (refl, inl refl)
    | inr line ↦ rw (line, handle_message) (refl, inl refl)
  ]
  message-IsConfinedTo other h a got = (refl, inl refl)

-- In every state that the server reaches from a sound one, no message of a worker changes a miner
-- of anybody but the worker's owner, and the one sample that it may add is of a miner of the owner.
pub message_stays_home :
    (owner worker : ℕ) (w : Worker) (m : Inbound) (first h : Hub)
    → IsSound first.db
    → Reach first h
    → get_worker owner worker h.db ≡ ok w
    → IsConfinedTo owner h.db (handle_message worker owner m h).db
message_stays_home owner worker w m first h a r got =
    message-IsConfinedTo owner worker w m h (Reach-IsSound first h a r) got
