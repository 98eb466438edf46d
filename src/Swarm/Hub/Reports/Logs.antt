-- ===== src/Swarm/Hub/Reports/Logs.antt =====
-- The recent log lines of a worker (swarm/hub.go).
use money_miner.Base.{
  ℕ, ◌-◌, ◌≡◌, ◌≤◌, ◌≢◌, List, [], ◌∷◌, ◌++◌, arith, length, drop, length-drop, Text, ltb, ap, ◌∙◌,
  inl, inr, Bool-cases, false,
}
use money_miner.Base.Map.{lookup-insert}
use money_miner.Swarm.Hub.State.{Hub, LogLine}
use money_miner.Swarm.Hub.Reports.{append_log, trim_log, worker_logs}

length-trim_log : (l : List LogLine) → length (trim_log l) ≤ 20
unfolding trim_log
length-trim_log l = ground (arith, length-drop (length l - 20) l)

trim_log-drop : (l : List LogLine) → trim_log l ≡ drop (length l - 20) l
unfolding trim_log
trim_log-drop l = elim (Bool-cases (ltb 20 (length l))) [
  | inl long ↦ rw long
  | inr short ↦ rw short (ap (λ n. drop n l) (all_kept (length l) short))
]
  where
    all_kept : (n : ℕ) → ltb 20 n ≡ false → 0 ≡ n - 20
    all_kept n h = ground arith

logs_of_append :
    (worker : ℕ) (level msg : Text) (h : Hub)
    → worker_logs worker (append_log worker level msg h)
      ≡ trim_log (worker_logs worker h ++ record { at = h.db.clock; level = level; msg = msg } ∷ [])
unfolding append_log worker_logs
logs_of_append worker level msg h = grind (arith, lookup-insert)

others :
    (worker other : ℕ) (level msg : Text) (h : Hub)
    → other ≢ worker
    → worker_logs other (append_log worker level msg h) ≡ worker_logs other h
unfolding append_log worker_logs
others worker other level msg h ne = grind (arith, lookup-insert)

-- Appending a line keeps the newest 20 lines of the old log and the new one, and touches no log of
-- another worker.
append_log_recent :
    (worker other : ℕ) (level msg : Text) (h : Hub)
    → other ≢ worker
    → let all = worker_logs worker h ++ record { at = h.db.clock; level = level; msg = msg } ∷ [] in
      let h' = append_log worker level msg h in
      (worker_logs worker h' ≡ drop (length all - 20) all)
      × (length (worker_logs worker h') ≤ 20)
      × (worker_logs other h' ≡ worker_logs other h)
append_log_recent worker other level msg h ne =
    let all = worker_logs worker h ++ record { at = h.db.clock; level = level; msg = msg } ∷ [] in
    let new = logs_of_append worker level msg h in
    (new ∙ trim_log-drop all, rw new (length-trim_log all), others worker other level msg h ne)
