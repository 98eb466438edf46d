-- ===== src/Tests/HubTests.antt =====
-- The hub on concrete messages.
use money_miner.Base.{◌⊎◌, ◌≡◌, true, false, none, List, [], ◌∷◌, arith, All}
use money_miner.Base.Int.{ℤ, pos, ◌+ℤ◌}
use money_miner.Store.Types.{Kind, StopReason}
use money_miner.Store.Runs.{current_run}
use money_miner.Store.Workers.{active_jobs_for_miner}
use money_miner.Swarm.Hub.State.{online}
use money_miner.Swarm.Hub.Connections.{connect, unregister}
use money_miner.Swarm.Hub.Connections.Replaced.{replaced_offline}
use money_miner.Swarm.Hub.Reports.{fresh_job}
use money_miner.Swarm.Hub.Reports.Counters.{count_reports, totals_telescope}
use money_miner.Swarm.Hub.Assignment.{choose, assign}
use money_miner.Swarm.Hub.Assignment.Choice.{ComesFrom, NoneBetter, choose_least}
use money_miner.Swarm.Hub.Assignment.Placement.{Answered, assign_places}
use money_miner.Swarm.Hub.Control.{cancel_miner}
use money_miner.Swarm.Hub.Control.Cancel.{cancel_miner_ends}
use money_miner.Tests.Fixtures.{hub, busy_hub, queued_miner, monero}

replaced_offline_example :
    let h' = connect 20 1 Kind.native 300 hub in
    (online 20 h' ≡ true)
    × (online 20 (unregister 20 h') ≡ false)
    × ((unregister 20 h').closed ≡ h'.closed)
    × (online 21 (unregister 20 h') ≡ online 21 hub)
replaced_offline_example = replaced_offline 20 1 21 Kind.native 300 hub (omega arith)

totals_telescope_example :
    let js = fresh_job 10 1 (pos 2) (pos 0) in
    let rs : List (ℤ × ℤ) = (pos 5, pos 0) ∷ (pos 9, pos 1) ∷ [] in
    (count_reports rs js).tot_acc +ℤ js.last_acc ≡ js.tot_acc +ℤ (count_reports rs js).last_acc
unfolding fresh_job
totals_telescope_example =
    totals_telescope ((pos 5, pos 0) ∷ (pos 9, pos 1) ∷ []) (fresh_job 10 1 (pos 2) (pos 0))
      (omega arith)

choose_least_example :
    ComesFrom 1 hub hub.live none (choose 1 hub hub.live none)
    × All (NoneBetter 1 hub (choose 1 hub hub.live none)) hub.live
choose_least_example = choose_least 1 hub

assign_places_example :
    Answered (λ _. true) queued_miner monero [] hub (assign (λ _. true) queued_miner monero [] hub)
assign_places_example = assign_places (λ _. true) queued_miner monero [] hub tt

cancel_miner_ends_example :
    (active_jobs_for_miner 10 (cancel_miner 10 StopReason.user busy_hub).db ≡ [])
    × ((active_jobs_for_miner 10 busy_hub.db ≡ [])
        ⊎ (current_run 10 (cancel_miner 10 StopReason.user busy_hub).db ≡ none))
cancel_miner_ends_example = cancel_miner_ends 10 StopReason.user busy_hub
