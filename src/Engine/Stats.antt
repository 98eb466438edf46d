-- ===== src/Engine/Stats.antt =====
-- The statistics of engines (engine/adapter/adapter.go, engine/simulated/simulated.go). `get` is the
-- decoded answer 200 of a miner's HTTP interface.
use money_miner.Base.{
  ℕ, ◌+◌, ◌*◌, ◌≡◌, ◌⊎◌, refl, Bool, true, false, not, Option, none, some, List, [], ◌∷◌,
  if◌then◌else◌, Text, text_eq, codes, Bool-cases, Option-cases, inl, inr,
}
use money_miner.Base.Int.{ℤ, pos, ◌+ℤ◌, ◌-ℤ◌}
use money_miner.Engine.{Engine, AdapterConfig, threads_used}

-- Hash rates in hashes a second.
pub record EngineStats : Type 0 where
  pub hashrate : ℕ
  pub shares_accepted : ℤ
  pub shares_rejected : ℤ
  pub uptime : ℤ
  pub running : Bool
  pub stats_available : Bool

abbrev no_stats : (running : Bool) → (uptime : ℤ) → EngineStats
no_stats running uptime = record {
  hashrate = 0;
  shares_accepted = pos 0;
  shares_rejected = pos 0;
  uptime = uptime;
  running = running;
  stats_available = false;
}

-- The summary of xmrig, with its list of rates.
pub record XmrigSummary : Type 0 where
  pub total : List ℕ
  pub shares_good : ℤ
  pub shares_total : ℤ
  pub uptime : ℤ

-- One element of `Algorithms` of lolMiner; a rate in MH/s.
pub record LolminerAlgorithm : Type 0 where
  pub performance : List ℕ
  pub accepted : List ℤ
  pub rejected : List ℤ

pub record LolminerSummary : Type 0 where
  pub algorithms : List LolminerAlgorithm
  pub uptime : ℤ

abbrev first_rate : List ℕ → ℕ
first_rate [] = 0
first_rate (r ∷ rs) = r

abbrev xmrig_stats : XmrigSummary → EngineStats
xmrig_stats v = record {
  hashrate = first_rate v.total;
  shares_accepted = v.shares_good;
  shares_rejected = v.shares_total -ℤ v.shares_good;
  uptime = v.uptime;
  running = true;
  stats_available = true;
}

-- `fetchXmrigStats`: the first of the two paths that answers.
unfoldable fetch_xmrig_stats : (get : Text → Option XmrigSummary) → Option EngineStats
fetch_xmrig_stats get = elim (get (codes "/2/summary")) [
  | some v ↦ some (xmrig_stats v)
  | none ↦ elim (get (codes "/1/summary")) [ some v ↦ some (xmrig_stats v) | none ↦ none ]
]

unfoldable add_rates : List ℕ → ℕ → ℕ
add_rates [] acc = acc
add_rates (p ∷ ps) acc = add_rates ps (acc + p * 1000000)

unfoldable add_shares : List ℤ → ℤ → ℤ
add_shares [] acc = acc
add_shares (x ∷ xs) acc = add_shares xs (acc +ℤ x)

unfoldable add_algorithms : List LolminerAlgorithm → EngineStats → EngineStats
unfolding add_rates add_shares
add_algorithms [] st = st
add_algorithms (a ∷ rest) st = add_algorithms rest (record st {
  hashrate = add_rates a.performance st.hashrate;
  shares_accepted = add_shares a.accepted st.shares_accepted;
  shares_rejected = add_shares a.rejected st.shares_rejected;
})

-- `fetchLolminerStats`
unfoldable fetch_lolminer_stats : Option LolminerSummary → Option EngineStats
unfolding add_algorithms
fetch_lolminer_stats none = none
fetch_lolminer_stats (some v) =
    some (add_algorithms v.algorithms (record (no_stats true v.uptime) { stats_available = true }))

abbrev api_kind_of : Option AdapterConfig → Text
api_kind_of none = []
api_kind_of (some ad) = ad.api_kind

abbrev or_unreachable : Option EngineStats → EngineStats → EngineStats
or_unreachable none st = st
or_unreachable (some s) st = s

-- `Stats` of an adapter, `since` seconds after its start.
unfoldable adapter_stats :
    (xmrig : Text → Option XmrigSummary)
    → (lolminer : Option LolminerSummary) → (since : ℕ) → Engine
    → EngineStats
unfolding fetch_xmrig_stats fetch_lolminer_stats
adapter_stats xmrig lolminer since e =
    let kind = api_kind_of e.cfg.adapter in
    if not e.running
    then no_stats false (pos 0)
    else (if text_eq kind (codes "xmrig")
        then or_unreachable (fetch_xmrig_stats xmrig) (no_stats true (pos since))
        else (if text_eq kind (codes "lolminer")
            then or_unreachable (fetch_lolminer_stats lolminer) (no_stats true (pos since))
            else no_stats true (pos since)))

-- `Stats` of the simulated engine, with what the random source makes of the rate and the shares so
-- far; a count of shares that goes up is the engine's own.
unfoldable simulated_stats : (jitter : ℕ → ℕ) → (shares since : ℕ) → Engine → EngineStats
simulated_stats jitter shares since e =
    if not e.running then record (no_stats false (pos 0)) { stats_available = true } else record {
      hashrate = jitter (threads_used e * 450);
      shares_accepted = pos shares;
      shares_rejected = pos 0;
      uptime = pos since;
      running = true;
      stats_available = true;
    }

-- An adapter reports numbers only while it runs and only as the interface of its own kind gave them:
-- a report that counts as available is the one of xmrig or of lolMiner, and without one every number
-- but the uptime is 0.
adapter_stats_honest :
    (xmrig : Text → Option XmrigSummary) (lolminer : Option LolminerSummary) (since : ℕ)
    (e : Engine)
    → ((e.running ≡ true)
        × ((some (adapter_stats xmrig lolminer since e) ≡ fetch_xmrig_stats xmrig)
            ⊎ (some (adapter_stats xmrig lolminer since e) ≡ fetch_lolminer_stats lolminer)))
      ⊎ ((uptime : ℤ) × (adapter_stats xmrig lolminer since e ≡ no_stats e.running uptime))
unfolding adapter_stats
adapter_stats_honest xmrig lolminer since e = elim (Bool-cases e.running) [
  | inr idle ↦ inr (pos 0, rw (idle, adapter_stats) refl)
  | inl up ↦ elim (Bool-cases (text_eq (api_kind_of e.cfg.adapter) (codes "xmrig"))) [
    | inl x ↦ elim (Option-cases (fetch_xmrig_stats xmrig)) [
      | inl silent ↦ inr (pos since, rw (up, x, silent, adapter_stats) refl)
      | inr (s, got) ↦ inl (up, inl (rw (up, x, got, adapter_stats) refl))
    ]
    | inr not_x ↦ elim (Bool-cases (text_eq (api_kind_of e.cfg.adapter) (codes "lolminer"))) [
      | inl l ↦ elim (Option-cases (fetch_lolminer_stats lolminer)) [
        | inl silent ↦ inr (pos since, rw (up, not_x, l, silent, adapter_stats) refl)
        | inr (s, got) ↦ inl (up, inr (rw (up, not_x, l, got, adapter_stats) refl))
      ]
      | inr neither ↦ inr (pos since, rw (up, not_x, neither, adapter_stats) refl)
    ]
  ]
]
