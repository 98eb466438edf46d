-- ===== src/Api/Miners/Create/Checks.antt =====
-- What a created miner has been checked for (`handleCreateMiner` of api/handlers.go).
use money_miner.Base.{
  ℕ, ◌≡◌, ◌⊎◌, Bool, true, false, ◌&&◌, ◌||◌, Text, arith, Bool-cases, inl, inr, refl, to_upper,
  trim_space, text_eq, codes, subst, sym, is_empty,
}
use money_miner.Base.Int.{ℤ, pos, negsuc, pos_part}
use money_miner.Store.Types.{ok, Result-cases, Currency, EngineKind}
use money_miner.Store.Db.{Db}
use money_miner.Store.Catalog.{get_currency}
use money_miner.Store.Miners.{CreateMinerParams, percent_ok}
use money_miner.Api.Response.{Checked, refuse, accept, ErrorCode}
use money_miner.Api.Query.{in_range}
use money_miner.Api.Pool.{Net, validate_pool_url}
use money_miner.Api.Miners.{wallet_known}
use money_miner.Api.Miners.Create.{
  CreateMinerReq, check_create, check_rest, engine_for, is_deferred, cpu_or_half,
}

Checked-cases :
    {A : Type 0} (c : Checked A)
    → ((a : A) × (c ≡ accept a)) ⊎ ((code : ErrorCode) × (c ≡ refuse code))
Checked-cases (accept a) = inl (a, refl)
Checked-cases (refuse code) = inr (code, refl)

-- The adapter, or the simulated engine where the server allows it.
abbrev pub IsUsable : (allow_simulated : Bool) → EngineKind → Type 0
IsUsable allow engine =
    (engine ≡ EngineKind.adapter) ⊎ ((engine ≡ EngineKind.simulated) × (allow ≡ true))

engine_for-IsUsable :
    (allow : Bool) (name : Text) (engine : EngineKind)
    → engine_for allow name ≡ accept engine
    → IsUsable allow engine
unfolding engine_for
engine_for-IsUsable allow name engine e =
    elim (Bool-cases (is_empty name || text_eq name (codes "adapter"))) [
      | inl default ↦ inl (ground arith)
      | inr named ↦ inr (ground arith, ground arith)
    ]

in_range-percent_ok :
    (cpu gpu : ℤ)
    → in_range 1 100 cpu && in_range 0 100 gpu ≡ true
    → percent_ok (pos_part cpu) (pos_part gpu) ≡ true
in_range-percent_ok (pos c) (pos g) e = ground arith
in_range-percent_ok (pos c) (negsuc g) e = ground arith
in_range-percent_ok (negsuc c) g e = ground arith

module _ (net : Net) (allow : Bool) (owner : ℕ) where
  rest_lem :
      (req : CreateMinerReq) (cur : Currency) (engine : EngineKind) (db : Db)
      (p : CreateMinerParams)
      → check_rest net allow owner req cur engine db ≡ accept p
      → (p.owner ≡ owner)
        × (p.currency ≡ cur.symbol)
        × (p.engine ≡ engine)
        × (validate_pool_url net p.pool_url ≡ true)
        × (wallet_known owner p.wallet_id db ≡ true)
        × (percent_ok p.cpu_pct p.gpu_pct ≡ true)
  unfolding check_rest
  rest_lem req cur engine db p e =
      let r = in_range-percent_ok (cpu_or_half req.cpu_pct) req.gpu_pct in
      (ground arith, ground arith, ground arith, ground arith, ground arith, ground (arith, r))

  -- What passes the checks of a creation is the caller's miner of an enabled currency of the catalog
  -- that is not deferred, on the adapter, or on the simulated engine where the server allows it,
  -- with a pool URL that passes the guard, a wallet of the caller if it names one, and shares within
  -- the constraints of the table.
  pub check_create_sound :
      (req : CreateMinerReq) (db : Db) (p : CreateMinerParams)
      → check_create net allow owner req db ≡ accept p
      → (cur : Currency) × (get_currency (to_upper (trim_space req.currency)) db ≡ ok cur)
        × (cur.enabled ≡ true)
        × (is_deferred cur.strategy ≡ false)
        × (p.currency ≡ cur.symbol)
        × (p.owner ≡ owner)
        × IsUsable allow p.engine
        × (validate_pool_url net p.pool_url ≡ true)
        × (wallet_known owner p.wallet_id db ≡ true)
        × (percent_ok p.cpu_pct p.gpu_pct ≡ true)
  unfolding check_create
  check_create_sound req db p e =
      elim (Result-cases (get_currency (to_upper (trim_space req.currency)) db)) [
        | inr (x, f) ↦ absurd (ground arith)
        | inl (cur, f) ↦ elim (Checked-cases (engine_for allow req.engine)) [
          | inr (code, g) ↦ absurd (ground arith)
          | inl (engine, g) ↦
              let (o, c, k, u, w, s) = rest_lem req cur engine db p (ground arith) in
              (
                cur,
                f,
                ground arith,
                ground arith,
                c,
                o,
                subst (λ x. IsUsable allow x) (sym k)
                    (engine_for-IsUsable allow req.engine engine g),
                u,
                w,
                s,
              )
        ]
      ]
