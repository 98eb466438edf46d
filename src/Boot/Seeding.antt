-- ===== src/Boot/Seeding.antt =====
-- Seeding twice (seedTestData of cmd/server/main.go).
use money_miner.Base.{
  ℕ, ◌≡◌, refl, Bool, true, some, [], ◌∷◌, ◌==◌, ltb, length, find, find-append_miss, ==_refl,
  arith, codes, Text, Bool-cases, Option-cases, inl, inr, ◌∙◌, ◌⊎◌, ap,
}
use money_miner.Store.Types.{Result-cases, ok, err, StoreError, Wallet, Currency}
use money_miner.Store.Db.{Db, currency_by_symbol}
use money_miner.Store.Catalog.{create_wallet, holds_wallet}
use money_miner.Store.Miners.{CreateMinerParams, create_miner, list_miners}
use money_miner.Boot.{seed_test_data, demo_xmr, demo_miner}

-- The owner has a wallet of the currency.
record IsHeld (owner : ℕ) (symbol : Text) (db : Db) : Type 0 where
  currency : Currency
  known : currency_by_symbol symbol db ≡ some currency
  wallet : Wallet
  held : find (holds_wallet owner currency.id) db.wallets ≡ some wallet

create_wallet-IsHeld :
    (owner : ℕ) (symbol address label : Text) (validated : Bool) (w : Wallet) (db : Db)
    → (create_wallet owner symbol address label validated db).0 ≡ ok w
    → IsHeld owner symbol (create_wallet owner symbol address label validated db).1
unfolding create_wallet
create_wallet-IsHeld owner symbol address label validated w db made =
    elim (Option-cases (currency_by_symbol symbol db)) [
      | inl unknown ↦ absurd (ground arith)
      | inr (c, known) ↦ elim (Option-cases (find (holds_wallet owner c.id) db.wallets)) [
        | inr (old, held) ↦ absurd (ground arith)
        | inl free ↦
            let new : Wallet = record {
              id = db.fresh;
              owner = owner;
              currency = c.id;
              address = address;
              label = label;
              validated = validated;
              created_at = db.clock;
            } in
            record {
              currency = c;
              known = ground arith;
              wallet = new;
              held =
                  rw (known, free, create_wallet)
                    (find-append_miss (holds_wallet owner c.id) db.wallets (new ∷ []) free
                      ∙ ground (arith, ==_refl owner, ==_refl c.id));
            }
      ]
    ]

create_wallet_failed :
    (owner : ℕ) (symbol address label : Text) (validated : Bool) (e : StoreError) (db : Db)
    → (create_wallet owner symbol address label validated db).0 ≡ err e
    → (create_wallet owner symbol address label validated db).1 ≡ db
unfolding create_wallet
create_wallet_failed owner symbol address label validated e db failed = ground arith

create_miner-IsHeld :
    (owner : ℕ) (symbol : Text) (p : CreateMinerParams) (db : Db)
    → IsHeld owner symbol db
    → IsHeld owner symbol (create_miner p db).1
unfolding create_miner
create_miner-IsHeld owner symbol p db k = record {
  currency = k.currency;
  known = ground (arith, k.known);
  wallet = k.wallet;
  held = ground (arith, k.held);
}

held_wallet_refused :
    (owner : ℕ) (symbol address label : Text) (validated : Bool) (db : Db)
    → IsHeld owner symbol db
    → create_wallet owner symbol address label validated db ≡ (err StoreError.conflict, db)
unfolding create_wallet
held_wallet_refused owner symbol address label validated db k =
    rw (k.known, k.held, create_wallet) refl

held_unseeded :
    (sub : ℕ) (allow_simulated : Bool) (db : Db)
    → IsHeld sub (codes "XMR") db
    → seed_test_data sub allow_simulated db ≡ db
unfolding seed_test_data
held_unseeded sub allow_simulated db k =
    let refused =
      held_wallet_refused sub (codes "XMR") demo_xmr (codes "demo (seeded)") true db k in
    elim (Bool-cases (sub == 0)) [
      | inl nobody ↦ rw nobody refl
      | inr user ↦ elim (Bool-cases (ltb 0 (length (list_miners sub db)))) [
        | inl has ↦ rw (user, has) refl
        | inr none_yet ↦ rw (user, none_yet, ap (λ r. r.0) refused) (ap (λ r. r.1) refused)
      ]
    ]

-- Seeding changes nothing, or leaves the user with the demo wallet.
seeded :
    (sub : ℕ) (allow_simulated : Bool) (db : Db)
    → (seed_test_data sub allow_simulated db ≡ db)
      ⊎ IsHeld sub (codes "XMR") (seed_test_data sub allow_simulated db)
unfolding seed_test_data
seeded sub allow_simulated db = elim (Bool-cases (sub == 0)) [
  | inl nobody ↦ inl (rw nobody refl)
  | inr user ↦ elim (Bool-cases (ltb 0 (length (list_miners sub db)))) [
    | inl has ↦ inl (rw (user, has) refl)
    | inr none_yet ↦
        elim (Result-cases
          (create_wallet sub (codes "XMR") demo_xmr (codes "demo (seeded)") true db).0) [
            | inr (x, failed) ↦ inl (
                rw (user, none_yet, failed)
                  (create_wallet_failed sub (codes "XMR") demo_xmr (codes "demo (seeded)") true x db
                    failed))
            | inl (w, made) ↦ inr (
                rw (user, none_yet, made)
                  (create_miner-IsHeld sub (codes "XMR") (demo_miner sub allow_simulated w) _ (
                    create_wallet-IsHeld sub (codes "XMR") demo_xmr (codes "demo (seeded)") true w
                      db made)))
          ]
  ]
]

-- Seeding is idempotent: a second start of the server with the same settings leaves the database as
-- the first start left it, whether or not the first start could store the wallet and the miner.
seed_twice :
    (sub : ℕ) (allow_simulated : Bool) (db : Db)
    → seed_test_data sub allow_simulated (seed_test_data sub allow_simulated db)
      ≡ seed_test_data sub allow_simulated db
seed_twice sub allow_simulated db = elim (seeded sub allow_simulated db) [
  | inl same ↦ ap (seed_test_data sub allow_simulated) same
  | inr held ↦ held_unseeded sub allow_simulated (seed_test_data sub allow_simulated db) held
]
