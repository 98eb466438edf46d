-- ===== src/Tests/BootTests.antt =====
-- The start of the server under a small environment, and the demo wallet.
use money_miner.Base.{
  ◌≡◌, refl, true, none, [], codes, text_eq, if◌then◌else◌, to_upper, trim_space,
}
use money_miner.Wallet.{Verdict, validate}
use money_miner.Config.{Environment, config_of, load}
use money_miner.Boot.{Start, serves, main, demo_xmr}
use money_miner.Api.Query.{digits}

-- The address that is seeded as validated has 94 bytes, and the rule asks for 95.
demo_xmr_refused : validate (codes "XMR") demo_xmr ≡ Verdict.bad_length
unfolding validate to_upper trim_space
demo_xmr_refused = refl

abbrev only_database : Environment
only_database = record {
  getenv = λ key. if text_eq key (codes "MM_DATABASE_URL") then codes "pg" else [];
  parse_duration = λ s. none;
}

only_database_serves :
    main (codes "1.0") only_database (λ url. true) (λ address. true)
    ≡ serves (record (config_of only_database) { version = codes "1.0" })
unfolding main load digits
only_database_serves = refl

-- An interval of 0, as MM_RETENTION_INTERVAL=0 gives it, and the panic of its ticker.
abbrev no_interval : Environment
no_interval = record {
  getenv = λ key.
      if text_eq key (codes "MM_DATABASE_URL")
      then codes "pg"
      else (if text_eq key (codes "MM_RETENTION_INTERVAL") then codes "0" else []);
  parse_duration = λ s. none;
}

zero_interval_panics : main (codes "1.0") no_interval (λ url. true) (λ address. true) ≡ Start.panics
unfolding main load digits
zero_interval_panics = refl
