-- ===== src/Tests/StratumTests.antt =====
-- A stratum connection with two calls.
use money_miner.Base.{ℕ, ◌≡◌, ◌++◌, refl, true, none, some, [], ◌∷◌, codes}
use money_miner.Base.Int.{pos}
use money_miner.Base.Map.{lookup}
use money_miner.Stratum.{Client, RpcResp, written, new_client, fail_all}
use money_miner.Stratum.Calls.{
  Run, breaks, take_number, register, write, Reach, start, next, takes_number, registers, writes,
}
use money_miner.Stratum.Calls.Matched.{IsMatched, Reach-IsMatched}
use money_miner.Stratum.Calls.Answered.{fail_all_wakes, late_calls_starve}
use money_miner.Stratum.Dial.{dial_target}
use money_miner.Stratum.Dial.RoundTrip.{stratum_ssl, scheme_text, uses_tls, dial_target_back}

abbrev waiting : Client
waiting =
    write 1 (codes "mining.subscribe") (codes "ua" ∷ []) true
      (register 1 (take_number new_client).1)

waiting-Reach : Reach waiting
unfolding take_number register
waiting-Reach =
    next (next (next start takes_number) (registers 1 refl))
      (writes 1 (codes "mining.subscribe") (codes "ua" ∷ []) true refl)

waits : lookup 1 waiting.calls ≡ some written
unfolding take_number register write
waits = refl

has_channel : lookup 1 waiting.pending ≡ some 1
unfolding take_number register write
has_channel = refl

Reach-IsMatched_example : IsMatched waiting
Reach-IsMatched_example = Reach-IsMatched waiting waiting-Reach

fail_all_wakes_example :
    (r : RpcResp) × (lookup 1 (fail_all (codes "EOF") waiting).boxes ≡ some r) × (r.id ≡ pos 1)
fail_all_wakes_example = fail_all_wakes (codes "EOF") waiting 1 waiting-Reach waits

abbrev broken_client : Client
broken_client = fail_all (codes "EOF") new_client

late_calls_starve_example :
    ((c' : Client) → Run (take_number broken_client).1 c' → lookup 1 c'.boxes ≡ none)
    × ((k : ℕ) (c' : Client)
        → lookup k broken_client.boxes ≡ none
        → Run broken_client c'
        → lookup k c'.boxes ≡ none)
unfolding take_number fail_all
late_calls_starve_example =
    late_calls_starve broken_client (next start (breaks (codes "EOF") refl)) refl

dial_target_back_example :
    dial_target (scheme_text stratum_ssl ++ codes "p:443")
    ≡ some (uses_tls stratum_ssl, codes "p:443")
dial_target_back_example =
    dial_target_back stratum_ssl b'p' (codes ":443")
      (record { no_stratum = refl; no_tcp = refl; no_ssl = refl; no_tls = refl })
