-- ===== src/Tests/CodeTests.antt =====
-- Join codes, enrollment and tokens on concrete inputs.
use money_miner.Base.{
  ◌^◌, ◌+◌, ◌≡◌, ◌↔◌, ◌⊎◌, refl, true, false, none, some, [], ◌∷◌, arith, codes, find, to_lower,
  ◌≤◌,
}
use money_miner.Store.Db.{Db}
use money_miner.Store.Types.{is_browser, Kind, Worker}
use money_miner.Store.Workers.{delete_worker}
use money_miner.Swarm.Code.Fuel.{IsDone, drain_ends}
use money_miner.Swarm.Code.{drain, normalize_code, generate_code, dashed, symbol_at}
use money_miner.Swarm.Code.Digits.{big_endian, ten_digits}
use money_miner.Swarm.Code.RoundTrip.{normalize-generate}
use money_miner.Swarm.Codes.{
  done, invalid, failed, row_fits, candidate, redeem, enroll, check_code, authenticate_worker,
  browser_token_ttl, hash_token,
}
use money_miner.Swarm.Codes.SingleUse.{
  redeem_once, check_code_iff, enroll_all_or_nothing, delete_worker_reopens, is_done, Enrolled,
}
use money_miner.Swarm.Codes.Tokens.{authenticate_sound, has_token}
use money_miner.Tests.Fixtures.{base_db, open_code, plain_crypto, native_hw}

generated : generate_code (some (1 ∷ 2 ∷ 3 ∷ 4 ∷ 5 ∷ 6 ∷ 7 ∷ [])) ≡ some (codes "0410-6105-0R")
unfolding generate_code dashed symbol_at
generated = refl

normalized : normalize_code (codes "o410-6i05 0r") ≡ codes "041061050R"
unfolding normalize_code
normalized = refl

normalize-generate_example :
    let t = codes "0410-6105-0R" in
    let n = big_endian 1 2 3 4 5 6 7 in
    (t ≡ dashed (ten_digits n))
    × (normalize_code t ≡ ten_digits n)
    × (normalize_code (to_lower t) ≡ ten_digits n)
normalize-generate_example =
    normalize-generate 1 2 3 4 5 6 7 (omega arith) (omega arith) (omega arith) (omega arith)
      (omega arith) (omega arith) (omega arith) (codes "0410-6105-0R") generated

-- The lowest six bits do not show.
generated_again :
    generate_code (some (1 ∷ 2 ∷ 3 ∷ 4 ∷ 5 ∷ 6 ∷ 8 ∷ [])) ≡ some (codes "0410-6105-0R")
unfolding generate_code dashed symbol_at
generated_again = refl

redeemed :
    (redeem open_code (codes "n") native_hw (codes "tok", codes "tok") base_db).0
    ≡ done (record { worker_id = 50; worker_token = codes "tok"; owner = 1 })
unfolding redeem
redeemed = refl

redeem_once_example :
    let db' = (redeem open_code (codes "n") native_hw (codes "tok", codes "tok") base_db).1 in
    let later = record db' { clock = db'.clock + 3; workers = [] } in
    redeem open_code (codes "other") native_hw (codes "t2", codes "t2") later ≡ (invalid, later)
unfolding row_fits redeem
redeem_once_example =
    let db' = (redeem open_code (codes "n") native_hw (codes "tok", codes "tok") base_db).1 in
    redeem_once open_code (codes "n") (codes "other") native_hw native_hw (codes "tok", codes "tok")
      (codes "t2", codes "t2") base_db (record db' { clock = db'.clock + 3; workers = [] })
      (record { worker_id = 50; worker_token = codes "tok"; owner = 1 }) redeemed refl (omega arith)

fits_row : row_fits (codes "n") native_hw ≡ true
unfolding row_fits
fits_row = refl

-- A machine with too many cores is refused by the column.
too_many_cores :
    redeem open_code
      (codes "n")
      (record native_hw { cpu_cores = 2 ^ 31 })
      (codes "t", codes "t")
      base_db
    ≡ (failed, base_db)
unfolding redeem
too_many_cores = refl

check_code_iff_example : (check_code plain_crypto (codes "01234-56789") base_db ≡ done tt) ↔ (
    is_done
      (enroll plain_crypto
        (λ d. d)
        (codes "01234-56789")
        (codes "n")
        native_hw
        (some (codes "tok"))
        base_db).0
    ≡ true)
check_code_iff_example =
    check_code_iff plain_crypto (codes "01234-56789") (codes "n") native_hw (codes "tok") base_db
      fits_row

checked : check_code plain_crypto (codes "o1234-56789") base_db ≡ done tt
unfolding check_code candidate normalize_code
checked = refl

enroll_all_or_nothing_example :
    let (r, db') =
      enroll plain_crypto
        (λ d. d)
        (codes "01234-56789")
        (codes "n")
        native_hw
        (some (codes "tok"))
        base_db in
    ((is_done r ≡ false) × ((db' ≡ base_db) ⊎ (db' ≡ base_db)))
    ⊎ ((c : _) × (candidate plain_crypto (normalize_code (codes "01234-56789")) base_db ≡ some c)
        × Enrolled plain_crypto c (codes "n") native_hw (some (codes "tok")) base_db r db')
enroll_all_or_nothing_example =
    enroll_all_or_nothing plain_crypto (λ d. d) (codes "01234-56789") (codes "n") native_hw
      (some (codes "tok")) base_db

delete_worker_reopens_example :
    let enrolled = (redeem open_code (codes "n") native_hw (codes "tok", codes "tok") base_db).1 in
    check_code plain_crypto (codes "01234-56789") (delete_worker 1 50 enrolled).1 ≡ done tt
unfolding normalize_code candidate
delete_worker_reopens_example =
    delete_worker_reopens plain_crypto (codes "01234-56789") (codes "n") native_hw
      (codes "tok", codes "tok") open_code base_db refl refl

authenticated : authenticate_worker plain_crypto (codes "aa") base_db ≡ done (20, 1, Kind.native)
unfolding authenticate_worker hash_token
authenticated = refl

authenticate_sound_example :
    (w : Worker) × (find (has_token plain_crypto (codes "aa")) base_db.workers ≡ some w)
    × (w.id ≡ 20)
    × (w.owner ≡ 1)
    × (w.kind ≡ Kind.native)
    × (w.revoked_at ≡ none)
    × ((is_browser w.kind ≡ false) ⊎ (base_db.clock ≤ w.enrolled_at + browser_token_ttl))
authenticate_sound_example =
    authenticate_sound plain_crypto (codes "aa") base_db 20 1 Kind.native authenticated

drain_ends_example : IsDone (drain 12 2748 12 []) × (drain 12 2748 12 [] ≡ drain 99 2748 12 [])
drain_ends_example = drain_ends 12 99 2748 12 [] (omega arith) (omega arith)
