-- ===== src/Worker/Backoff.antt =====
-- The reconnect delay (`cmdRun` of cmd/worker/main.go).
use money_miner.Base.{ℕ, suc, zero, ◌^◌, ◌≡◌, ◌<◌, arith, if◌then◌else◌, leb, refl, ◌∙◌}
use money_miner.Worker.{next_backoff, backoff_after}

sixty_next : (b : ℕ) → b ≡ 60 → next_backoff b ≡ 60
unfolding next_backoff
sixty_next b e = ground arith

after_one_more : (n : ℕ) → backoff_after (suc n) ≡ next_backoff (backoff_after n)
unfolding backoff_after
after_one_more n = refl

sixty_at_six : backoff_after 6 ≡ 60
unfolding backoff_after next_backoff
sixty_at_six = refl

stays_at_sixty : (k : ℕ) → backoff_after (suc (suc (suc (suc (suc (suc k)))))) ≡ 60
stays_at_sixty zero = sixty_at_six
stays_at_sixty (suc k) =
    let n = suc (suc (suc (suc (suc (suc k))))) in
    after_one_more n ∙ sixty_next (backoff_after n) (stays_at_sixty k)

beyond_five : (n : ℕ) → 5 < n → 60 ≡ (if leb n 5 then 2 ^ n else 60)
beyond_five n h = ground arith

-- The delay doubles from one second up to sixty, and stays there: a connection that held in between
-- does not bring it down.
backoff_after_closed : (n : ℕ) → backoff_after n ≡ (if leb n 5 then 2 ^ n else 60)
unfolding backoff_after next_backoff
backoff_after_closed zero = refl
backoff_after_closed (suc zero) = refl
backoff_after_closed (suc (suc zero)) = refl
backoff_after_closed (suc (suc (suc zero))) = refl
backoff_after_closed (suc (suc (suc (suc zero)))) = refl
backoff_after_closed (suc (suc (suc (suc (suc zero))))) = refl
backoff_after_closed (suc (suc (suc (suc (suc (suc k)))))) =
    stays_at_sixty k ∙ beyond_five (suc (suc (suc (suc (suc (suc k)))))) (omega arith)
