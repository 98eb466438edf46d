-- ===== src/Swarm/Hub/Assignment/Choice.antt =====
-- Which worker Assign takes (swarm/hub.go).
use money_miner.Base.{
  ℕ, ◌≡◌, ◌≤◌, refl, true, false, Option, none, some, List, [], ◌∷◌, arith, if◌then◌else◌, length,
  All, Bool-cases, inl, inr, ◌⊎◌, ◌&&◌, ◌*◌,
}
use mathlib.Core.List.{Memᴰ}
use money_miner.Swarm.Hub.State.{Hub, LiveWorker}
use money_miner.Swarm.Hub.Assignment.{eligible, fewer_jobs, choose, threads_for}

module _ (owner : ℕ) (h : Hub) where
  -- No eligible entry of the list has fewer jobs than the target, and without a target none is
  -- eligible.
  abbrev pub NoneBetter : Option LiveWorker → ℕ × LiveWorker → Type 0
  NoneBetter none e = eligible owner h e ≡ false
  NoneBetter (some t) e = eligible owner h e ≡ true → length t.jobs ≤ length e.1.jobs

  -- The target is the one to begin with or an eligible entry of the list.
  abbrev pub ComesFrom : List (ℕ × LiveWorker) → Option LiveWorker → Option LiveWorker → Type 0
  ComesFrom es start none = start ≡ none
  ComesFrom es start (some t) =
      (start ≡ some t)
      ⊎ ((e : ℕ × LiveWorker) × Memᴰ e es × (eligible owner h e ≡ true) × (e.1 ≡ t))

  abbrev NotWorse : Option LiveWorker → Option LiveWorker → Type 0
  NotWorse none t = Unit
  NotWorse (some s) none = ⊥
  NotWorse (some s) (some t) = length t.jobs ≤ length s.jobs

  abbrev next : Option LiveWorker → ℕ × LiveWorker → Option LiveWorker
  next start e = if eligible owner h e && fewer_jobs start e.1 then some e.1 else start

  next-NotWorse : (start : Option LiveWorker) (e : ℕ × LiveWorker) → NotWorse start (next start e)
  next-NotWorse none e = tt
  next-NotWorse (some s) e = elim (Bool-cases (eligible owner h e && fewer_jobs (some s) e.1)) [
    | inl taken ↦ rw taken (ground arith)
    | inr passed ↦ rw passed (omega arith)
  ]

  next-NoneBetter : (start : Option LiveWorker) (e : ℕ × LiveWorker) → NoneBetter (next start e) e
  next-NoneBetter none e = elim (Bool-cases (eligible owner h e)) [
    | inl taken ↦ rw taken (λ _. omega arith)
    | inr passed ↦ rw passed passed
  ]
  next-NoneBetter (some s) e = elim (Bool-cases (eligible owner h e)) [
    | inl yes_it_is ↦ elim (Bool-cases (fewer_jobs (some s) e.1)) [
      | inl taken ↦ rw (yes_it_is, taken) (λ _. omega arith)
      | inr passed ↦ rw (yes_it_is, passed) (λ _. ground arith)
    ]
    | inr passed ↦ rw passed (λ c. cc)
  ]

  NotWorse-trans : (s t u : Option LiveWorker) → NotWorse s t → NotWorse t u → NotWorse s u
  NotWorse-trans none t u p q = tt
  NotWorse-trans (some s) (some t) (some u) p q = omega arith
  NotWorse-trans (some s) none u p q = absurd p
  NotWorse-trans (some s) (some t) none p q = absurd q

  NoneBetter-trans :
      (s t : Option LiveWorker) (e : ℕ × LiveWorker)
      → NoneBetter s e
      → NotWorse s t
      → NoneBetter t e
  NoneBetter-trans none none e p q = p
  NoneBetter-trans none (some t) e p q = λ c. cc
  NoneBetter-trans (some s) none e p q = absurd q
  NoneBetter-trans (some s) (some t) e p q = λ c. omega (arith, p c)

  choose-NotWorse :
      (es : List (ℕ × LiveWorker)) (start : Option LiveWorker)
      → NotWorse start (choose owner h es start)
  unfolding choose
  choose-NotWorse [] none = tt
  choose-NotWorse [] (some s) = omega arith
  choose-NotWorse (e ∷ es) start =
      NotWorse-trans start (next start e) (choose owner h es (next start e)) (next-NotWorse start e)
        (choose-NotWorse es (next start e))

  choose-NoneBetter :
      (es : List (ℕ × LiveWorker)) (start : Option LiveWorker)
      → All (NoneBetter (choose owner h es start)) es
  unfolding choose
  choose-NoneBetter [] start = tt
  choose-NoneBetter (e ∷ es) start = (
    NoneBetter-trans (next start e) (choose owner h es (next start e)) e (next-NoneBetter start e)
        (choose-NotWorse es (next start e)),
    choose-NoneBetter es (next start e),
  )

  -- The same for one entry more in front.
  ComesFrom-cons :
      (e : ℕ × LiveWorker) (es : List (ℕ × LiveWorker)) (start result : Option LiveWorker)
      → ComesFrom es (next start e) result
      → ComesFrom (e ∷ es) start result
  ComesFrom-cons e es start none c =
      elim (Bool-cases (eligible owner h e && fewer_jobs start e.1)) [
        | inl taken ↦ absurd (ground arith)
        | inr passed ↦ rw passed at c
      ]
  ComesFrom-cons e es start (some t) (inr (d, listed, fit, same)) =
      inr (d, Memᴰ.tail listed, fit, same)
  ComesFrom-cons e es start (some t) (inl c) =
      elim (Bool-cases (eligible owner h e && fewer_jobs start e.1)) [
        | inl taken ↦ inr (e, Memᴰ.head refl, ground arith, ground arith)
        | inr passed ↦ inl (rw passed at c)
      ]

  choose-ComesFrom :
      (es : List (ℕ × LiveWorker)) (start : Option LiveWorker)
      → ComesFrom es start (choose owner h es start)
  unfolding choose
  choose-ComesFrom [] none = refl
  choose-ComesFrom [] (some s) = inl refl
  choose-ComesFrom (e ∷ es) start =
      ComesFrom-cons e es start (choose owner h es (next start e))
        (choose-ComesFrom es (next start e))

-- The loop of Assign, in whatever order it meets the live workers: its target is an eligible one
-- with the fewest jobs, and it has none only where no live worker is eligible.
pub choose_least :
    (owner : ℕ) (h : Hub)
    → ComesFrom owner h h.live none (choose owner h h.live none)
      × All (NoneBetter owner h (choose owner h h.live none)) h.live
choose_least owner h = (choose-ComesFrom owner h h.live none, choose-NoneBetter owner h h.live none)

percent_le : (cores cpu_pct : ℕ) → cpu_pct ≤ 100 → cores * cpu_pct ≤ cores * 100
percent_le cores cpu_pct h = grind arith

-- A job gets at least one thread, and with 1 to 100 percent never more than the worker has cores.
threads_for_bounds :
    (cores cpu_pct : ℕ)
    → 1 ≤ cpu_pct
    → cpu_pct ≤ 100
    → (1 ≤ threads_for cores cpu_pct) × ((1 ≤ cores) → threads_for cores cpu_pct ≤ cores)
unfolding threads_for
threads_for_bounds cores cpu_pct low high =
    (ground arith, λ some_core. ground (arith, percent_le cores cpu_pct high))
