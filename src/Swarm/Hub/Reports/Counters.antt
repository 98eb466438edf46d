-- ===== src/Swarm/Hub/Reports/Counters.antt =====
-- The counters of a job: from the cumulative numbers of the engine to increments and totals.
use money_miner.Base.{◌+◌, ◌≡◌, refl, List, [], ◌∷◌}
use money_miner.Base.Int.{ℤ, pos, pos_part, neg_part, ◌+ℤ◌, ◌≤ℤ◌, int_laws}
use money_miner.Swarm.Hub.State.{JobState}
use money_miner.Swarm.Hub.Reports.{delta, count_report}

-- The reports of one job, in the order in which they arrive.
abbrev pub count_reports : List (ℤ × ℤ) → JobState → JobState
count_reports [] js = js
count_reports ((acc, rej) ∷ rs) js = count_reports rs (count_report acc rej js)

-- Cumulative counters that never fall, from `last` on.
abbrev Rising : ℤ → List (ℤ × ℤ) → Type 0
Rising last [] = Unit
Rising last ((acc, _) ∷ rs) = (last ≤ℤ acc) × Rising acc rs

parts : (a b : ℤ) → a ≡ b → pos_part a + neg_part b ≡ pos_part b + neg_part a
parts a b e = rw e

delta_rising : (now last : ℤ) → last ≤ℤ now → delta now last +ℤ last ≡ now
unfolding delta
delta_rising now last h = grind int_laws

counted :
    (acc rej : ℤ) (js : JobState)
    → ((count_report acc rej js).tot_acc ≡ js.tot_acc +ℤ delta acc js.last_acc)
      × ((count_report acc rej js).last_acc ≡ acc)
unfolding count_report
counted acc rej js = (refl, refl)

kept :
    (acc rej : ℤ) (js : JobState) (rs : List (ℤ × ℤ))
    → Rising acc rs
    → Rising (count_report acc rej js).last_acc rs
unfolding count_report
kept acc rej js rs h = h

-- While the engine runs, the total of accepted shares grows by exactly what the engine's counter
-- has grown, however many reports there are.
pub totals_telescope :
    (rs : List (ℤ × ℤ)) (js : JobState)
    → Rising js.last_acc rs
    → (count_reports rs js).tot_acc +ℤ js.last_acc ≡ js.tot_acc +ℤ (count_reports rs js).last_acc
totals_telescope [] js h = refl
totals_telescope ((acc, rej) ∷ rs) js (up, h) =
    let js' = count_report acc rej js in
    let final = count_reports rs js' in
    let later = totals_telescope rs js' (kept acc rej js rs h) in
    omega (
      int_laws,
      parts (delta acc js.last_acc +ℤ js.last_acc) acc (delta_rising acc js.last_acc up),
      parts (final.tot_acc +ℤ js'.last_acc) (js'.tot_acc +ℤ final.last_acc) later,
      parts js'.tot_acc (js.tot_acc +ℤ delta acc js.last_acc) (counted acc rej js).0,
      parts js'.last_acc acc (counted acc rej js).1,
    )

-- An increment of a counter that is not negative is not negative, also after a restart, and is
-- never more than the counter if the last one was not negative.
delta_bounds :
    (now last : ℤ)
    → pos 0 ≤ℤ now
    → pos 0 ≤ℤ last
    → (pos 0 ≤ℤ delta now last) × (delta now last ≤ℤ now)
unfolding delta
delta_bounds now last h k = (grind int_laws, grind int_laws)
