-- ===== src/Swarm/Code/Fuel.antt =====
-- The inner loop of GenerateCode and its fuel (swarm/codes.go).
use money_miner.Base.{
  ℕ, zero, suc, ◌-◌, ◌/◌, ◌%◌, ◌^◌, ◌≡◌, ◌≤◌, ◌<◌, ◌⊎◌, refl, true, [], ◌∷◌, ◌++◌, ltb, ◌==◌,
  length, Text, arith, Bool-cases, inl, inr,
}
use money_miner.Swarm.Code.{drain, symbol_at}

-- Where the loop is when it ends: fewer than five bits are left, or the code has ten characters.
abbrev pub IsDone : ℕ × Text → Type 0
IsDone (bits, sb) = (bits < 5) ⊎ (length sb ≡ 10)

few_bits : (n acc bits : ℕ) (sb : Text) → bits < 5 → drain n acc bits sb ≡ (bits, sb)
unfolding drain
few_bits zero acc bits sb few = refl
few_bits (suc n) acc bits sb few =
    let test : ltb bits 5 ≡ true = ground arith in rw (test, drain) refl

no_bits :
    (n m acc bits : ℕ) (sb : Text)
    → bits < 5
    → IsDone (drain n acc bits sb) × (drain n acc bits sb ≡ drain m acc bits sb)
no_bits n m acc bits sb few =
    rw (few_bits n acc bits sb few, few_bits m acc bits sb few) (inl few, refl)

-- As many rounds of fuel as there are bits are enough: the loop then ends on its own conditions, and
-- more fuel changes nothing.
pub drain_ends :
    (n m acc bits : ℕ) (sb : Text)
    → bits ≤ n
    → bits ≤ m
    → IsDone (drain n acc bits sb) × (drain n acc bits sb ≡ drain m acc bits sb)
unfolding drain
drain_ends zero m acc bits sb le le' = no_bits zero m acc bits sb (omega (arith, le))
drain_ends (suc n) zero acc bits sb le le' = no_bits (suc n) zero acc bits sb (omega (arith, le'))
drain_ends (suc n) (suc m) acc bits sb le le' =
    let left = bits - 5 in
    let sb' = sb ++ symbol_at (acc / 2 ^ left % 32) ∷ [] in
    elim (Bool-cases (ltb bits 5)) [
      | inl few ↦ no_bits (suc n) (suc m) acc bits sb (ground arith)
      | inr more ↦ elim (Bool-cases (length sb' == 10)) [
        | inl full ↦ rw (more, full, drain) (inr (ground arith), refl)
        | inr short ↦
            let (done, same) = drain_ends n m acc left sb' (ground arith) (ground arith) in
            rw (more, short, drain) (done, same)
      ]
    ]
