-- ===== src/Wallet/Chia.antt =====
-- The rule for Chia (wallet/validate.go).
use money_miner.Base.{
  ℕ, ◌+◌, ◌≡◌, ◌≢◌, true, none, some, List, [], ◌∷◌, arith, length, Text, codes, to_upper,
  trim_space, subst, Bool-cases, inl, inr, map,
}
use money_miner.Wallet.{
  Class, literal, bech32, match_from, match_string, chia, check_rule, validate, Verdict, rules,
  rule_of,
}

-- A match is as long as the lead and the body together.
match_from-length :
    (lead : List Class) (body : Class) (n : ℕ) (s : Text)
    → match_from lead body n (some n) s ≡ true
    → length s ≡ length lead + n
unfolding match_from
match_from-length [] body n s e = ground arith
match_from-length (cls ∷ lead) body n [] e = cc
match_from-length (cls ∷ lead) body n (c ∷ s) e = ground (arith, match_from-length lead body n s)

chia_refused : (s : Text) → check_rule chia s ≢ Verdict.valid
unfolding check_rule match_string
chia_refused s e =
    elim (Bool-cases (match_from (map literal (codes "xch1")) bech32 59 (some 59) s)) [
      | inl m ↦ let n = match_from-length (map literal (codes "xch1")) bech32 59 s m in ground arith
      | inr m ↦ ground arith
    ]

-- No text at all is a valid address for the symbol XCH, in either case of its letters.
chia_never :
    (symbol address : Text)
    → to_upper symbol ≡ codes "XCH"
    → validate symbol address ≢ Verdict.valid
unfolding validate rules rule_of
chia_never symbol address e v = chia_refused (trim_space address) (
    subst
      (λ t.
        elim (rule_of t rules) [
          | none ↦ Verdict.no_rule
          | some r ↦ check_rule r (trim_space address)
        ]
        ≡ Verdict.valid)
      e v)
