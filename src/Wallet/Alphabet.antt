-- ===== src/Wallet/Alphabet.antt =====
-- The characters of an accepted address (wallet/validate.go).
use money_miner.Base.{
  ℕ, ◌≡◌, ◌≤◌, Bool, true, some, List, [], ◌∷◌, arith, length, Text, to_upper, trim_space,
  Bool-cases, inl, inr, All, leb, ◌&&◌, ◌||◌, Option, refl, Option-cases, text_eq,
}
use money_miner.Wallet.{
  Class, in_class, all_in, Shape, Rule, match_from, match_string, check_rule, validate, Verdict,
  rules, rule_of,
}

-- ASCII digits, letters and the colon.
abbrev is_plain : ℕ → Bool
is_plain c = leb b'0' c && leb c b':' || leb b'A' c && leb c b'Z' || leb b'a' c && leb c b'z'

abbrev pub IsPlain : Text → Type 0
IsPlain s = All (λ c. is_plain c ≡ true) s

-- Every range of a class lies in one of the three.
plain_range : ℕ → ℕ → Bool
plain_range lo hi =
    leb b'0' lo && leb hi b':' || leb b'A' lo && leb hi b'Z' || leb b'a' lo && leb hi b'z'

plain_class : Class → Bool
unfolding plain_range
plain_class [] = true
plain_class ((lo, hi) ∷ rs) = plain_range lo hi && plain_class rs

plain_lead : List Class → Bool
unfolding plain_class
plain_lead [] = true
plain_lead (cls ∷ lead) = plain_class cls && plain_lead lead

plain_shapes : List Shape → Bool
unfolding plain_lead
plain_shapes [] = true
plain_shapes (p ∷ ps) = (plain_lead p.lead && plain_class p.body) && plain_shapes ps

plain_rules : List (Text × Rule) → Bool
unfolding plain_shapes
plain_rules [] = true
plain_rules ((_, r) ∷ rs) = plain_shapes r.re && plain_rules rs

rules_plain : plain_rules rules ≡ true
unfolding rules plain_rules
rules_plain = refl

in_plain :
    (cls : Class) (c : ℕ) → plain_class cls ≡ true → in_class cls c ≡ true → is_plain c ≡ true
unfolding plain_class
in_plain [] c p e = cc
in_plain ((lo, hi) ∷ rs) c p e = ground (arith, in_plain rs c)

all_in-IsPlain : (cls : Class) (s : Text) → plain_class cls ≡ true → all_in cls s ≡ true → IsPlain s
unfolding all_in
all_in-IsPlain cls [] p e = tt
all_in-IsPlain cls (c ∷ s) p e =
    (in_plain cls c p (ground arith), all_in-IsPlain cls s p (ground arith))

match_from-IsPlain :
    (lead : List Class) (body : Class) (lo : ℕ) (hi : Option ℕ) (s : Text)
    → plain_lead lead ≡ true
    → plain_class body ≡ true
    → match_from lead body lo hi s ≡ true
    → IsPlain s
unfolding match_from plain_lead
match_from-IsPlain [] body lo hi s p q e = all_in-IsPlain body s q (ground arith)
match_from-IsPlain (cls ∷ lead) body lo hi [] p q e = tt
match_from-IsPlain (cls ∷ lead) body lo hi (c ∷ s) p q e = (
  in_plain cls c (ground arith) (ground arith),
  match_from-IsPlain lead body lo hi s (ground arith) q (ground arith),
)

match_string-IsPlain :
    (ps : List Shape) (s : Text) → plain_shapes ps ≡ true → match_string ps s ≡ true → IsPlain s
unfolding plain_shapes match_string
match_string-IsPlain [] s p e = cc
match_string-IsPlain (q ∷ ps) s p e = elim (Bool-cases (match_from q.lead q.body q.lo q.hi s)) [
  | inl m ↦ match_from-IsPlain q.lead q.body q.lo q.hi s (ground arith) (ground arith) m
  | inr m ↦ match_string-IsPlain ps s (ground arith) (ground arith)
]

rule_plain :
    (symbol : Text) (rs : List (Text × Rule)) (r : Rule)
    → plain_rules rs ≡ true
    → rule_of symbol rs ≡ some r
    → plain_shapes r.re ≡ true
unfolding plain_rules rule_of
rule_plain symbol [] r p e = cc
rule_plain symbol ((t, q) ∷ rs) r p e = elim (Bool-cases (text_eq t symbol)) [
  | inl m ↦ ground arith
  | inr m ↦ rule_plain symbol rs r (ground arith) (ground arith)
]

check_rule-IsPlain :
    (r : Rule) (s : Text)
    → plain_shapes r.re ≡ true
    → check_rule r s ≡ Verdict.valid
    → IsPlain s × r.min_l ≤ length s × length s ≤ r.max_l
unfolding check_rule
check_rule-IsPlain r s p e = elim (Bool-cases (match_string r.re s)) [
  | inl m ↦ (match_string-IsPlain r.re s p m, ground arith, ground arith)
  | inr m ↦ absurd (ground arith)
]

-- An accepted address, trimmed, has digits, ASCII letters and colons only, and its length is within
-- the bounds of a rule that the upper case symbol has.
validate-IsPlain :
    (symbol address : Text)
    → validate symbol address ≡ Verdict.valid
    → IsPlain (trim_space address)
      × ((r : Rule) × (rule_of (to_upper symbol) rules ≡ some r)
          × r.min_l ≤ length (trim_space address)
          × length (trim_space address) ≤ r.max_l)
unfolding validate
validate-IsPlain symbol address e = elim (Option-cases (rule_of (to_upper symbol) rules)) [
  | inl n ↦ absurd (ground arith)
  | inr (r, f) ↦
      let (plain, low, high) =
        check_rule-IsPlain r (trim_space address)
          (rule_plain (to_upper symbol) rules r rules_plain f) (rw (f, validate) at e) in
      (plain, (r, f, low, high))
]
