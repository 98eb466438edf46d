-- ===== src/Swarm/Code/RoundTrip.antt =====
-- Typing a generated code back in (GenerateCode and NormalizeCode of swarm/codes.go).
use money_miner.Base.{
  ℕ, zero, suc, ◌/◌, ◌%◌, ◌^◌, ◌<◌, ◌≡◌, refl, sym, Bool, true, false, ◌&&◌, some, [], ◌∷◌, ◌++◌,
  ◌==◌, arith, if◌then◌else◌, Text, All, ◌∙◌, ap, ==_iff, select-append, upper, to_lower,
  Bool-cases, inl, inr, take, drop,
}
use mathlib.Core.List.{map-append}
use money_miner.Swarm.Code.{
  symbol_at, dashed, generate_code, normalize_code, is_kept, unambiguous, crockford,
}
use money_miner.Swarm.Code.Digits.{big_endian, digit, ten_digits, encode-ten_digits}

-- A test holds for each of the first values, and is seen to by running it.
holds_to : (ℕ → Bool) → ℕ → Bool
holds_to test zero = true
holds_to test (suc m) = if test m then holds_to test m else false

holds_to_lem : (test : ℕ → Bool) (m i : ℕ) → holds_to test m ≡ true → i < m → test i ≡ true
unfolding holds_to
holds_to_lem test zero i all below = absurd (omega arith)
holds_to_lem test (suc m) i all below = elim (Bool-cases (i == m)) [
  | inl same ↦ let e = (==_iff i m).0 same in ground arith
  | inr differ ↦ ground (arith, holds_to_lem test m i)
]

-- A character that normalising keeps as it is.
abbrev is_plain : ℕ → Bool
is_plain c = is_kept c && unambiguous (upper c) == c

symbols_plain : holds_to (λ i. is_plain (symbol_at i)) 32 ≡ true
unfolding holds_to symbol_at
symbols_plain = refl

digit_plain : (n k : ℕ) → is_plain (digit n k) ≡ true
unfolding digit
digit_plain n k =
    holds_to_lem (λ i. is_plain (symbol_at i)) 32 (n / 2 ^ k % 32) symbols_plain (omega arith)

normalize-append : (s t : Text) → normalize_code (s ++ t) ≡ normalize_code s ++ normalize_code t
unfolding normalize_code
normalize-append s t = simp (select-append, map-append)

normalize_of_plain : (s : Text) → All (λ c. is_plain c ≡ true) s → normalize_code s ≡ s
unfolding normalize_code
normalize_of_plain [] a = refl
normalize_of_plain (c ∷ s) (h, a) = ground (arith, normalize_of_plain s a)

ten_digits_plain : (n : ℕ) → All (λ c. is_plain c ≡ true) (ten_digits n)
ten_digits_plain n =
    let p = digit_plain n in
    (p 51, (p 46, (p 41, (p 36, (p 31, (p 26, (p 21, (p 16, (p 11, (p 6, tt))))))))))

normalize-dash : (s : Text) → normalize_code (b'-' ∷ s) ≡ normalize_code s
unfolding normalize_code
normalize-dash s = refl

take_plain :
    (n : ℕ) (s : Text)
    → All (λ c. is_plain c ≡ true) s
    → All (λ c. is_plain c ≡ true) (take n s) × All (λ c. is_plain c ≡ true) (drop n s)
take_plain zero s a = (tt, a)
take_plain (suc n) [] a = (tt, tt)
take_plain (suc n) (c ∷ s) (h, a) = let (t, d) = take_plain n s a in ((h, t), d)

-- Lower case letters do not matter.
normalize-to_lower : (s : Text) → normalize_code (to_lower s) ≡ normalize_code s
unfolding normalize_code to_lower
normalize-to_lower [] = refl
normalize-to_lower (c ∷ s) = ground (arith, normalize-to_lower s)

normalize-dashed :
    (s : Text)
    → All (λ c. is_plain c ≡ true) s
    → normalize_code (dashed s) ≡ take 4 s ++ (take 4 (drop 4 s) ++ take 2 (drop 8 s))
unfolding dashed
normalize-dashed s a =
    let part = λ (n : ℕ) (t : Text) (h : All (λ c. is_plain c ≡ true) t).
      normalize_of_plain (take n t) (take_plain n t h).0 in
    simp (
      normalize-append,
      normalize-dash,
      part 4 s a,
      part 4 (drop 4 s) (take_plain 4 s a).1,
      part 2 (drop 8 s) (take_plain 8 s a).1,
    )

module _ (b0 b1 b2 b3 b4 b5 b6 : ℕ) (h0 : b0 < 256) (h1 : b1 < 256) (h2 : b2 < 256) (h3 : b3 < 256)
    (h4 : b4 < 256) (h5 : b5 < 256) (h6 : b6 < 256) where
  generate_digits :
      generate_code (some (b0 ∷ b1 ∷ b2 ∷ b3 ∷ b4 ∷ b5 ∷ b6 ∷ []))
      ≡ some (dashed (ten_digits (big_endian b0 b1 b2 b3 b4 b5 b6)))
  unfolding generate_code
  generate_digits =
      ap (λ s. some (dashed (take 10 s)))
        (encode-ten_digits b0 b1 b2 b3 b4 b5 b6 h0 h1 h2 h3 h4 h5 h6)

  -- A code generated from seven random bytes is the first ten base-32 digits of the bytes, with
  -- dashes; normalising it, as typed or in lower case, gives the ten digits back.
  pub normalize-generate :
      (t : Text)
      → generate_code (some (b0 ∷ b1 ∷ b2 ∷ b3 ∷ b4 ∷ b5 ∷ b6 ∷ [])) ≡ some t
      → (t ≡ dashed (ten_digits (big_endian b0 b1 b2 b3 b4 b5 b6)))
        × (normalize_code t ≡ ten_digits (big_endian b0 b1 b2 b3 b4 b5 b6))
        × (normalize_code (to_lower t) ≡ ten_digits (big_endian b0 b1 b2 b3 b4 b5 b6))
  normalize-generate t e =
      let n = big_endian b0 b1 b2 b3 b4 b5 b6 in
      let same : t ≡ dashed (ten_digits n) = cc generate_digits in
      let back = normalize-dashed (ten_digits n) (ten_digits_plain n) in
      (same, ap normalize_code same ∙ back, normalize-to_lower t ∙ ap normalize_code same ∙ back)

-- What becomes of one character that is kept.
normal : ℕ → ℕ
normal c = unambiguous (upper c)

normal_plain : (c : ℕ) → is_kept c ≡ true → is_plain (normal c) ≡ true
unfolding normal
normal_plain c h = ground arith

normalize-cons :
    (c : ℕ) (s : Text)
    → normalize_code (c ∷ s) ≡ (if is_kept c then normal c ∷ normalize_code s else normalize_code s)
unfolding normalize_code normal
normalize-cons c s = elim (Bool-cases (is_kept c)) [ inl h ↦ rw h | inr h ↦ rw h ]

normalize_plain : (s : Text) → All (λ c. is_plain c ≡ true) (normalize_code s)
normalize_plain [] = unfold normalize_code in tt
normalize_plain (c ∷ s) = elim (Bool-cases (is_kept c)) [
  | inl h ↦ rw (normalize-cons c s, h) (normal_plain c h, normalize_plain s)
  | inr h ↦ rw (normalize-cons c s, h) (normalize_plain s)
]

-- Normalising twice is normalising once, for every text.
normalize_code_idempotent : (s : Text) → normalize_code (normalize_code s) ≡ normalize_code s
normalize_code_idempotent s = normalize_of_plain (normalize_code s) (normalize_plain s)

-- The value of a code character.
value_in : Text → ℕ → ℕ
value_in [] c = 0
value_in (x ∷ xs) c = let rest = suc (value_in xs c) in if x == c then 0 else rest

symbols_differ : holds_to (λ i. value_in crockford (symbol_at i) == i) 32 ≡ true
unfolding holds_to symbol_at value_in
symbols_differ = refl

digit_injective : (n m k : ℕ) → digit n k ≡ digit m k → n / 2 ^ k % 32 ≡ m / 2 ^ k % 32
unfolding digit
digit_injective n m k e =
    let value = λ (x : ℕ).
      (==_iff (value_in crockford (symbol_at (x / 2 ^ k % 32))) (x / 2 ^ k % 32)).0 (
        holds_to_lem (λ i. value_in crockford (symbol_at i) == i) 32 (x / 2 ^ k % 32) symbols_differ
          (omega arith)) in
    sym (value n) ∙ ap (value_in crockford) e ∙ value m

-- Two texts of ten digits are equal only if the numbers agree in their 50 bits above the lowest 6.
ten_digits_injective :
    (n m : ℕ) → n < 2 ^ 56 → m < 2 ^ 56 → ten_digits n ≡ ten_digits m → n / 2 ^ 6 ≡ m / 2 ^ 6
ten_digits_injective n m hn hm e =
    let d = digit_injective n m in
    omega (
      arith,
      d 51 (cc),
      d 46 (cc),
      d 41 (cc),
      d 36 (cc),
      d 31 (cc),
      d 26 (cc),
      d 21 (cc),
      d 16 (cc),
      d 11 (cc),
      d 6 (cc),
    )

-- Two generated codes that normalise to the same text come from random bytes that agree in their
-- first 50 bits.
generate_code_differs :
    (a0 a1 a2 a3 a4 a5 a6 b0 b1 b2 b3 b4 b5 b6 : ℕ) (t u : Text)
    → All (λ b. b < 256) (a0 ∷ a1 ∷ a2 ∷ a3 ∷ a4 ∷ a5 ∷ a6 ∷ [])
    → All (λ b. b < 256) (b0 ∷ b1 ∷ b2 ∷ b3 ∷ b4 ∷ b5 ∷ b6 ∷ [])
    → generate_code (some (a0 ∷ a1 ∷ a2 ∷ a3 ∷ a4 ∷ a5 ∷ a6 ∷ [])) ≡ some t
    → generate_code (some (b0 ∷ b1 ∷ b2 ∷ b3 ∷ b4 ∷ b5 ∷ b6 ∷ [])) ≡ some u
    → normalize_code t ≡ normalize_code u
    → big_endian a0 a1 a2 a3 a4 a5 a6 / 2 ^ 6 ≡ big_endian b0 b1 b2 b3 b4 b5 b6 / 2 ^ 6
generate_code_differs a0 a1 a2 a3 a4 a5 a6 b0 b1 b2 b3 b4 b5 b6 t u
      (p0, (p1, (p2, (p3, (p4, (p5, (p6, _))))))) (q0, (q1, (q2, (q3, (q4, (q5, (q6, _))))))) e f
      same =
    let n = normalize-generate a0 a1 a2 a3 a4 a5 a6 p0 p1 p2 p3 p4 p5 p6 t e in
    let m = normalize-generate b0 b1 b2 b3 b4 b5 b6 q0 q1 q2 q3 q4 q5 q6 u f in
    ten_digits_injective (big_endian a0 a1 a2 a3 a4 a5 a6) (big_endian b0 b1 b2 b3 b4 b5 b6)
      (omega arith) (omega arith) (sym n.1 ∙ same ∙ m.1)
