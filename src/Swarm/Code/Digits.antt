-- ===== src/Swarm/Code/Digits.antt =====
-- The characters of a generated code, and base-32 digits (swarm/codes.go).
use money_miner.Base.{ℕ, ◌+◌, ◌*◌, ◌/◌, ◌%◌, ◌^◌, ◌<◌, ◌≡◌, [], ◌∷◌, arith, Text}
use money_miner.Swarm.Code.{symbol_at, encode}

-- Seven bytes as one number of 56 bits, the first byte the highest.
abbrev pub big_endian : (b0 b1 b2 b3 b4 b5 b6 : ℕ) → ℕ
big_endian b0 b1 b2 b3 b4 b5 b6 =
    ((((((b0 * 256 + b1) * 256 + b2) * 256 + b3) * 256 + b4) * 256 + b5) * 256) + b6

-- The character for the five bits of `n` above its lowest `k`.
unfoldable pub digit : ℕ → ℕ → ℕ
digit n k = symbol_at (n / 2 ^ k % 32)

abbrev pub ten_digits : ℕ → Text
ten_digits n =
    digit n 51
    ∷ digit n 46
    ∷ digit n 41
    ∷ digit n 36
    ∷ digit n 31
    ∷ digit n 26
    ∷ digit n 21
    ∷ digit n 16
    ∷ digit n 11
    ∷ digit n 6
    ∷ []

module _ (b0 b1 b2 b3 b4 b5 b6 : ℕ) (h0 : b0 < 256) (h1 : b1 < 256) (h2 : b2 < 256) (h3 : b3 < 256)
    (h4 : b4 < 256) (h5 : b5 < 256) (h6 : b6 < 256) where
  pub encode-ten_digits :
      encode (b0 ∷ b1 ∷ b2 ∷ b3 ∷ b4 ∷ b5 ∷ b6 ∷ []) 0 0 []
      ≡ ten_digits (big_endian b0 b1 b2 b3 b4 b5 b6)
  unfolding encode digit
  encode-ten_digits =
      let e0 : (0 * 256 + b0) / 2 ^ 3 % 32 ≡ big_endian b0 b1 b2 b3 b4 b5 b6 / 2 ^ 51 % 32 =
        omega arith in
      let e1 : ((0 * 256 + b0) * 256 + b1) / 2 ^ 6 % 32
          ≡ big_endian b0 b1 b2 b3 b4 b5 b6 / 2 ^ 46 % 32 =
        omega arith in
      let e2 : ((0 * 256 + b0) * 256 + b1) / 2 ^ 1 % 32
          ≡ big_endian b0 b1 b2 b3 b4 b5 b6 / 2 ^ 41 % 32 =
        omega arith in
      let e3 : (((0 * 256 + b0) * 256 + b1) * 256 + b2) / 2 ^ 4 % 32
          ≡ big_endian b0 b1 b2 b3 b4 b5 b6 / 2 ^ 36 % 32 =
        omega arith in
      let e4 : ((((0 * 256 + b0) * 256 + b1) * 256 + b2) * 256 + b3) / 2 ^ 7 % 32
          ≡ big_endian b0 b1 b2 b3 b4 b5 b6 / 2 ^ 31 % 32 =
        omega arith in
      let e5 : ((((0 * 256 + b0) * 256 + b1) * 256 + b2) * 256 + b3) / 2 ^ 2 % 32
          ≡ big_endian b0 b1 b2 b3 b4 b5 b6 / 2 ^ 26 % 32 =
        omega arith in
      let e6 : (((((0 * 256 + b0) * 256 + b1) * 256 + b2) * 256 + b3) * 256 + b4) / 2 ^ 5 % 32
          ≡ big_endian b0 b1 b2 b3 b4 b5 b6 / 2 ^ 21 % 32 =
        omega arith in
      let e7 : (((((0 * 256 + b0) * 256 + b1) * 256 + b2) * 256 + b3) * 256 + b4) / 2 ^ 0 % 32
          ≡ big_endian b0 b1 b2 b3 b4 b5 b6 / 2 ^ 16 % 32 =
        omega arith in
      let e8 : ((((((0 * 256 + b0) * 256 + b1) * 256 + b2) * 256 + b3) * 256 + b4) * 256 + b5)
            / 2 ^ 3
            % 32
          ≡ big_endian b0 b1 b2 b3 b4 b5 b6 / 2 ^ 11 % 32 =
        omega arith in
      let e9 : (((((((0 * 256 + b0) * 256 + b1) * 256 + b2) * 256 + b3) * 256 + b4) * 256 + b5)
                * 256
              + b6)
            / 2 ^ 6
            % 32
          ≡ big_endian b0 b1 b2 b3 b4 b5 b6 / 2 ^ 6 % 32 =
        omega arith in
      λ i.
        symbol_at (e0 i)
        ∷ symbol_at (e1 i)
        ∷ symbol_at (e2 i)
        ∷ symbol_at (e3 i)
        ∷ symbol_at (e4 i)
        ∷ symbol_at (e5 i)
        ∷ symbol_at (e6 i)
        ∷ symbol_at (e7 i)
        ∷ symbol_at (e8 i)
        ∷ symbol_at (e9 i)
        ∷ []
