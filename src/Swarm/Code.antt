-- ===== src/Swarm/Code.antt =====
-- Join codes as texts: GenerateCode and NormalizeCode (swarm/codes.go).
pub mod Digits
pub mod RoundTrip
pub mod Fuel
use money_miner.Base.{
  ℕ, zero, suc, ◌+◌, ◌-◌, ◌*◌, ◌/◌, ◌%◌, ◌^◌, Bool, true, false, not, ◌&&◌, ◌||◌, Option, none,
  some, List, [], ◌∷◌, ◌++◌, map, ◌==◌, ltb, leb, if◌then◌else◌, length, take, drop, get_elem?,
  select, Text, codes, upper,
}

abbrev pub crockford : Text
crockford = codes "0123456789ABCDEFGHJKMNPQRSTVWXYZ"

abbrev or_zero : Option ℕ → ℕ
or_zero none = 0
or_zero (some c) = c

-- `crockford[i]`, for i < 32
unfoldable pub symbol_at : ℕ → ℕ
symbol_at i = or_zero (get_elem? crockford i)

-- `for bits >= 5`: emits five bits at a time, and stops at ten characters. Each round takes five
-- off `bits`, so that `bits` rounds of fuel are enough.
unfoldable pub drain : (fuel acc bits : ℕ) → Text → ℕ × Text
drain zero acc bits sb = (bits, sb)
drain (suc f) acc bits sb =
    let left = bits - 5 in
    let sb' = sb ++ symbol_at (acc / 2 ^ left % 32) ∷ [] in
    let more = drain f acc left sb' in
    if ltb bits 5 then (bits, sb) else if length sb' == 10 then (left, sb') else more

-- The loop over the random bytes. `acc` holds at most 56 bits, so that the shift never overflows.
unfoldable pub encode : List ℕ → (acc bits : ℕ) → Text → Text
unfolding drain
encode [] acc bits sb = sb
encode (b ∷ bs) acc bits sb =
    let acc' = acc * 256 + b in
    let (bits', sb') = drain (bits + 8) acc' (bits + 8) sb in
    let more = encode bs acc' bits' sb' in if length sb' == 10 then sb' else more

-- `s[0:4] + "-" + s[4:8] + "-" + s[8:10]`
unfoldable pub dashed : Text → Text
dashed s = take 4 s ++ (b'-' ∷ take 4 (drop 4 s) ++ (b'-' ∷ take 2 (drop 8 s)))

-- `none` where reading random bytes fails.
unfoldable pub generate_code : Option (List ℕ) → Option Text
unfolding encode
generate_code none = none
generate_code (some bytes) = some (dashed (take 10 (encode bytes 0 0 [])))

abbrev pub is_kept : ℕ → Bool
is_kept c = not (c == b'-' || c == b' ')

-- the replacer O→0, I→1, L→1
abbrev pub unambiguous : ℕ → ℕ
unambiguous c = if c == b'O' then b'0' else if c == b'I' || c == b'L' then b'1' else c

unfoldable pub normalize_code : Text → Text
normalize_code s = map unambiguous (map upper (select is_kept s))
