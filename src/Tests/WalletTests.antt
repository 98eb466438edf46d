-- ===== src/Tests/WalletTests.antt =====
-- Addresses that the rules accept and refuse.
use money_miner.Base.{◌≡◌, refl, Text, codes, to_upper, trim_space}
use money_miner.Wallet.{Verdict, validate}

abbrev ether_address : Text
ether_address = codes " 0x00112233445566778899aabbccddeeff00112233"

ether_valid : validate (codes "etc") ether_address ≡ Verdict.valid
unfolding validate to_upper trim_space
ether_valid = refl

grin_short : validate (codes "GRIN") (codes "grin100000000000000000000") ≡ Verdict.bad_length
unfolding validate to_upper trim_space
grin_short = refl
