-- ===== src/Engine/Pinned.antt =====
-- The supply chain check of the adapter (`ResolveBinary` of engine/adapter/adapter.go).
use money_miner.Base.{
  ◌≡◌, ◌⊎◌, Bool-cases, true, Option, none, some, Text, is_empty, arith, Option-cases, inl, inr,
  to_lower, text_eq_iff,
}
use money_miner.Engine.{AdapterConfig, Files, locate, pin_holds, resolve_binary}

pin_holds_lem :
    (pin : Text) (digest : Option Text)
    → pin_holds pin digest ≡ true
    → (sum : Text) × (digest ≡ some sum) × (to_lower sum ≡ to_lower pin)
unfolding pin_holds
pin_holds_lem pin none e = absurd (ground arith)
pin_holds_lem pin (some sum) e =
    (sum, ground arith, (text_eq_iff (to_lower sum) (to_lower pin)).0 e)

-- A binary that is resolved is where the search found it; and the configuration pins no digest for
-- the platform, or the file was hashed and has that digest, up to the case of its letters.
pub resolve_binary_pinned :
    (files : Files) (ad : AdapterConfig) (dir explicit path : Text)
    → resolve_binary files (some ad) dir explicit ≡ some path
    → (locate files ad.binary dir explicit ≡ some path)
      × ((is_empty ad.sha256 ≡ true)
          ⊎ ((sum : Text) × (files.file_sha256 path ≡ some sum)
              × (to_lower sum ≡ to_lower ad.sha256)))
unfolding resolve_binary
resolve_binary_pinned files ad dir explicit path e =
    elim (Option-cases (locate files ad.binary dir explicit)) [
      | inl missing ↦ absurd (ground arith)
      | inr (found, at_found) ↦ (
        ground arith,
        elim (Bool-cases (is_empty ad.sha256)) [
          | inl unpinned ↦ inl unpinned
          | inr pinned ↦ inr (pin_holds_lem ad.sha256 (files.file_sha256 path) (ground arith))
        ],
      )
    ]
