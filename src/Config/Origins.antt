-- ===== src/Config/Origins.antt =====
-- The origins that the configuration admits (config/config.go).
use money_miner.Base.{
  ◌≡◌, refl, subst, false, some, List, [], ◌∷◌, All, Text, codes, is_empty, trim_space, Bool-cases,
  inl, inr,
}
use money_miner.Config.{Environment, Config, trimmed_parts, allowed_origins_of, config_of, load}

trimmed_parts_named : (os : List Text) → All (λ (o : Text). is_empty o ≡ false) (trimmed_parts os)
unfolding trimmed_parts
trimmed_parts_named [] = tt
trimmed_parts_named (o ∷ os) = elim (Bool-cases (is_empty (trim_space o))) [
  | inl blank ↦ rw (blank, trimmed_parts) (trimmed_parts_named os)
  | inr named ↦ rw (named, trimmed_parts) (named, trimmed_parts_named os)
]

loaded :
    (e : Environment) (c : Config)
    → is_empty (e.getenv (codes "MM_DATABASE_URL")) ≡ false
    → load e ≡ some c
    → config_of e ≡ c
unfolding load config_of
loaded e c given h = let kept : some (config_of e) ≡ some c = rw given at h in cc

-- A configuration that is loaded has the database URL of the environment, which is not empty, and no
-- empty allowed origin.
load_sound :
    (e : Environment) (c : Config)
    → load e ≡ some c
    → (c.database_url ≡ e.getenv (codes "MM_DATABASE_URL"))
      × (is_empty c.database_url ≡ false)
      × All (λ (o : Text). is_empty o ≡ false) c.allowed_origins
unfolding load config_of allowed_origins_of
load_sound e c h = elim (Bool-cases (is_empty (e.getenv (codes "MM_DATABASE_URL")))) [
  | inl missing ↦ absurd (cc (rw (missing, load) at h))
  | inr given ↦
      let same : config_of e ≡ c = loaded e c given h in
      subst
        (λ (x : Config).
          (x.database_url ≡ e.getenv (codes "MM_DATABASE_URL"))
          × (is_empty x.database_url ≡ false)
          × All (λ (o : Text). is_empty o ≡ false) x.allowed_origins)
        same (refl, given, trimmed_parts_named _)
]
