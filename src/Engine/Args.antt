-- ===== src/Engine/Args.antt =====
-- The arguments of an external miner (engine/adapter/adapter.go). net.SplitHostPort and the writing
-- of numbers are parameters, and so is the order in which Go goes over a map.
use money_miner.Base.{
  ℕ, ◌≡◌, refl, false, Option, none, some, List, [], ◌∷◌, ◌==◌, ltb, if◌then◌else◌, drop, map, Text,
  codes, has_prefix, trim_last, replace_all, replace_from, All, ap,
}
use money_miner.Engine.{EngineConfig}

-- What follows the first `://`, or the whole text.
unfoldable after_scheme : Text → Option Text
after_scheme [] = none
after_scheme (c ∷ s) =
    let rest = after_scheme s in
    if has_prefix (c ∷ s) (codes "://") then some (drop 3 (c ∷ s)) else rest

abbrev or_whole : Option Text → Text → Text
or_whole none s = s
or_whole (some t) s = t

-- A replacement of a placeholder.
abbrev Repl : Type 0
Repl = Text × Text

module _ (split_host_port : Text → Option (Text × Text)) (decimal : ℕ → Text) where
  -- `poolHostPort`
  unfoldable pool_host_port : Text → Text × Text
  unfolding after_scheme trim_last
  pool_host_port pool =
      let s = trim_last b'/' (or_whole (after_scheme pool) pool) in
      elim (split_host_port s) [ some hp ↦ hp | none ↦ (s, []) ]

  unfoldable replacements : EngineConfig → (api_port : ℕ) → List Repl
  unfolding pool_host_port
  replacements cfg api_port =
      let (host, port) = pool_host_port cfg.pool_url in
      (codes "{pool}", cfg.pool_url)
      ∷ (codes "{pool_host}", host)
      ∷ (codes "{pool_port}", port)
      ∷ (codes "{wallet}", cfg.wallet)
      ∷ (codes "{worker}", cfg.worker_name)
      ∷ (codes "{threads}", decimal (if ltb cfg.threads 1 then 1 else cfg.threads))
      ∷ (codes "{api_port}", decimal api_port)
      ∷ (codes "{gpu_intensity}", decimal cfg.gpu_intensity)
      ∷ []

  unfoldable fill : List Repl → Text → Text
  unfolding replace_all
  fill [] a = a
  fill ((k, v) ∷ rs) a = fill rs (replace_all a k v)

  -- `renderArgs`; `shuffle` is the order in which the loop over the map takes the replacements.
  unfoldable render_args :
      (shuffle : List Repl → List Repl)
      → (tmpl : List Text) → EngineConfig
      → (api_port : ℕ) → List Text
  unfolding fill replacements
  render_args shuffle tmpl cfg api_port = map (fill (shuffle (replacements cfg api_port))) tmpl

  -- A text without an opening brace.
  abbrev IsLiteral : Text → Type 0
  IsLiteral a = All (λ (c : ℕ). (c == b'{') ≡ false) a

  replace_literal : (a k v : Text) → IsLiteral a → replace_all a (b'{' ∷ k) v ≡ a
  unfolding replace_all replace_from
  replace_literal [] k v plain = refl
  replace_literal (c ∷ a) k v (other, plain) =
      rw other (ap (λ t. c ∷ t) (replace_literal a k v plain))

  -- A replacement of something in braces.
  abbrev IsBraced : Repl → Type 0
  IsBraced r = (k : Text) × (r.0 ≡ b'{' ∷ k)

  fill_literal : (rs : List Repl) (a : Text) → All IsBraced rs → IsLiteral a → fill rs a ≡ a
  unfolding fill
  fill_literal [] a braced plain = refl
  fill_literal ((k, v) ∷ rs) a ((k', same), braced) plain =
      rw (same, replace_literal a k' v plain) (fill_literal rs a braced plain)

  replacements-IsBraced :
      (cfg : EngineConfig) (api_port : ℕ) → All IsBraced (replacements cfg api_port)
  unfolding replacements
  replacements-IsBraced cfg api_port = (
    (_, refl),
    ((_, refl), ((_, refl), ((_, refl), ((_, refl), ((_, refl), ((_, refl), ((_, refl), tt))))))),
  )

  -- The arguments of a template in which no brace opens are passed on as they are, whatever the
  -- configuration holds and in whatever order the map is gone over.
  render_literal :
      (shuffle : List Repl → List Repl) (tmpl : List Text) (cfg : EngineConfig) (api_port : ℕ)
      → ((rs : List Repl) → All IsBraced rs → All IsBraced (shuffle rs))
      → All IsLiteral tmpl
      → render_args shuffle tmpl cfg api_port ≡ tmpl
  unfolding render_args
  render_literal shuffle [] cfg api_port kept plain = refl
  render_literal shuffle (a ∷ tmpl) cfg api_port kept (p, plain) = λ i.
      fill_literal (shuffle (replacements cfg api_port)) a
        (kept (replacements cfg api_port) (replacements-IsBraced cfg api_port)) p i
      ∷ render_literal shuffle tmpl cfg api_port kept plain i
