-- ===== src/Api/Settings/Refined.antt =====
-- The settings of the users as a map, beside the handlers and the table (api/handlers.go,
-- store.go).
use money_miner.Base.{
  ℕ, ◌≡◌, refl, Bool, not, ◌&&◌, Option, none, some, List, [], ◌∷◌, ◌==◌, ltb, length,
  if◌then◌else◌, Text, text_eq, text_eq_iff, text_eq_refl, is_empty, arith, find, select, ap, ◌∙◌,
  Bool-cases, Option-cases, inl, inr,
}
use money_miner.Store.Types.{Setting}
use money_miner.Store.Settings.{put_setting, upsert_setting, list_settings}
use money_miner.Swarm.Hub.State.{Hub}
use money_miner.Api.Settings.{handle_put_setting, setting_key_ok}

-- The abstract state: the value under an owner and a key.
abbrev SettingMap : Type 0
SettingMap = ℕ → Text → Option Text

abbrev has_key : ℕ → Text → Setting → Bool
has_key owner key s = s.owner == owner && text_eq s.key key

abbrev value_of : Option Setting → Option Text
value_of none = none
value_of (some s) = some s.value

-- What the table stands for.
abbrev pub view : List Setting → SettingMap
view rows owner key = value_of (find (has_key owner key) rows)

abbrev assign_key : ℕ → Text → Text → SettingMap → SettingMap
assign_key owner key value f o k = if owner == o && text_eq key k then some value else f o k

-- Which requests are carried out, and what they then do.
abbrev is_storable : Text → Text → Bool
is_storable key value =
    setting_key_ok key && (not (is_empty value) && not (ltb 8192 (length value)))

-- A request to put a setting: the owner, the key and the value, none where the body does not decode.
abbrev pub Put : Type 0
Put = ℕ × Text × Option Text

module _ (jsonb : Text → Option Text) where
  abbrev spec_put : Put → SettingMap → SettingMap
  spec_put (owner, key, none) f = f
  spec_put (owner, key, some value) f =
      if is_storable key value
      then elim (jsonb value) [ none ↦ f | some v ↦ assign_key owner key v f ]
      else f

  abbrev pub spec_puts : List Put → SettingMap → SettingMap
  spec_puts [] f = f
  spec_puts (q ∷ qs) f = spec_puts qs (spec_put q f)

  abbrev pub run_puts : List Put → Hub → Hub
  run_puts [] h = h
  run_puts ((owner, key, value) ∷ qs) h = run_puts qs (handle_put_setting jsonb owner key value h).1

view-upsert :
    (owner : ℕ) (key value : Text) (rows : List Setting) (o : ℕ) (k : Text)
    → view (upsert_setting (record { owner = owner; key = key; value = value }) rows) o k
      ≡ assign_key owner key value (view rows) o k
unfolding upsert_setting
view-upsert owner key value [] o k = ground arith
view-upsert owner key value (q ∷ rows) o k =
    elim (Bool-cases (q.owner == owner && text_eq q.key key)) [
      | inl hit ↦
          let same_owner : q.owner ≡ owner = ground arith in
          let same_key : q.key ≡ key = (text_eq_iff q.key key).0 (ground arith) in
          ground (arith, text_eq_iff q.key key)
      | inr miss ↦ elim (Bool-cases (has_key o k q)) [
        | inr other ↦ rw (miss, other) (view-upsert owner key value rows o k)
        | inl found ↦
            let same_owner : q.owner ≡ o = ground arith in
            let same_key : q.key ≡ k = (text_eq_iff q.key k).0 (ground arith) in
            ground (arith, text_eq_refl k, text_eq_iff key k)
      ]
    ]

-- The rows of one owner stand for the same values as the table.
view-select :
    (owner : ℕ) (key : Text) (rows : List Setting)
    → view (select (λ s. s.owner == owner) rows) owner key ≡ view rows owner key
view-select owner key [] = refl
view-select owner key (q ∷ rows) = ground (arith, view-select owner key rows)

module _ (jsonb : Text → Option Text) where
  handle_put-spec :
      (owner : ℕ) (key : Text) (value : Option Text) (h : Hub)
      → view (handle_put_setting jsonb owner key value h).1.db.settings
        ≡ spec_put jsonb (owner, key, value) (view h.db.settings)
  unfolding handle_put_setting put_setting
  handle_put-spec owner key none h = refl
  handle_put-spec owner key (some value) h = elim (Bool-cases (setting_key_ok key)) [
    | inr bad ↦ rw (bad, handle_put_setting) refl
    | inl fine ↦ elim (Bool-cases (is_empty value)) [
      | inl nothing ↦ rw (fine, nothing, handle_put_setting) refl
      | inr something ↦ elim (Bool-cases (ltb 8192 (length value))) [
        | inl long ↦ rw (fine, something, long, handle_put_setting) refl
        | inr short ↦ elim (Option-cases (jsonb value)) [
          | inl refused ↦ rw (fine, something, short, refused, handle_put_setting, put_setting) refl
          | inr (v, stored) ↦
              rw (fine, something, short, stored, handle_put_setting, put_setting)
                (λ i o k. view-upsert owner key v h.db.settings o k i)
        ]
      ]
    ]
  ]

  -- The handlers of settings implement a map from owners and keys to values: after any sequence of
  -- requests to put a setting, the table stands for the map in which the requests with a well-formed
  -- key and a value of 1 to 8192 bytes that the database's jsonb takes are carried out in order, with
  -- the text that jsonb makes of the value, and the others change nothing; and what an owner is listed
  -- gives each key the value that the map has for it.
  pub run_puts-spec_puts :
      (qs : List Put) (h : Hub)
      → (view (run_puts jsonb qs h).db.settings ≡ spec_puts jsonb qs (view h.db.settings))
        × ((owner : ℕ) (key : Text)
            → view (list_settings owner (run_puts jsonb qs h).db) owner key
              ≡ spec_puts jsonb qs (view h.db.settings) owner key)
  unfolding list_settings
  run_puts-spec_puts qs h =
      let same = runs qs h in
      (
        same,
        λ owner key.
            view-select owner key (run_puts jsonb qs h).db.settings ∙ ap (λ f. f owner key) same,
      )
    where
      runs :
          (qs : List Put) (h : Hub)
          → view (run_puts jsonb qs h).db.settings ≡ spec_puts jsonb qs (view h.db.settings)
      runs [] h = refl
      runs ((owner, key, value) ∷ qs) h =
          runs qs (handle_put_setting jsonb owner key value h).1
          ∙ ap (spec_puts jsonb qs) (handle_put-spec owner key value h)
