-- ===== src/Base/Table.antt =====
-- A table is a list of rows in insertion order; queries select, change, delete and count rows.
use Prim.Native.Nat.{ℕ, suc}
use mathlib.Core.Path.{◌≡◌, refl, subst}
use mathlib.Core.Bool.{Bool, true, false}
use mathlib.Core.Option.{Option, none, some}
use mathlib.Core.Logic.{inl, inr}
use mathlib.Core.List.{List, [], ◌∷◌, ◌++◌}
use native.Mathlib.Omega.{arith}
use money_miner.Base.Tests.{if◌then◌else◌, Bool-cases}
use money_miner.Base.Lists.{All}

module _ {ℓ} {R : Type ℓ} where
  -- `SELECT … WHERE p`, all rows
  abbrev pub select : (R → Bool) → List R → List R
  select p [] = []
  select p (r ∷ rs) = if p r then r ∷ select p rs else select p rs

  -- `SELECT … WHERE p`, the first row
  abbrev pub find : (R → Bool) → List R → Option R
  find p [] = none
  find p (r ∷ rs) = if p r then some r else find p rs

  -- `UPDATE … SET f WHERE p`
  abbrev pub update : (R → Bool) → (R → R) → List R → List R
  update p f [] = []
  update p f (r ∷ rs) = (if p r then f r else r) ∷ update p f rs

  -- `DELETE … WHERE p`
  abbrev pub delete : (R → Bool) → List R → List R
  delete p [] = []
  delete p (r ∷ rs) = if p r then delete p rs else r ∷ delete p rs

  -- the rows that `WHERE p` affects
  abbrev pub count_where : (R → Bool) → List R → ℕ
  count_where p [] = 0
  count_where p (r ∷ rs) = if p r then suc (count_where p rs) else count_where p rs

  -- What an update keeps of one row, it keeps of all.
  pub All-update {κ} :
      (P : R → Type κ) (p : R → Bool) (f : R → R) (rs : List R)
      → ((r : R) → P r → P (f r))
      → All P rs
      → All P (update p f rs)
  All-update P p f [] h a = tt
  All-update P p f (r ∷ rs) h (x, a) = (
    (elim (p r) as (λ b. P (if b then f r else r)) [ true ↦ h r x | false ↦ x ]),
    All-update P p f rs h a,
  )

  pub All-delete {κ} :
      (P : R → Type κ) (p : R → Bool) (rs : List R) → All P rs → All P (delete p rs)
  All-delete P p [] a = tt
  All-delete P p (r ∷ rs) (x, a) =
      elim (p r) as (λ b. All P (if b then delete p rs else r ∷ delete p rs)) [
        | true ↦ All-delete P p rs a
        | false ↦ (x, All-delete P p rs a)
      ]

  -- A test that the update does not touch selects the same rows before and after.
  count_where-update :
      (q p : R → Bool) (f : R → R) (rs : List R)
      → ((r : R) → q (f r) ≡ q r)
      → count_where q (update p f rs) ≡ count_where q rs
  count_where-update q p f [] h = refl
  count_where-update q p f (r ∷ rs) h = ground (arith, h r, count_where-update q p f rs h)

  pub select-append :
      (q : R → Bool) (rs ss : List R) → select q (rs ++ ss) ≡ select q rs ++ select q ss
  select-append q [] ss = refl
  select-append q (r ∷ rs) ss = ground (arith, select-append q rs ss)

  pub select-append_miss :
      (q : R → Bool) (rs : List R) (r : R) → q r ≡ false → select q (rs ++ r ∷ []) ≡ select q rs
  select-append_miss q [] r h = rw h
  select-append_miss q (x ∷ rs) r h = ground (arith, select-append_miss q rs r h)

  -- Rows outside a query's condition are left alone.
  pub select-update :
      (q p : R → Bool) (f : R → R) (rs : List R)
      → ((r : R) → p r ≡ true → (q r ≡ false) × (q (f r) ≡ false))
      → select q (update p f rs) ≡ select q rs
  select-update q p f [] h = refl
  select-update q p f (r ∷ rs) h = ground (arith, h r, select-update q p f rs h)

  pub select-delete :
      (q p : R → Bool) (rs : List R)
      → ((r : R) → p r ≡ true → q r ≡ false)
      → select q (delete p rs) ≡ select q rs
  select-delete q p [] h = refl
  select-delete q p (r ∷ rs) h = ground (arith, h r, select-delete q p rs h)

  -- Where no row meets the condition, a query finds, counts and changes nothing.
  pub find_of_none : (p : R → Bool) (rs : List R) → All (λ r. p r ≡ false) rs → find p rs ≡ none
  find_of_none p [] a = refl
  find_of_none p (r ∷ rs) (e, a) = rw e (find_of_none p rs a)

  pub count_of_none :
      (p : R → Bool) (rs : List R) → All (λ r. p r ≡ false) rs → count_where p rs ≡ 0
  count_of_none p [] a = refl
  count_of_none p (r ∷ rs) (e, a) = rw e (count_of_none p rs a)

  pub find_sound : (p : R → Bool) (rs : List R) (r : R) → find p rs ≡ some r → p r ≡ true
  find_sound p [] r e = cc
  find_sound p (x ∷ rs) r e = ground (arith, find_sound p rs r)

  pub find-All {κ} :
      (P : R → Type κ) (p : R → Bool) (rs : List R) (r : R) → All P rs → find p rs ≡ some r → P r
  find-All P p [] r a e = cc
  find-All P p (x ∷ rs) r (h, a) e = elim (Bool-cases (p x)) [
    | inl t ↦ let same : x ≡ r = ground arith in subst P same h
    | inr f ↦ find-All P p rs r a (rw f at e)
  ]

  pub All-select {κ} :
      (P : R → Type κ) (p : R → Bool) (rs : List R) → All P rs → All P (select p rs)
  All-select P p [] a = tt
  All-select P p (r ∷ rs) (x, a) =
      elim (p r) as (λ b. All P (if b then r ∷ select p rs else select p rs)) [
        | true ↦ (x, All-select P p rs a)
        | false ↦ All-select P p rs a
      ]

  select_sound : (p : R → Bool) (rs : List R) → All (λ r. p r ≡ true) (select p rs)
  select_sound p [] = tt
  select_sound p (r ∷ rs) = elim (Bool-cases (p r)) [
    | inl t ↦ rw t (t, select_sound p rs)
    | inr f ↦ rw f (select_sound p rs)
  ]

  -- An update that does not touch what a query tests changes the row that it finds in place.
  pub find-update :
      (q p : R → Bool) (f : R → R) (rs : List R)
      → ((r : R) → q (f r) ≡ q r)
      → (found : R) → find q rs ≡ some found
      → find q (update p f rs) ≡ some (if p found then f found else found)
  find-update q p f [] h found e = cc
  find-update q p f (r ∷ rs) h found e = elim (Bool-cases (q r)) [
    | inl hit ↦
        let same : r ≡ found = ground arith in
        rw (← same) (elim (Bool-cases (p r)) [ inl t ↦ rw (t, h r, hit) | inr t ↦ rw (t, hit) ])
    | inr miss ↦
        let rest = find-update q p f rs h found (rw miss at e) in
        elim (Bool-cases (p r)) [ inl t ↦ rw (t, h r, miss) rest | inr t ↦ rw (t, miss) rest ]
  ]

  pub find-append :
      (q : R → Bool) (rs ss : List R) (r : R) → find q rs ≡ some r → find q (rs ++ ss) ≡ some r
  find-append q [] ss r e = cc
  find-append q (x ∷ rs) ss r e = ground (arith, find-append q rs ss r)

  pub find-append_miss :
      (q : R → Bool) (rs ss : List R) → find q rs ≡ none → find q (rs ++ ss) ≡ find q ss
  find-append_miss q [] ss e = refl
  find-append_miss q (x ∷ rs) ss e = ground (arith, find-append_miss q rs ss)

  select-none : (p : R → Bool) (rs : List R) → All (λ r. p r ≡ false) rs → select p rs ≡ []
  select-none p [] a = refl
  select-none p (r ∷ rs) (e, a) = rw e (select-none p rs a)

  pub find_of_count :
      (p : R → Bool) (rs : List R) (n : ℕ)
      → count_where p rs ≡ suc n
      → (r : R) × (find p rs ≡ some r)
  find_of_count p [] n e = cc
  find_of_count p (x ∷ rs) n e = elim (Bool-cases (p x)) [
    | inl hit ↦ (x, rw hit refl)
    | inr miss ↦ rw miss (find_of_count p rs n (rw miss at e))
  ]

  pub count_of_find :
      (p q : R → Bool) (rs : List R) (r : R)
      → find p rs ≡ some r
      → q r ≡ true
      → (n : ℕ) × (count_where q rs ≡ suc n)
  count_of_find p q [] r e h = cc
  count_of_find p q (x ∷ rs) r e h = elim (Bool-cases (p x)) [
    | inl hit ↦ let same : x ≡ r = ground arith in (count_where q rs, rw (same, h))
    | inr miss ↦
        let (n, k) = count_of_find p q rs r (rw miss at e) h in
        elim (Bool-cases (q x)) [ inl t ↦ (suc n, rw (t, k)) | inr t ↦ (n, rw (t, k)) ]
  ]

  pub count_where-append_hit :
      (q : R → Bool) (rs : List R) (r : R)
      → q r ≡ true
      → count_where q (rs ++ r ∷ []) ≡ suc (count_where q rs)
  count_where-append_hit q [] r h = rw h
  count_where-append_hit q (x ∷ rs) r h = ground (arith, count_where-append_hit q rs r h)
