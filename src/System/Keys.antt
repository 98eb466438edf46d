-- ===== src/System/Keys.antt =====
-- Tables whose rows have an id and an owner: the ids are keys, older than the next id.
use money_miner.Base.{
  ℕ, ◌+◌, ◌≡◌, ◌≤◌, ◌<◌, Bool, false, ◌&&◌, Option, none, some, List, [], ◌∷◌, ◌++◌, ◌==◌, arith,
  All, All-append, All-update, All-delete, find, update, delete, Bool-cases, inl, inr, ==_refl,
}

module _ {R : Type 0} (key own : R → ℕ) where
  abbrev pub owner_of : ℕ → List R → Option ℕ
  owner_of id rows = elim (find (λ r. key r == id) rows) [ none ↦ none | some r ↦ some (own r) ]

  -- The id of a row finds the owner of that row.
  abbrev pub IsKeyed : List R → R → Type 0
  IsKeyed rows r = owner_of (key r) rows ≡ some (own r)

  pub record IsTable (fresh : ℕ) (rows : List R) : Type 0 where
    pub older : All (λ (r : R). key r < fresh) rows
    pub keyed : All (IsKeyed rows) rows

  -- Rows may come, and may change all but ids and owners.
  abbrev pub Stays : List R → List R → Type 0
  Stays rows rows' = (id owner : ℕ) → owner_of id rows ≡ some owner → owner_of id rows' ≡ some owner

  pub update-Stays :
      (p : R → Bool) (f : R → R) (rows : List R)
      → ((r : R) → (key (f r) ≡ key r) × (own (f r) ≡ own r))
      → Stays rows (update p f rows)
  update-Stays p f [] kept id owner e = cc
  update-Stays p f (r ∷ rows) kept id owner e =
      ground (arith, kept r, update-Stays p f rows kept id owner)

  pub append-Stays : (rows new : List R) → Stays rows (rows ++ new)
  append-Stays [] new id owner e = cc
  append-Stays (r ∷ rows) new id owner e = ground (arith, append-Stays rows new id owner)

  abbrev is_theirs : (owner gone : ℕ) → R → Bool
  is_theirs owner gone r = key r == gone && own r == owner

  -- What another id finds stays when the rows with an id go.
  pub stays_beside :
      (owner gone id other : ℕ) (rows : List R)
      → (id == gone) ≡ false
      → owner_of id rows ≡ some other
      → owner_of id (delete (is_theirs owner gone) rows) ≡ some other
  stays_beside owner gone id other [] ne e = cc
  stays_beside owner gone id other (r ∷ rows) ne e =
      ground (arith, stays_beside owner gone id other rows ne)

  stays_theirs :
      (owner gone id other : ℕ) (rows : List R)
      → (other == owner) ≡ false
      → owner_of id rows ≡ some other
      → owner_of id (delete (is_theirs owner gone) rows) ≡ some other
  stays_theirs owner gone id other [] ne e = cc
  stays_theirs owner gone id other (r ∷ rows) ne e =
      ground (arith, stays_theirs owner gone id other rows ne)

  finds_new :
      (r : R) (rows : List R)
      → All (λ q. key q < key r) rows
      → owner_of (key r) (rows ++ r ∷ []) ≡ some (own r)
  finds_new r [] a = ground (arith, ==_refl (key r))
  finds_new r (q ∷ rows) (h, a) = ground (arith, finds_new r rows a)

  IsKeyed-in :
      (rows table table' : List R)
      → Stays table table'
      → All (IsKeyed table) rows
      → All (IsKeyed table') rows
  IsKeyed-in [] table table' stay a = tt
  IsKeyed-in (r ∷ rows) table table' stay (h, a) =
      (stay (key r) (own r) h, IsKeyed-in rows table table' stay a)

  IsKeyed-rest :
      (owner gone : ℕ) (rows table : List R)
      → All (IsKeyed table) rows
      → All (IsKeyed (delete (is_theirs owner gone) table)) (delete (is_theirs owner gone) rows)
  IsKeyed-rest owner gone [] table a = tt
  IsKeyed-rest owner gone (r ∷ rows) table (h, a) = elim (Bool-cases (key r == gone)) [
    | inr differ ↦ rw differ (
      stays_beside owner gone (key r) (own r) table differ h,
      IsKeyed-rest owner gone rows table a,
    )
    | inl same ↦ elim (Bool-cases (own r == owner)) [
      | inl theirs ↦ rw (same, theirs) (IsKeyed-rest owner gone rows table a)
      | inr others ↦
          rw (same, others)
            (
              stays_theirs owner gone (key r) (own r) table others h,
              IsKeyed-rest owner gone rows table a,
            )
    ]
  ]

  older_later :
      (fresh later : ℕ) (rows : List R)
      → fresh ≤ later
      → All (λ (r : R). key r < fresh) rows
      → All (λ (r : R). key r < later) rows
  older_later fresh later [] le a = tt
  older_later fresh later (r ∷ rows) le (h, a) =
      (omega (arith, h, le), older_later fresh later rows le a)

  pub later-IsTable :
      (fresh later : ℕ) (rows : List R) → fresh ≤ later → IsTable fresh rows → IsTable later rows
  later-IsTable fresh later rows le t = record {
    older = older_later fresh later rows le t.older;
    keyed = t.keyed;
  }

  pub update-IsTable :
      (p : R → Bool) (f : R → R) (fresh : ℕ) (rows : List R)
      → ((r : R) → (key (f r) ≡ key r) × (own (f r) ≡ own r))
      → IsTable fresh rows
      → IsTable fresh (update p f rows)
  update-IsTable p f fresh rows kept t = record {
    older = All-update (λ (r : R). key r < fresh) p f rows (λ r h. rw (kept r).0 h) t.older;
    keyed =
        All-update (IsKeyed (update p f rows)) p f rows (λ r h. rw ((kept r).0, (kept r).1) h)
          (IsKeyed-in rows rows (update p f rows) (update-Stays p f rows kept) t.keyed);
  }

  pub append-IsTable :
      (r : R) (fresh : ℕ) (rows : List R)
      → key r ≡ fresh
      → IsTable fresh rows
      → IsTable (fresh + 1) (rows ++ r ∷ [])
  append-IsTable r fresh rows new t = record {
    older =
        All-append (λ (q : R). key q < fresh + 1) rows (r ∷ [])
          (older_later fresh (fresh + 1) rows (omega arith) t.older) (omega (arith, new), tt);
    keyed =
        All-append (IsKeyed (rows ++ r ∷ [])) rows (r ∷ [])
          (IsKeyed-in rows rows (rows ++ r ∷ []) (append-Stays rows (r ∷ [])) t.keyed)
          (finds_new r rows (rw new t.older), tt);
  }

  pub delete-IsTable :
      (owner gone fresh : ℕ) (rows : List R)
      → IsTable fresh rows
      → IsTable fresh (delete (is_theirs owner gone) rows)
  delete-IsTable owner gone fresh rows t = record {
    older = All-delete (λ (r : R). key r < fresh) (is_theirs owner gone) rows t.older;
    keyed = IsKeyed-rest owner gone rows rows t.keyed;
  }
