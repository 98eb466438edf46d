-- ===== src/Swarm/Codes/SingleUse.antt =====
-- Redeeming a join code, and CheckCode (swarm/codes.go).
use money_miner.Base.{
  ℕ, suc, ◌+◌, ◌≡◌, ◌≤◌, ◌∙◌, select, if◌then◌else◌, find_of_count, ◌↔◌, ◌⊎◌, refl, Bool, true,
  false, ◌&&◌, Option, none, some, List, [], ◌∷◌, ◌++◌, ◌==◌, length, find, update, count_where,
  Text, arith, ℕ-cases, Option-cases, Bool-cases, inl, inr, count_of_find, find_sound, is_some,
  count_where-append_hit, ==_refl,
}
use money_miner.Store.Types.{JoinCode, is_id}
use money_miner.Store.Db.{Db}
use money_miner.Store.Workers.{delete_worker, is_owned_worker}
use money_miner.Swarm.Code.{normalize_code}
use money_miner.Swarm.Codes.{
  Crypto, Outcome, done, invalid, refused, failed, Hardware, EnrollResult, is_open, candidate,
  any_matches, row_fits, redeems, consume, new_worker, redeem, enroll, check_code, new_worker_token,
}

-- After a code is consumed, none of its rows can be redeemed now or later.
consumed_rows :
    (c : JoinCode) (worker now later : ℕ) (rows : List JoinCode)
    → now ≤ later
    → count_where (redeems c later) (update (redeems c now) (consume worker now) rows) ≡ 0
consumed_rows c worker now later [] le = refl
consumed_rows c worker now later (q ∷ qs) le =
    ground (arith, consumed_rows c worker now later qs le)

-- Two enrollments that found the same code: after one of them has committed, the transaction of the
-- other changes nothing in any later database, as long as the rows of the codes are as the first
-- left them (deleting the enrolled worker would change them); it answers ErrCodeInvalid, or an error
-- of the database where its own row does not fit.
pub redeem_once :
    (c : JoinCode) (name name' : Text) (hw hw' : Hardware) (token token' : Text × Text)
    (db later : Db) (r : EnrollResult)
    → (redeem c name hw token db).0 ≡ done r
    → later.codes ≡ (redeem c name hw token db).1.codes
    → db.clock ≤ later.clock
    → redeem c name' hw' token' later ≡ (if row_fits name' hw' then invalid else failed, later)
unfolding redeem
redeem_once c name name' hw hw' token token' db later r e kept le =
    elim (ℕ-cases (count_where (redeems c db.clock) db.codes)) [
      | inl nothing ↦ absurd (ground arith)
      | inr (n, rows) ↦
          let left : later.codes
              ≡ update (redeems c db.clock) (consume db.fresh db.clock) db.codes =
            kept ∙ ground arith in
          let gone : count_where (redeems c later.clock) later.codes ≡ 0 =
            rw left (consumed_rows c db.fresh db.clock later.clock db.codes le) in
          elim (Bool-cases (row_fits name' hw')) [
            | inl fits ↦ rw (fits, gone, redeem) refl
            | inr big ↦ rw (big, redeem) refl
          ]
    ]

abbrev pub is_done : {A : Type 0} → Outcome A → Bool
is_done (done _) = true
is_done invalid = false
is_done refused = false
is_done failed = false

-- The plaintext of the token made from the random bytes.
abbrev plain_of : Crypto → Option Text → Text
plain_of crypto none = []
plain_of crypto (some bytes) = crypto.hex bytes

module _ (crypto : Crypto) where
  candidate-redeems :
      (norm : Text) (db : Db) (c : JoinCode)
      → candidate crypto norm db ≡ some c
      → (n : ℕ) × (count_where (redeems c db.clock) db.codes ≡ suc n)
  unfolding candidate
  candidate-redeems norm db c e =
      let matched =
        find_sound (λ q. is_open db.clock q && crypto.matches q.code_hash norm) db.codes c e in
      count_of_find (λ q. is_open db.clock q && crypto.matches q.code_hash norm)
        (redeems c db.clock) db.codes c e (ground arith)

  -- The loop over the open rows finds a match exactly where the candidate query does.
  any_matches-candidate :
      (norm : Text) (now : ℕ) (rows : List JoinCode)
      → any_matches crypto norm (select (is_open now) rows)
        ≡ is_some (find (λ c. is_open now c && crypto.matches c.code_hash norm) rows)
  unfolding any_matches
  any_matches-candidate norm now [] = refl
  any_matches-candidate norm now (c ∷ cs) = ground (arith, any_matches-candidate norm now cs)

  -- CheckCode announces exactly the codes that Enroll would redeem, if nothing happens in between,
  -- the random source works, and the row of the worker fits the table.
  pub check_code_iff :
      (code name : Text) (hw : Hardware) (bytes : Text) (db : Db)
      → row_fits name hw ≡ true
      → (check_code crypto code db ≡ done tt)
        ↔ (is_done (enroll crypto (λ d. d) code name hw (some bytes) db).0 ≡ true)
  unfolding check_code enroll redeem new_worker_token candidate
  check_code_iff code name hw bytes db fits =
      let norm = normalize_code code in
      let same = any_matches-candidate norm db.clock db.codes in
      elim (Option-cases (candidate crypto norm db)) [
        | inl missing ↦ ground (arith, same)
        | inr (c, found) ↦ let (n, rows) = candidate-redeems norm db c found in ground (arith, same)
      ]

  -- What a successful enrollment does, from the code that it found open: `now` is the database
  -- at the time of its transaction, in which the code is still open.
  abbrev pub Enrolled :
      JoinCode → Text → Hardware → Option Text → Db → Outcome EnrollResult → Db → Type 0
  Enrolled c name hw bytes now r db' =
      ((q : JoinCode) × (find (redeems c now.clock) now.codes ≡ some q))
      × (r
          ≡ done (record {
            worker_id = now.fresh;
            worker_token = plain_of crypto bytes;
            owner = c.owner;
          }))
      × (db' ≡ record now {
        fresh = now.fresh + 1;
        workers =
            now.workers
            ++ new_worker c name hw (crypto.sha256_hex (plain_of crypto bytes)) now ∷ [];
        codes = update (redeems c now.clock) (consume now.fresh now.clock) now.codes;
      })

  -- Enroll either changes nothing beyond what other sessions did meanwhile, or a code which was open
  -- when it looked is still open at the transaction, is consumed by it, and one enrolled worker of
  -- that code's owner is appended; nothing else changes.
  pub enroll_all_or_nothing :
      (meanwhile : Db → Db) (code name : Text) (hw : Hardware) (bytes : Option Text) (db : Db)
      → let (r, db') = enroll crypto meanwhile code name hw bytes db in
        ((is_done r ≡ false) × ((db' ≡ db) ⊎ (db' ≡ meanwhile db)))
        ⊎ ((c : JoinCode) × (candidate crypto (normalize_code code) db ≡ some c)
            × Enrolled c name hw bytes (meanwhile db) r db')
  unfolding enroll redeem new_worker_token
  enroll_all_or_nothing meanwhile code name hw none db =
      elim (Option-cases (candidate crypto (normalize_code code) db)) [
        | inl missing ↦ inl (ground arith, inl (ground arith))
        | inr (c, found) ↦ inl (ground arith, inl (ground arith))
      ]
  enroll_all_or_nothing meanwhile code name hw (some bytes) db =
      elim (Bool-cases (length (normalize_code code) == 10)) [
        | inr short ↦ inl (ground arith, inl (ground arith))
        | inl ten ↦ elim (Option-cases (candidate crypto (normalize_code code) db)) [
          | inl missing ↦ inl (ground arith, inl (ground arith))
          | inr (c, found) ↦
              elim (ℕ-cases (count_where (redeems c (meanwhile db).clock) (meanwhile db).codes)) [
                | inl lost ↦ inl (ground arith, inr (ground arith))
                | inr (n, rows) ↦ elim (Bool-cases (row_fits name hw)) [
                  | inr big ↦ inl (ground arith, inr (ground arith))
                  | inl fits ↦ inr (
                    c,
                    found,
                    (
                      find_of_count (redeems c (meanwhile db).clock) (meanwhile db).codes n rows,
                      ground arith,
                      ground arith,
                    ),
                  )
                ]
              ]
        ]
      ]

-- Clearing the consumers of some rows keeps the open rows open.
cleared_rows :
    (p : Text → Bool) (worker now : ℕ) (rows : List JoinCode)
    → is_some (find (λ q. is_open now q && p q.code_hash) rows) ≡ true
    → is_some (
        find
          (λ q. is_open now q && p q.code_hash)
          (update (λ q. is_id q.consumed_by worker) (λ q. record q { consumed_by = none }) rows))
      ≡ true
cleared_rows p worker now [] h = cc
cleared_rows p worker now (q ∷ qs) h = ground (arith, cleared_rows p worker now qs)

-- Redeeming consumes an open row, and clearing the consumer opens it again.
reopened_rows :
    (p : Text → Bool) (c : JoinCode) (worker now : ℕ) (rows : List JoinCode)
    → is_some (find (λ q. is_open now q && p q.code_hash) rows) ≡ true
    → is_some (
        find
          (λ q. is_open now q && p q.code_hash)
          (update
            (λ q. is_id q.consumed_by worker)
            (λ q. record q { consumed_by = none })
            (update (redeems c now) (consume worker now) rows)))
      ≡ true
reopened_rows p c worker now [] h = cc
reopened_rows p c worker now (q ∷ qs) h =
    ground (arith, reopened_rows p c worker now qs, ==_refl worker)

module _ (crypto : Crypto) where
  -- Deleting the enrolled worker makes the code that it consumed redeemable again, as long as the
  -- code has not expired.
  pub delete_worker_reopens :
      (code name : Text) (hw : Hardware) (token : Text × Text) (c : JoinCode) (db : Db)
      → length (normalize_code code) ≡ 10
      → candidate crypto (normalize_code code) db ≡ some c
      → let enrolled = (redeem c name hw token db).1 in
        check_code crypto code (delete_worker c.owner db.fresh enrolled).1 ≡ done tt
  unfolding check_code redeem delete_worker candidate
  delete_worker_reopens code name hw token c db ten found =
      let (n, rows) = candidate-redeems crypto (normalize_code code) db c found in
      let norm = normalize_code code in
      let clear = λ (rows : List JoinCode).
        update (λ q. is_id q.consumed_by db.fresh) (λ q. record q { consumed_by = none }) rows in
      let eaten = update (redeems c db.clock) (consume db.fresh db.clock) db.codes in
      let old =
        cleared_rows (λ h. crypto.matches h norm) db.fresh db.clock db.codes (ground arith) in
      elim (Bool-cases (row_fits name hw)) [
        | inr big ↦ ground (
          arith,
          old,
          any_matches-candidate crypto norm db.clock db.codes,
          any_matches-candidate crypto norm db.clock (clear db.codes),
        )
        | inl fits ↦ ground (
          arith,
          count_where-append_hit (is_owned_worker c.owner db.fresh) db.workers
              (new_worker c name hw token.1 db),
          reopened_rows (λ h. crypto.matches h norm) c db.fresh db.clock db.codes,
          any_matches-candidate crypto norm db.clock (clear eaten),
        )
      ]
