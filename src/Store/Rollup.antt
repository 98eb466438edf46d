-- ===== src/Store/Rollup.antt =====
-- The groups of RollupOnce and its passes (store.go).
use money_miner.Base.{
  ℕ, ◌≡◌, refl, Bool, true, false, Option, none, some, List, [], ◌∷◌, arith, ◌==◌, if◌then◌else◌,
  select, find, delete, All, ◌&&◌, Bool-cases, Option-cases, inl, inr, ◌⊎◌, ◌∙◌, ap, sym, is_some,
  find_sound, find-All,
}
use money_miner.Base.Int.{ℤ, pos, ◌+ℤ◌, int_laws, eq_of_parts}
use money_miner.Store.Types.{Sample, Rollup}
use money_miner.Store.Db.{Db}
use money_miner.Store.Metrics.{
  trunc_hour, is_bucket, one_sample, merge_sample, add_sample, group_samples, upsert_rollup,
  upsert_rollups, is_finished, is_expired, rollup_once,
}

abbrev key_of : Rollup → Rollup → Bool
key_of r = is_bucket r.miner r.bucket

-- No two rollups of the list share a miner and a bucket.
abbrev AreDistinct : List Rollup → Type 0
AreDistinct [] = Unit
AreDistinct (r ∷ rs) = All (λ q. key_of r q ≡ false) rs × AreDistinct rs

find-upsert_self : (r : Rollup) (qs : List Rollup) → find (key_of r) (upsert_rollup r qs) ≡ some r
unfolding upsert_rollup
find-upsert_self r [] = ground arith
find-upsert_self r (q ∷ qs) = ground (arith, find-upsert_self r qs)

find-upsert_other :
    (r q : Rollup) (qs : List Rollup)
    → key_of r q ≡ false
    → find (key_of r) (upsert_rollup q qs) ≡ find (key_of r) qs
unfolding upsert_rollup
find-upsert_other r q [] h = ground arith
find-upsert_other r q (x ∷ qs) h = ground (arith, find-upsert_other r q qs h)

find-upserts_other :
    (r : Rollup) (gs qs : List Rollup)
    → All (λ g. key_of r g ≡ false) gs
    → find (key_of r) (upsert_rollups gs qs) ≡ find (key_of r) qs
unfolding upsert_rollups
find-upserts_other r [] qs h = refl
find-upserts_other r (g ∷ gs) qs (h, hs) =
    find-upserts_other r gs (upsert_rollup g qs) hs ∙ find-upsert_other r g qs h

abbrev Holds : List Rollup → Rollup → Type 0
Holds qs r = find (key_of r) qs ≡ some r

upserts-Holds : (gs qs : List Rollup) → AreDistinct gs → All (Holds (upsert_rollups gs qs)) gs
unfolding upsert_rollups
upserts-Holds [] qs d = tt
upserts-Holds (g ∷ gs) qs (h, d) = (
  find-upserts_other g gs (upsert_rollup g qs) h ∙ find-upsert_self g qs,
  upserts-Holds gs (upsert_rollup g qs) d,
)

upsert_of_Holds : (r : Rollup) (qs : List Rollup) → Holds qs r → upsert_rollup r qs ≡ qs
unfolding upsert_rollup
upsert_of_Holds r [] h = cc
upsert_of_Holds r (q ∷ qs) h = ground (arith, upsert_of_Holds r qs)

upserts_of_Holds : (gs qs : List Rollup) → All (Holds qs) gs → upsert_rollups gs qs ≡ qs
unfolding upsert_rollups
upserts_of_Holds [] qs h = refl
upserts_of_Holds (g ∷ gs) qs (h, hs) = rw (upsert_of_Holds g qs h) (upserts_of_Holds gs qs hs)

-- A key that differs from a list's keys and from a sample's differs from those of the sum.
add_sample-differs :
    (r : Rollup) (s : Sample) (rs : List Rollup)
    → is_bucket r.miner r.bucket (one_sample s) ≡ false
    → All (λ q. key_of r q ≡ false) rs
    → All (λ q. key_of r q ≡ false) (add_sample s rs)
unfolding add_sample
add_sample-differs r s [] h a = (h, tt)
add_sample-differs r s (q ∷ qs) h (x, a) =
    elim (Bool-cases (is_bucket s.miner (trunc_hour s.ts) q)) [
      | inl hit ↦ rw hit (x, a)
      | inr miss ↦ rw miss (x, add_sample-differs r s qs h a)
    ]

add_sample-AreDistinct :
    (s : Sample) (rs : List Rollup) → AreDistinct rs → AreDistinct (add_sample s rs)
unfolding add_sample
add_sample-AreDistinct s [] d = (tt, tt)
add_sample-AreDistinct s (q ∷ qs) (h, d) =
    elim (Bool-cases (is_bucket s.miner (trunc_hour s.ts) q)) [
      | inl hit ↦ rw hit (h, d)
      | inr miss ↦
          rw miss (add_sample-differs q s qs (ground arith) h, add_sample-AreDistinct s qs d)
    ]

group_samples-AreDistinct : (ss : List Sample) → AreDistinct (group_samples ss)
unfolding group_samples
group_samples-AreDistinct [] = tt
group_samples-AreDistinct (s ∷ ss) =
    add_sample-AreDistinct s (group_samples ss) (group_samples-AreDistinct ss)

delete_of_none :
    (now : ℕ) (ss : List Sample)
    → All (λ s. is_expired now s ≡ false) ss
    → delete (is_expired now) ss ≡ ss
delete_of_none now [] a = refl
delete_of_none now (s ∷ ss) (h, a) = ground (arith, delete_of_none now ss a)

-- Where no sample is older than 48 hours, a second pass in the same hour changes nothing.
rollup_once_idempotent :
    (db : Db)
    → All (λ s. is_expired db.clock s ≡ false) db.samples
    → rollup_once (rollup_once db) ≡ rollup_once db
unfolding rollup_once
rollup_once_idempotent db fresh =
    let gs = group_samples (select (is_finished db.clock) db.samples) in
    let kept = delete_of_none db.clock db.samples fresh in
    let stable = upserts_of_Holds gs (upsert_rollups gs db.rollups) (
      upserts-Holds gs db.rollups
        (group_samples-AreDistinct (select (is_finished db.clock) db.samples))) in
    rw (kept, kept, stable)

abbrev pub sum_accepted : List Sample → ℤ
sum_accepted [] = pos 0
sum_accepted (s ∷ ss) = s.accepted +ℤ sum_accepted ss

abbrev pub accepted_of : Option Rollup → ℤ
accepted_of none = pos 0
accepted_of (some r) = r.accepted

-- The samples of a miner in the hour that begins at `bucket`.
abbrev pub in_bucket : ℕ → ℕ → Sample → Bool
in_bucket miner bucket s = s.miner == miner && trunc_hour s.ts == bucket

+ℤ_zero : (a : ℤ) → a +ℤ pos 0 ≡ a
+ℤ_zero a = omega (int_laws, eq_of_parts (a +ℤ pos 0) a)

accepted_of-add_sample :
    (miner bucket : ℕ) (s : Sample) (rs : List Rollup)
    → accepted_of (find (is_bucket miner bucket) (add_sample s rs)) ≡ (
        if in_bucket miner bucket s
        then s.accepted +ℤ accepted_of (find (is_bucket miner bucket) rs)
        else accepted_of (find (is_bucket miner bucket) rs))
unfolding add_sample
accepted_of-add_sample miner bucket s [] = ground (arith, +ℤ_zero s.accepted)
accepted_of-add_sample miner bucket s (r ∷ rs) =
    ground (arith, accepted_of-add_sample miner bucket s rs)

-- The group of a bucket has the accepted shares of exactly the samples of its miner and hour.
accepted_of-group_samples :
    (miner bucket : ℕ) (ss : List Sample)
    → accepted_of (find (is_bucket miner bucket) (group_samples ss))
      ≡ sum_accepted (select (in_bucket miner bucket) ss)
unfolding group_samples
accepted_of-group_samples miner bucket [] = refl
accepted_of-group_samples miner bucket (s ∷ ss) =
    accepted_of-add_sample miner bucket s (group_samples ss)
    ∙ ground (arith, accepted_of-group_samples miner bucket ss)

none_hit :
    (miner bucket : ℕ) (gs : List Rollup)
    → find (is_bucket miner bucket) gs ≡ none
    → All (λ g. is_bucket miner bucket g ≡ false) gs
none_hit miner bucket [] e = tt
none_hit miner bucket (g ∷ gs) e = elim (Bool-cases (is_bucket miner bucket g)) [
  | inl hit ↦ absurd (ground arith)
  | inr miss ↦ (miss, none_hit miner bucket gs (rw miss at e))
]

found-add_sample :
    (miner bucket : ℕ) (s : Sample) (rs : List Rollup)
    → is_some (find (is_bucket miner bucket) (add_sample s rs))
      ≡ (if in_bucket miner bucket s then true else is_some (find (is_bucket miner bucket) rs))
unfolding add_sample
found-add_sample miner bucket s [] = ground arith
found-add_sample miner bucket s (r ∷ rs) = ground (arith, found-add_sample miner bucket s rs)

abbrev pub is_any : List Sample → Bool
is_any [] = false
is_any (s ∷ ss) = true

-- There is a group for a bucket exactly where one of the samples is in it.
found-group_samples :
    (miner bucket : ℕ) (ss : List Sample)
    → is_some (find (is_bucket miner bucket) (group_samples ss))
      ≡ is_any (select (in_bucket miner bucket) ss)
unfolding group_samples
found-group_samples miner bucket [] = refl
found-group_samples miner bucket (s ∷ ss) =
    found-add_sample miner bucket s (group_samples ss)
    ∙ ground (arith, found-group_samples miner bucket ss)

-- The finished samples of a miner and an hour.
abbrev pub finished_in : (miner bucket : ℕ) → Db → List Sample
finished_in miner bucket db =
    select (in_bucket miner bucket) (select (is_finished db.clock) db.samples)

nothing_in : (ss : List Sample) → is_any ss ≡ false → ss ≡ []
nothing_in [] e = refl
nothing_in (s ∷ ss) e = cc

-- A pass of RollupOnce leaves the bucket of a miner and an hour as it was where the table has no
-- sample of them in a finished hour; otherwise the bucket is replaced, and counts the accepted shares
-- of exactly those samples.
pub rollup_once-counts :
    (miner bucket : ℕ) (db : Db)
    → let after = find (is_bucket miner bucket) (rollup_once db).rollups in
      ((finished_in miner bucket db ≡ []) × (after ≡ find (is_bucket miner bucket) db.rollups))
      ⊎ ((r : Rollup) × (after ≡ some r)
          × (is_any (finished_in miner bucket db) ≡ true)
          × (r.accepted ≡ sum_accepted (finished_in miner bucket db)))
unfolding rollup_once
rollup_once-counts miner bucket db =
    let fin = select (is_finished db.clock) db.samples in
    let gs = group_samples fin in
    let there = found-group_samples miner bucket fin in
    elim (Option-cases (find (is_bucket miner bucket) gs)) [
      | inl missing ↦
          let key : Rollup = record {
            miner = miner;
            bucket = bucket;
            avg_hashrate = record { total = 0; samples = 0 };
            max_hashrate = 0;
            accepted = pos 0;
            rejected = pos 0;
          } in
          inl (
            nothing_in (finished_in miner bucket db) (sym there ∙ ap is_some missing),
            find-upserts_other key gs db.rollups (none_hit miner bucket gs missing),
          )
      | inr (g, found) ↦
          let hit : is_bucket miner bucket g ≡ true =
            find_sound (is_bucket miner bucket) gs g found in
          let same_miner : miner ≡ g.miner = ground arith in
          let same_bucket : bucket ≡ g.bucket = ground arith in
          let held : Holds (upsert_rollups gs db.rollups) g =
            find-All (Holds (upsert_rollups gs db.rollups)) (is_bucket miner bucket) gs g
              (upserts-Holds gs db.rollups (group_samples-AreDistinct fin)) found in
          inr (
            g,
            rw (same_miner, same_bucket) held,
            sym there ∙ ap is_some found,
            ap accepted_of (sym found) ∙ accepted_of-group_samples miner bucket fin,
          )
    ]

-- A pass over samples whose finished ones form one group writes that group.
rollup_of_group :
    (db : Db) (g : Rollup)
    → group_samples (select (is_finished db.clock) db.samples) ≡ g ∷ []
    → find (key_of g) (rollup_once db).rollups ≡ some g
unfolding rollup_once upsert_rollups
rollup_of_group db g e = rw e (find-upsert_self g db.rollups)

-- Two samples of one finished hour, the older of them past the retention of 48 hours: the pass
-- that deletes it still counts both, and the next pass replaces the bucket by the younger alone.
pub rollup_once_shrinks :
    (db : Db) (old young : Sample)
    → db.samples ≡ old ∷ young ∷ []
    → old.miner ≡ young.miner
    → trunc_hour old.ts ≡ trunc_hour young.ts
    → is_finished db.clock old ≡ true
    → is_finished db.clock young ≡ true
    → is_expired db.clock old ≡ true
    → is_expired db.clock young ≡ false
    → let bucket = is_bucket young.miner (trunc_hour young.ts) in
      (accepted_of (find bucket (rollup_once db).rollups) ≡ old.accepted +ℤ young.accepted)
      × (accepted_of (find bucket (rollup_once (rollup_once db)).rollups) ≡ young.accepted)
unfolding rollup_once group_samples merge_sample one_sample
rollup_once_shrinks db old young e m h f f' x y =
    let both : select (is_finished db.clock) db.samples ≡ old ∷ young ∷ [] = rw e (ground arith) in
    let left : delete (is_expired db.clock) db.samples ≡ young ∷ [] = rw e (ground arith) in
    let one : select (is_finished db.clock) (delete (is_expired db.clock) db.samples) ≡ young ∷ [] =
      rw left (ground arith) in
    (
      ap accepted_of (
          rollup_of_group db (merge_sample old (one_sample young))
            (ap group_samples both ∙ ground arith)),
      ap accepted_of (rollup_of_group (rollup_once db) (one_sample young) (ap group_samples one)),
    )
