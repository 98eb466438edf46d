-- ===== src/Poller/Repoll.antt =====
-- Polling a pool again (`check` of payouts/poller.go).
use money_miner.Base.{
  ℕ, ◌+◌, ◌≡◌, refl, Bool, true, false, not, ◌||◌, none, some, List, [], ◌∷◌, arith, All, Text,
  is_empty, is_some, find, find-append, find-append_miss, Option-cases, inl, inr, text_eq_refl,
}
use money_miner.Store.Types.{Payout}
use money_miner.Store.Db.{Db, currency_by_symbol}
use money_miner.Store.Payouts.{insert_payout, new_payout, is_duplicate, null_if_empty}
use money_miner.Swarm.Hub.State.{Hub}
use money_miner.Poller.{
  Payment, PoolApi, record_payment, record_payments, is_positive, explorer_url,
}

-- Recording the payment would change nothing.
abbrev is_settled : PoolApi → Payment → Db → Bool
is_settled q pay db = not (is_positive pay.amount) || elim (currency_by_symbol q.symbol db) [
  | none ↦ true
  | some c ↦ is_some (find (is_duplicate c.id (null_if_empty pay.txid)) db.payouts)
]

settled_unchanged :
    (q : PoolApi) (pay : Payment) (h : Hub)
    → is_settled q pay h.db ≡ true
    → record_payment q pay h ≡ h
unfolding record_payment insert_payout
settled_unchanged q pay h e = ground arith

hits_itself :
    (currency : ℕ) (txid : Text) (row : Payout)
    → is_empty txid ≡ false
    → row.currency ≡ currency
    → row.txid ≡ null_if_empty txid
    → find (is_duplicate currency (null_if_empty txid)) (row ∷ []) ≡ some row
hits_itself currency [] row named e f = cc
hits_itself currency (c ∷ txid) row named e f = ground (arith, text_eq_refl (c ∷ txid))

settled_after :
    (q : PoolApi) (pay : Payment) (h : Hub)
    → is_empty pay.txid ≡ false
    → is_settled q pay (record_payment q pay h).db ≡ true
unfolding record_payment insert_payout
settled_after q pay h named = elim (Option-cases (currency_by_symbol q.symbol h.db)) [
  | inl unknown ↦ ground arith
  | inr (c, known) ↦
      let row =
        new_payout q.owner c.id q.address pay.amount pay.txid (explorer_url q.tx_tpl pay.txid)
          q.pool_name pay.paid_at h.db in
      elim (Option-cases (find (is_duplicate c.id (null_if_empty pay.txid)) h.db.payouts)) [
        | inl missing ↦ ground (
          arith,
          find-append_miss (is_duplicate c.id (null_if_empty pay.txid)) h.db.payouts (row ∷ [])
              missing,
          hits_itself c.id pay.txid row named refl refl,
        )
        | inr (p, there) ↦ ground arith
      ]
]

settled_still :
    (q : PoolApi) (pay other : Payment) (h : Hub)
    → is_settled q pay h.db ≡ true
    → is_settled q pay (record_payment q other h).db ≡ true
unfolding record_payment insert_payout
settled_still q pay other h e = elim (Option-cases (currency_by_symbol q.symbol h.db)) [
  | inl unknown ↦ ground arith
  | inr (c, known) ↦
      elim (Option-cases (find (is_duplicate c.id (null_if_empty pay.txid)) h.db.payouts)) [
        | inl missing ↦ ground arith
        | inr (p, there) ↦ ground (
          arith,
          find-append (is_duplicate c.id (null_if_empty pay.txid)) h.db.payouts
              (new_payout q.owner c.id q.address other.amount other.txid
                  (explorer_url q.tx_tpl other.txid) q.pool_name other.paid_at h.db
                ∷ [])
              p there,
        )
      ]
]

settled_throughout :
    (q : PoolApi) (pay : Payment) (ps : List Payment) (h : Hub)
    → is_settled q pay h.db ≡ true
    → is_settled q pay (record_payments q ps h).db ≡ true
unfolding record_payments
settled_throughout q pay [] h e = e
settled_throughout q pay (other ∷ ps) h e =
    settled_throughout q pay ps (record_payment q other h) (settled_still q pay other h e)

AreSettled : PoolApi → Db → List Payment → Type 0
AreSettled q db ps = All (λ pay. is_settled q pay db ≡ true) ps

abbrev AreNamed : List Payment → Type 0
AreNamed ps = All (λ (pay : Payment). is_empty pay.txid ≡ false) ps

record_payments-AreSettled :
    (q : PoolApi) (ps : List Payment) (h : Hub)
    → AreNamed ps
    → AreSettled q (record_payments q ps h).db ps
unfolding record_payments AreSettled
record_payments-AreSettled q [] h a = tt
record_payments-AreSettled q (pay ∷ ps) h (named, a) = (
  settled_throughout q pay ps (record_payment q pay h) (settled_after q pay h named),
  record_payments-AreSettled q ps (record_payment q pay h) a,
)

all_settled_unchanged :
    (q : PoolApi) (ps : List Payment) (h : Hub) → AreSettled q h.db ps → record_payments q ps h ≡ h
unfolding record_payments AreSettled
all_settled_unchanged q [] h a = refl
all_settled_unchanged q (pay ∷ ps) h (e, a) =
    let same = settled_unchanged q pay h e in rw same (all_settled_unchanged q ps h a)

-- Recording the same payments again at any later time changes nothing and announces nothing, if
-- each has a transaction id.
pub repoll_idempotent :
    (q : PoolApi) (ps : List Payment) (wait : ℕ) (h : Hub)
    → AreNamed ps
    → let h' = record_payments q ps h in
      let later : Hub = record h' { db = record h'.db { clock = h'.db.clock + wait } } in
      record_payments q ps later ≡ later
unfolding AreSettled
repoll_idempotent q ps wait h named =
    let h' = record_payments q ps h in
    all_settled_unchanged q ps (record h' { db = record h'.db { clock = h'.db.clock + wait } })
      (record_payments-AreSettled q ps h named)
