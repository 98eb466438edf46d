-- ===== src/Poller.antt =====
-- The payout observer (money-miner-backend/internal/payouts/poller.go): reading payments out of a
-- pool's response, and recording them. Fetching, and reading numbers and times out of texts, are
-- parameters.
pub mod Repoll
use money_miner.Base.{
  ℕ, Bool, true, false, not, ◌&&◌, Option, none, some, List, [], ◌∷◌, if◌then◌else◌, Text, codes,
  text_eq, is_empty, contains, replace_all,
}
use money_miner.Base.Int.{ℤ, pos, pos_part, ltb_ℤ}
use money_miner.Store.Types.{Result, ok, err, Currency, Pool, Wallet}
use money_miner.Store.Db.{Db, currency_by_id}
use money_miner.Store.Payouts.{insert_payout}
use money_miner.Swarm.Hub.State.{Hub, Event, payout_detected, publish}

-- A decoded JSON value. Numbers are whole, like all amounts here.
mutual
  pub data Json : Type 0 where
    null : Json
    boolean : Bool → Json
    number : ℤ → Json
    text : Text → Json
    array : Items → Json
    object : Fields → Json

  pub data Items : Type 0 where
    end : Items
    item : Json → Items → Items

  pub data Fields : Type 0 where
    no_field : Fields
    field : Text → Json → Fields → Fields

-- `m[key]`, `null` where there is none; of two fields with one name the later counts.
unfoldable later_of : Option Json → Json → Json
later_of none v = v
later_of (some w) v = w

unfoldable find_field : Text → Fields → Option Json
unfolding later_of
find_field key no_field = none
find_field key (field k v fs) =
    let rest = find_field key fs in if text_eq k key then some (later_of rest v) else rest

unfoldable get_field : Text → Fields → Json
unfolding find_field
get_field key fs = elim (find_field key fs) [ none ↦ null | some v ↦ v ]

pub record Payment : Type 0 where
  pub txid : Text
  pub amount : ℤ
  pub paid_at : Option ℕ

-- A nonempty text under the first of the keys that has one.
unfoldable first_text : List Text → Fields → Text
unfolding get_field
first_text [] m = []
first_text (k ∷ ks) m =
    let rest = first_text ks m in
    elim (get_field k m) [ text s ↦ if is_empty s then rest else s | _ ↦ rest ]

abbrev pub or_keep {ℓ} : {A : Type ℓ} → Option A → A → A
or_keep none a = a
or_keep (some b) a = b

abbrev or_keep_time : Option ℕ → Option ℕ → Option ℕ
or_keep_time none t = t
or_keep_time (some u) t = some u

-- `Sscanf(v, "%g", &f)` and `time.Parse(time.RFC3339, v)`.
pub record Readers : Type 0 where
  pub scan_number : Text → Option ℤ
  pub parse_time : Text → Option ℕ

module _ (readers : Readers) where
  open readers use {scan_number, parse_time}

  -- The last of the keys that gives a number. Times before 1970 count as 1970.
  unfoldable last_number : List Text → Fields → ℤ → ℤ
  unfolding get_field
  last_number [] m n = n
  last_number (k ∷ ks) m n =
      last_number ks m
        (elim (get_field k m) [ number v ↦ v | text s ↦ or_keep (scan_number s) n | _ ↦ n ])

  unfoldable last_time : List Text → Fields → Option ℕ → Option ℕ
  unfolding get_field
  last_time [] m t = t
  last_time (k ∷ ks) m t = last_time ks m (elim (get_field k m) [
    | number v ↦ some (pos_part v)
    | text s ↦ or_keep_time (parse_time s) t
    | _ ↦ t
  ])

  abbrev txid_keys : List Text
  txid_keys = codes "tx" ∷ codes "txid" ∷ codes "tx_hash" ∷ codes "txHash" ∷ codes "hash" ∷ []

  abbrev amount_keys : List Text
  amount_keys = codes "amount" ∷ codes "value" ∷ []

  abbrev time_keys : List Text
  time_keys = codes "timestamp" ∷ codes "time" ∷ codes "date" ∷ codes "created_at" ∷ []

  unfoldable payment_of : Fields → Payment
  unfolding first_text last_number last_time
  payment_of m = record {
    txid = first_text txid_keys m;
    amount = last_number amount_keys m (pos 0);
    paid_at = last_time time_keys m none;
  }

  -- Items that are no objects are passed over.
  unfoldable payments_of : Items → List Payment
  unfolding payment_of
  payments_of end = []
  payments_of (item v rest) =
      let ps = payments_of rest in elim v [ object m ↦ payment_of m ∷ ps | _ ↦ ps ]

  abbrev items_or : Json → Items → Items
  items_or (array items) other = items
  items_or _ other = other

  abbrev items_of : Json → Items
  items_of v = items_or v end

  -- `extractPayments`
  unfoldable pub extract_payments : Json → List Payment
  unfolding payments_of get_field
  extract_payments (object m) =
      payments_of
        (items_or (get_field (codes "payments") m) (items_of (get_field (codes "Payments") m)))
  extract_payments _ = []

-- `poolAPI`
pub record PoolApi : Type 0 where
  pub owner : ℕ
  pub symbol : Text
  pub address : Text
  pub tx_tpl : Text
  pub pool_name : Text
  pub url : Text

unfoldable pub explorer_url : Text → Text → Text
explorer_url tx_tpl txid =
    if not (is_empty txid) && contains tx_tpl (codes "{txid}")
    then replace_all tx_tpl (codes "{txid}") txid
    else []

-- A row that was inserted is announced.
abbrev pub notify : Result Bool → PoolApi → Payment → Text → Hub → Hub
notify (ok true) q pay url h =
    publish q.owner (payout_detected q.symbol pay.amount pay.txid url (not (is_empty url))) h
notify (ok false) q pay url h = h
notify (err _) q pay url h = h

abbrev pub is_positive : ℤ → Bool
is_positive n = ltb_ℤ (pos 0) n

-- One round of the loop of `check`.
unfoldable pub record_payment : PoolApi → Payment → Hub → Hub
unfolding explorer_url
record_payment q pay h =
    if not (is_positive pay.amount)
    then h
    else (let url = explorer_url q.tx_tpl pay.txid in
        let (r, db) =
          insert_payout q.owner q.symbol q.address pay.amount pay.txid url q.pool_name pay.paid_at
            h.db in
        notify r q pay url (record h { db = db }))

unfoldable pub record_payments : PoolApi → List Payment → Hub → Hub
unfolding record_payment
record_payments q [] h = h
record_payments q (pay ∷ ps) h = record_payments q ps (record_payment q pay h)

-- `fetch` is what a GET gives: the decoded body of an answer 200, or nothing.
module _ (readers : Readers) (fetch : Text → Option Json) where
  unfoldable pub check : PoolApi → Hub → Hub
  unfolding record_payments extract_payments
  check q h = elim (fetch q.url) [
    | none ↦ h
    | some doc ↦ record_payments q (extract_payments readers doc) h
  ]

  abbrev pub pool_api : Wallet → Currency → Pool → PoolApi
  pool_api w c pl = record {
    owner = w.owner;
    symbol = c.symbol;
    address = w.address;
    tx_tpl = c.explorer_tx_tpl;
    pool_name = pl.name;
    url = replace_all pl.api_tpl (codes "{address}") w.address;
  }

  unfoldable pub check_pools : Wallet → Currency → List Pool → Hub → Hub
  unfolding check
  check_pools w c [] h = h
  check_pools w c (pl ∷ pls) h = check_pools w c pls (
      if is_empty pl.api_tpl
      then h
      else (if not (contains pl.api_tpl (codes "{address}")) then h else check (pool_api w c pl) h))

  -- `once`, over the wallets. The query's filter on the text of the column is left out: it only
  -- drops currencies whose pools have no address to ask.
  unfoldable pub poll_wallets : List Wallet → Hub → Hub
  unfolding check_pools
  poll_wallets [] h = h
  poll_wallets (w ∷ ws) h = poll_wallets ws (elim (currency_by_id w.currency h.db) [
    | none ↦ h
    | some c ↦ elim c.pools [ none ↦ h | some pls ↦ check_pools w c pls h ]
  ])

  unfoldable pub poll_once : Hub → Hub
  unfolding poll_wallets
  poll_once h = poll_wallets h.db.wallets h
