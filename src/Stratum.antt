-- ===== src/Stratum.antt =====
-- The stratum client (money-miner-backend/internal/stratum/client.go): what Dial makes of a URL, the
-- frames of the pool, and the table of calls that wait for an answer. Calls, the reading loop and
-- contexts that end interleave; each locked section and each channel operation is one step, but for a
-- response: its entry leaves the table and its channel gets it in one step.
pub mod Dial
pub mod Calls
use money_miner.Base.{
  ℕ, ◌+◌, Bool, true, false, Option, none, some, List, [], ◌∷◌, ◌++◌, if◌then◌else◌, Text, text_eq,
  codes, is_empty,
}
use money_miner.Base.Int.{ℤ, pos, negsuc}
use money_miner.Base.Map.{lookup, insert, erase}

-- A JSON value inside the parameters; `raw` is its text as it was sent. A number is one that fits
-- a float64, and its value is only handed on.
pub data Value : Type 0 where
  null : Value
  str : Text → Value
  number : (raw : Text) → (value : ℕ) → Value
  compound : (raw : Text) → Value

-- `rawStr`: null decodes into a string, as the empty one.
unfoldable raw_str : Value → Text
raw_str null = []
raw_str (str s) = s
raw_str (number raw value) = raw
raw_str (compound raw) = raw

-- The `id` of a frame: missing or null, an int64, or anything else.
pub data FrameId : Type 0 where
  no_id : FrameId
  int : ℤ → FrameId
  other_id : FrameId

pub data Method : Type 0 where
  no_method : Method
  named : Text → Method
  other_method : Method

pub data Params : Type 0 where
  array : List Value → Params
  other_params : Params

-- One decoded JSON text of the connection. A frame that is no object is `other`; null counts as an
-- object without members. `error` is the text of an error that is not null.
pub data Frame : Type 0 where
  object : FrameId → Method → Params → (result : Option Text) → (error : Option Text) → Frame
  other : Frame

pub record Job : Type 0 where
  pub id : Text
  pub prev_hash : Text
  pub extra1 : Text
  pub extra2 : Text
  pub version : Text
  pub nbits : Text
  pub ntime : Text
  pub clean : Bool

pub record RpcReq : Type 0 where
  pub id : ℕ
  pub method : Text
  pub params : List Text

pub record RpcResp : Type 0 where
  pub id : ℤ
  pub result : Option Text
  pub error : Option Text

pub data CallResult : Type 0 where
  responded : Option Text → CallResult
  rpc_error : Text → CallResult
  write_failed cancelled : CallResult

-- How far a call has come: it has its number, its channel is in the table, its request is written,
-- it has returned.
pub data Phase : Type 0 where
  numbered registered written : Phase
  returned : CallResult → Phase

-- `boxes` holds the answers in the channels of the calls; a channel is known by the number of the
-- call that made it. `jobs` and `difficulties` record the calls of OnJob and OnDifficulty.
pub record Client : Type 0 where
  pub seq : ℕ
  pub pending : List (ℕ × ℕ)
  pub boxes : List (ℕ × RpcResp)
  pub calls : List (ℕ × Phase)
  pub sent : List RpcReq
  pub jobs : List Job
  pub difficulties : List ℕ
  pub reading : Bool

abbrev pub new_client : Client
new_client = record {
  seq = 0;
  pending = [];
  boxes = [];
  calls = [];
  sent = [];
  jobs = [];
  difficulties = [];
  reading = true;
}

-- The decomposition of `mining.notify`: nothing where there are fewer than nine parameters.
unfoldable pub job_of : List Value → Option Job
unfolding raw_str
job_of (p0 ∷ p1 ∷ p2 ∷ p3 ∷ p4 ∷ p5 ∷ p6 ∷ p7 ∷ p8 ∷ rest) = some (record {
  id = raw_str p0;
  prev_hash = raw_str p1;
  extra1 = raw_str p2;
  extra2 = raw_str p3;
  version = raw_str p5;
  nbits = raw_str p6;
  ntime = raw_str p7;
  clean = text_eq (raw_str p8) (codes "true");
})
job_of _ = none

-- `[]float64`: null decodes into 0.
unfoldable pub floats : List Value → Option (List ℕ)
floats [] = some []
floats (null ∷ vs) = elim (floats vs) [ none ↦ none | some xs ↦ some (0 ∷ xs) ]
floats (number raw value ∷ vs) = elim (floats vs) [ none ↦ none | some xs ↦ some (value ∷ xs) ]
floats (str s ∷ vs) = none
floats (compound raw ∷ vs) = none

abbrev pub on_job : Option Job → Client → Client
on_job none c = c
on_job (some j) c = record c { jobs = c.jobs ++ j ∷ [] }

abbrev pub on_difficulty : Option (List ℕ) → Client → Client
on_difficulty none c = c
on_difficulty (some []) c = c
on_difficulty (some (d ∷ ds)) c = record c { difficulties = c.difficulties ++ d ∷ [] }

-- `handleNotify`, with both callbacks set.
unfoldable pub handle_notify : (method : Text) → Params → Client → Client
unfolding job_of floats
handle_notify method other_params c = c
handle_notify method (array vs) c =
    if text_eq method (codes "mining.notify")
    then on_job (job_of vs) c
    else (if text_eq method (codes "mining.set_difficulty") then on_difficulty (floats vs) c else c)

-- `resp.ID`, where the id decodes into an int64.
abbrev pub response_id : FrameId → Option ℤ
response_id no_id = some (pos 0)
response_id (int i) = some i
response_id other_id = none

abbrev pub lookup_ℤ : ℤ → List (ℕ × ℕ) → Option ℕ
lookup_ℤ (pos n) m = lookup n m
lookup_ℤ (negsuc n) m = none

abbrev pub erase_ℤ : ℤ → List (ℕ × ℕ) → List (ℕ × ℕ)
erase_ℤ (pos n) m = erase n m
erase_ℤ (negsuc n) m = m

abbrev pub deliver : Option ℕ → RpcResp → List (ℕ × RpcResp) → List (ℕ × RpcResp)
deliver none r boxes = boxes
deliver (some ch) r boxes = insert ch r boxes

-- The end of `readLoop`'s body: the channel leaves the table and gets the response.
unfoldable pub respond : RpcResp → Client → Client
respond r c = record c {
  pending = erase_ℤ r.id c.pending;
  boxes = deliver (lookup_ℤ r.id c.pending) r c.boxes;
}

abbrev pub respond_to : Option ℤ → (result error : Option Text) → Client → Client
respond_to none result error c = c
respond_to (some i) result error c = respond (record { id = i; result = result; error = error }) c

-- One round of `readLoop`.
unfoldable pub receive : Frame → Client → Client
unfolding handle_notify respond
receive other c = c
receive (object id other_method params result error) c = c
receive (object id no_method params result error) c = respond_to (response_id id) result error c
receive (object id (named []) params result error) c = respond_to (response_id id) result error c
receive (object id (named (m ∷ method)) params result error) c = handle_notify (m ∷ method) params c

abbrev pub broken : (error : Text) → ℕ → RpcResp
broken error id = record { id = pos id; result = none; error = some error }

abbrev pub fail_boxes : (error : Text) → List (ℕ × ℕ) → List (ℕ × RpcResp) → List (ℕ × RpcResp)
fail_boxes error [] boxes = boxes
fail_boxes error ((id, ch) ∷ pending) boxes =
    fail_boxes error pending (insert ch (broken error id) boxes)

-- `failAll`, with which `readLoop` ends.
unfoldable pub fail_all : (error : Text) → Client → Client
fail_all error c = record c {
  pending = [];
  boxes = fail_boxes error c.pending c.boxes;
  reading = false;
}
