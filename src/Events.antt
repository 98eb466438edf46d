-- ===== src/Events.antt =====
-- The broker of user-facing events (money-miner-backend/internal/events/events.go): a set of
-- buffered channels for each owner. A channel is a number and the frames that wait in it.
pub mod Bounded
pub mod Stream
use money_miner.Base.{
  ℕ, ◌+◌, ◌≡◌, Bool, true, false, not, Option, none, some, List, [], ◌∷◌, ◌++◌, ◌==◌, ltb, leb,
  if◌then◌else◌, length, map, delete,
}
use money_miner.Base.Map.{lookup, insert, erase, modify}

abbrev pub max_conns_per_user : ℕ
max_conns_per_user = 5

abbrev pub buffer : ℕ
buffer = 32

pub record Channel (E : Type 0) : Type 0 where
  pub id : ℕ
  pub queue : List E

-- `fresh` numbers the channels.
pub record Broker (E : Type 0) : Type 0 where
  pub subs : List (ℕ × List (Channel E))
  pub fresh : ℕ

module _ {E : Type 0} where
  -- `New`
  abbrev pub new_broker : Broker E
  new_broker = record { subs = []; fresh = 0 }

  abbrev pub set_of : Option (List (Channel E)) → List (Channel E)
  set_of none = []
  set_of (some set) = set

  -- `Subscribe`: no channel where the owner has its five.
  unfoldable pub subscribe : (owner : ℕ) → Broker E → Option ℕ × Broker E
  subscribe owner b =
      let set = set_of (lookup owner b.subs) in
      if leb max_conns_per_user (length set)
      then (none, record b { subs = insert owner set b.subs })
      else (
        some b.fresh,
        record b {
          subs = insert owner (set ++ record { id = b.fresh; queue = [] } ∷ []) b.subs;
          fresh = b.fresh + 1;
        },
      )

  abbrev pub leave : ℕ → List (Channel E) → List (Channel E)
  leave ch set = delete (λ (c : Channel E). c.id == ch) set

  -- The function that Subscribe returns: an owner without channels goes too.
  unfoldable pub unsubscribe : (owner ch : ℕ) → Broker E → Broker E
  unsubscribe owner ch b =
      let set = leave ch (set_of (lookup owner b.subs)) in
      record b {
        subs = if length set == 0 then erase owner b.subs else modify owner (leave ch) b.subs;
      }

  -- A send that does not block: a full channel drops the frame.
  unfoldable pub offer : E → Channel E → Channel E
  offer e c = if ltb (length c.queue) buffer then record c { queue = c.queue ++ e ∷ [] } else c

  -- `Publish`
  unfoldable pub publish_frame : (owner : ℕ) → E → Broker E → Broker E
  unfolding offer
  publish_frame owner e b = record b { subs = modify owner (map (offer e)) b.subs }

  unfoldable pub offer_all : E → List (ℕ × List (Channel E)) → List (ℕ × List (Channel E))
  unfolding offer
  offer_all e [] = []
  offer_all e ((owner, set) ∷ subs) = (owner, map (offer e) set) ∷ offer_all e subs

  -- `PublishAll`
  unfoldable pub publish_all : E → Broker E → Broker E
  unfolding offer_all
  publish_all e b = record b { subs = offer_all e b.subs }

  abbrev pub rest_of : List E → List E
  rest_of [] = []
  rest_of (e ∷ es) = es

  abbrev pub take_from : ℕ → Channel E → Channel E
  take_from ch c = if c.id == ch then record c { queue = rest_of c.queue } else c

  -- The stream of an owner takes the next frame of its channel.
  unfoldable pub receive : (owner ch : ℕ) → Broker E → Broker E
  receive owner ch b = record b { subs = modify owner (map (take_from ch)) b.subs }

-- Everything that happens to a broker.
pub data Step {E : Type 0} : Broker E → Broker E → Type 0 where
  subscribes : {b : Broker E} (owner : ℕ) → Step b (subscribe owner b).1
  unsubscribes : {b : Broker E} (owner ch : ℕ) → Step b (unsubscribe owner ch b)
  publishes : {b : Broker E} (owner : ℕ) (e : E) → Step b (publish_frame owner e b)
  publishes_all : {b : Broker E} (e : E) → Step b (publish_all e b)
  receives : {b : Broker E} (owner ch : ℕ) → Step b (receive owner ch b)

pub data Reach {E : Type 0} : Broker E → Type 0 where
  start : Reach new_broker
  next : {b b' : Broker E} → Reach b → Step b b' → Reach b'
