-- ===== src/Events/Stream.antt =====
-- The event stream (handleEvents of money-miner-backend/internal/api/handlers.go) over the broker.
pub mod Left
pub mod Channels
pub mod Fifo
use money_miner.Base.{
  ℕ, ◌≡◌, Bool, true, false, Option, none, some, List, [], ◌∷◌, ◌++◌, ◌==◌, if◌then◌else◌, find,
}
use money_miner.Base.Map.{lookup}
use money_miner.Events.{
  Channel, Broker, subscribe, unsubscribe, publish_frame, publish_all, receive, set_of,
}

-- What is written to the client: the comments, and events.
pub data Written (E : Type 0) : Type 0 where
  connected ping : Written E
  event : E → Written E

-- What other requests and the hub do to the broker meanwhile.
pub data Other (E : Type 0) : Type 0 where
  joins : (owner : ℕ) → Other E
  leaves : (owner ch : ℕ) → Other E
  tells : (owner : ℕ) → E → Other E
  tells_all : E → Other E

-- A round of the loop, by the case that `select` takes; `ticks` has the statistics of the time. Only
-- the stream itself closes its channel, when it is over.
pub data Moment (E : Type 0) : Type 0 where
  received beats : Moment E
  ticks : (live : E) → Moment E
  elsewhere : Other E → Moment E

pub record Streamed (E : Type 0) : Type 0 where
  pub status : ℕ
  pub written : List (Written E)
  pub broker : Broker E

module _ {E : Type 0} where
  abbrev pub head_of : Option (Channel E) → Option E
  head_of none = none
  head_of (some c) = elim c.queue [ [] ↦ none | e ∷ es ↦ some e ]

  -- The frame that waits longest in a channel.
  unfoldable pub next_frame : (owner ch : ℕ) → Broker E → Option E
  next_frame owner ch b = head_of (find (λ c. c.id == ch) (set_of (lookup owner b.subs)))

  unfoldable pub run_other : Other E → Broker E → Broker E
  run_other (joins owner) b = (subscribe owner b).1
  run_other (leaves owner ch) b = unsubscribe owner ch b
  run_other (tells owner e) b = publish_frame owner e b
  run_other (tells_all e) b = publish_all e b

  -- The loop, until the request ends.
  unfoldable pub stream : (owner ch : ℕ) → List (Moment E) → Streamed E → Streamed E
  unfolding next_frame run_other
  stream owner ch [] s = s
  stream owner ch (beats ∷ ms) s =
      stream owner ch ms (record s { written = s.written ++ ping ∷ [] })
  stream owner ch (ticks live ∷ ms) s =
      stream owner ch ms (record s { written = s.written ++ event live ∷ [] })
  stream owner ch (elsewhere o ∷ ms) s =
      stream owner ch ms (record s { broker = run_other o s.broker })
  stream owner ch (received ∷ ms) s = stream owner ch ms (elim (next_frame owner ch s.broker) [
    | none ↦ s
    | some e ↦ record s { written = s.written ++ event e ∷ []; broker = receive owner ch s.broker }
  ])

  abbrev pub closed : (owner ch : ℕ) → Streamed E → Streamed E
  closed owner ch s = record s { broker = unsubscribe owner ch s.broker }

  -- `flushes` is whether the writer can flush.
  unfoldable pub handle_events :
      (owner : ℕ) → (flushes : Bool) → List (Moment E) → Broker E → Streamed E
  unfolding stream
  handle_events owner flushes ms b =
      let (got, b') = subscribe owner b in
      elim got [
        | none ↦ record { status = 429; written = []; broker = b' }
        | some ch ↦ closed owner ch (
            if flushes
            then stream owner ch ms (record { status = 200; written = connected ∷ []; broker = b' })
            else record { status = 500; written = []; broker = b' })
      ]
