-- ===== src/Events/Stream/Fifo.antt =====
-- An event stream as one bounded queue (handleEvents of api/handlers.go over events/events.go).
use money_miner.Base.{
  ℕ, ◌≡◌, refl, Bool, true, false, ◌&&◌, none, some, List, [], ◌∷◌, ◌++◌, ◌==◌, ==_refl, arith,
  if◌then◌else◌, length, All, leb, sym, append-nil, append_assoc, ◌∙◌,
}
use money_miner.Base.Map.{lookup, lookup-insert}
use money_miner.Events.{Channel, Broker, subscribe, receive, set_of, max_conns_per_user}
use money_miner.Events.Stream.{
  Written, connected, ping, event, Other, joins, leaves, tells, tells_all, Moment, received, beats,
  ticks, elsewhere, Streamed, run_other, stream, handle_events,
}
use money_miner.Events.Stream.Channels.{
  push, chan, channel_of, Holds, subscribe-Holds, unsubscribe-Holds, tells-Holds, tells_all-Holds,
  receive-Holds, next_frame-Holds,
}

module _ {E : Type 0} where
  abbrev queue_other : (owner : ℕ) → Other E → List E → List E
  queue_other owner (joins k) q = q
  queue_other owner (leaves k c) q = q
  queue_other owner (tells k e) q = if k == owner then push e q else q
  queue_other owner (tells_all e) q = push e q

  -- What a stream with its own queue writes: what is in the queue, in its order, what the ticks bring
  -- and the heartbeats.
  abbrev pub queue_stream : (owner : ℕ) → List (Moment E) → List E → List (Written E)
  queue_stream owner [] q = []
  queue_stream owner (beats ∷ ms) q = ping ∷ queue_stream owner ms q
  queue_stream owner (ticks live ∷ ms) q = event live ∷ queue_stream owner ms q
  queue_stream owner (elsewhere o ∷ ms) q = queue_stream owner ms (queue_other owner o q)
  queue_stream owner (received ∷ ms) [] = queue_stream owner ms []
  queue_stream owner (received ∷ ms) (e ∷ q) = event e ∷ queue_stream owner ms q

  -- Nobody else unsubscribes this channel.
  abbrev is_leave_of : (owner ch : ℕ) → Moment E → Bool
  is_leave_of owner ch received = false
  is_leave_of owner ch beats = false
  is_leave_of owner ch (ticks live) = false
  is_leave_of owner ch (elsewhere (joins k)) = false
  is_leave_of owner ch (elsewhere (leaves k c)) = k == owner && c == ch
  is_leave_of owner ch (elsewhere (tells k e)) = false
  is_leave_of owner ch (elsewhere (tells_all e)) = false

  other-Holds :
      (owner ch : ℕ) (o : Other E) (q : List E) (b : Broker E)
      → is_leave_of owner ch (elsewhere o) ≡ false
      → Holds owner ch q b
      → Holds owner ch (queue_other owner o q) (run_other o b)
  unfolding run_other
  other-Holds owner ch (joins k) q b ne h = subscribe-Holds owner k ch q b h
  other-Holds owner ch (leaves k c) q b ne h = unsubscribe-Holds owner k ch c q b ne h
  other-Holds owner ch (tells k e) q b ne h = tells-Holds owner k ch e q b h
  other-Holds owner ch (tells_all e) q b ne h = tells_all-Holds owner ch e q b h

  stream-queue :
      (owner ch : ℕ) (ms : List (Moment E)) (q : List E) (s : Streamed E)
      → All (λ m. is_leave_of owner ch m ≡ false) ms
      → Holds owner ch q s.broker
      → (stream owner ch ms s).written ≡ s.written ++ queue_stream owner ms q
  unfolding stream
  stream-queue owner ch [] q s a h = sym (append-nil s.written)
  stream-queue owner ch (beats ∷ ms) q s (ne, a) h =
      stream-queue owner ch ms q (record s { written = s.written ++ ping ∷ [] }) a h
      ∙ append_assoc s.written (ping ∷ []) (queue_stream owner ms q)
  stream-queue owner ch (ticks live ∷ ms) q s (ne, a) h =
      stream-queue owner ch ms q (record s { written = s.written ++ event live ∷ [] }) a h
      ∙ append_assoc s.written (event live ∷ []) (queue_stream owner ms q)
  stream-queue owner ch (elsewhere o ∷ ms) q s (ne, a) h =
      stream-queue owner ch ms (queue_other owner o q) (record s { broker = run_other o s.broker })
        a (other-Holds owner ch o q s.broker ne h)
  stream-queue owner ch (received ∷ ms) [] s (ne, a) h =
      rw (next_frame-Holds owner ch [] s.broker h, stream) (stream-queue owner ch ms [] s a h)
  stream-queue owner ch (received ∷ ms) (e ∷ q) s (ne, a) h =
      let after : Streamed E = record s {
        written = s.written ++ event e ∷ [];
        broker = receive owner ch s.broker;
      } in
      rw (next_frame-Holds owner ch (e ∷ q) s.broker h, stream)
        (stream-queue owner ch ms q after a (receive-Holds owner ch (e ∷ q) s.broker h)
          ∙ append_assoc s.written (event e ∷ []) (queue_stream owner ms q))

  found_last :
      (ch : ℕ) (cs : List (Channel E))
      → channel_of ch cs ≡ none
      → channel_of ch (cs ++ chan ch [] ∷ []) ≡ some (chan ch [])
  found_last ch [] e = rw (==_refl ch) refl
  found_last ch (d ∷ cs) e = ground (arith, found_last ch cs)

  -- A stream that finds room among its owner's five, and whose channel's number is not in use,
  -- writes the greeting and then exactly what one queue of 32 frames would give it: the frames that
  -- are published to its owner or to all, in their order, less those that come while the queue is
  -- full, and the statistics and heartbeats at their times. Nobody else may unsubscribe its channel.
  pub handle_events-queue :
      (owner : ℕ) (ms : List (Moment E)) (b : Broker E)
      → leb max_conns_per_user (length (set_of (lookup owner b.subs))) ≡ false
      → channel_of b.fresh (set_of (lookup owner b.subs)) ≡ none
      → All (λ m. is_leave_of owner b.fresh m ≡ false) ms
      → (handle_events owner true ms b).written ≡ connected ∷ queue_stream owner ms []
  unfolding handle_events subscribe
  handle_events-queue owner ms b room unused a =
      let set = set_of (lookup owner b.subs) in
      let cs = set ++ chan b.fresh [] ∷ [] in
      rw (room, handle_events)
        (stream-queue owner b.fresh ms [] _ a (
          cs,
          rw (room, subscribe, lookup-insert owner owner cs b.subs, ==_refl owner) refl,
          found_last b.fresh set unused,
        ))
