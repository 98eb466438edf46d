-- ===== src/Events/Stream/Left.antt =====
-- What an event stream leaves behind in the broker (handleEvents of api/handlers.go).
use money_miner.Base.{
  ℕ, ◌≡◌, refl, Bool, Option, none, some, List, [], ◌∷◌, ◌++◌, ◌==◌, ==_refl, arith, find,
  Bool-cases, Option-cases, inl, inr, length,
}
use money_miner.Base.Map.{lookup, lookup-erase, lookup-modify_self}
use money_miner.Events.{
  Channel, Broker, Reach, next, subscribes, unsubscribes, receives, publishes, publishes_all,
  subscribe, unsubscribe, receive, set_of, leave,
}
use money_miner.Events.Stream.{
  ping, event, Other, joins, leaves, tells, tells_all, Moment, received, beats, ticks, elsewhere,
  Streamed, next_frame, run_other, stream, handle_events,
}

module _ {E : Type 0} where
  run_other-Reach : (o : Other E) (b : Broker E) → Reach b → Reach (run_other o b)
  unfolding run_other
  run_other-Reach (joins owner) b r = next r (subscribes owner)
  run_other-Reach (leaves owner ch) b r = next r (unsubscribes owner ch)
  run_other-Reach (tells owner e) b r = next r (publishes owner e)
  run_other-Reach (tells_all e) b r = next r (publishes_all e)

  stream-Reach :
      (owner ch : ℕ) (ms : List (Moment E)) (s : Streamed E)
      → Reach s.broker
      → Reach (stream owner ch ms s).broker
  unfolding stream
  stream-Reach owner ch [] s r = r
  stream-Reach owner ch (beats ∷ ms) s r =
      stream-Reach owner ch ms (record s { written = s.written ++ ping ∷ [] }) r
  stream-Reach owner ch (ticks live ∷ ms) s r =
      stream-Reach owner ch ms (record s { written = s.written ++ event live ∷ [] }) r
  stream-Reach owner ch (elsewhere o ∷ ms) s r =
      stream-Reach owner ch ms (record s { broker = run_other o s.broker })
        (run_other-Reach o s.broker r)
  stream-Reach owner ch (received ∷ ms) s r =
      stream-Reach owner ch ms _ (taken (next_frame owner ch s.broker))
    where
      taken :
          (o : Option E)
          → Reach
              (elim o as (λ x. Streamed E) [
                | none ↦ s
                | some e ↦ record s {
                  written = s.written ++ event e ∷ [];
                  broker = receive owner ch s.broker;
                }
              ]).broker
      taken none = r
      taken (some e) = next r (receives owner ch)

  -- Whatever happens during a stream, the broker after it is one that its own steps reach, so that
  -- it keeps its bounds.
  handle_events-Reach :
      (owner : ℕ) (flushes : Bool) (ms : List (Moment E)) (b : Broker E)
      → Reach b
      → Reach (handle_events owner flushes ms b).broker
  unfolding handle_events
  handle_events-Reach owner flushes ms b r = elim (Option-cases (subscribe owner b).0) [
    | inl full ↦ rw (full, handle_events) (next r (subscribes owner))
    | inr (ch, got) ↦ elim (Bool-cases flushes) [
      | inl can ↦
          rw (got, can, handle_events)
            (next (stream-Reach owner ch ms _ (next r (subscribes owner))) (unsubscribes owner ch))
      | inr cannot ↦
          rw (got, cannot, handle_events) (next (next r (subscribes owner)) (unsubscribes owner ch))
    ]
  ]

  left_none :
      (ch : ℕ) (set : List (Channel E)) → find (λ (c : Channel E). c.id == ch) (leave ch set) ≡ none
  left_none ch [] = refl
  left_none ch (c ∷ set) = ground (arith, left_none ch set)

  -- After the unsubscribe function of a channel, its owner has no channel of that number.
  unsubscribe-next_frame :
      (owner ch : ℕ) (b : Broker E)
      → find (λ (c : Channel E). c.id == ch) (set_of (lookup owner (unsubscribe owner ch b).subs))
        ≡ none
  unfolding unsubscribe
  unsubscribe-next_frame owner ch b =
      let set = leave ch (set_of (lookup owner b.subs)) in
      elim (Bool-cases (length set == 0)) [
        | inl last ↦ rw (last, lookup-erase owner owner b.subs, ==_refl owner) refl
        | inr more ↦ elim (Option-cases (lookup owner b.subs)) [
          | inl gone ↦ absurd (ground (arith, gone))
          | inr (cs, has) ↦
              rw (more, lookup-modify_self owner (leave ch) b.subs cs has) (left_none ch cs)
        ]
      ]

  -- A stream that got a channel leaves none of that number to its owner, whether it could write or
  -- not: no stream takes one of the five places for good.
  handle_events-left :
      (owner ch : ℕ) (flushes : Bool) (ms : List (Moment E)) (b : Broker E)
      → (subscribe owner b).0 ≡ some ch
      → find
          (λ (c : Channel E). c.id == ch)
          (set_of (lookup owner (handle_events owner flushes ms b).broker.subs))
        ≡ none
  unfolding handle_events
  handle_events-left owner ch flushes ms b got = elim (Bool-cases flushes) [
    | inl can ↦ rw (got, can, handle_events) (unsubscribe-next_frame owner ch _)
    | inr cannot ↦ rw (got, cannot, handle_events) (unsubscribe-next_frame owner ch _)
  ]
