-- ===== src/Events/Stream/Channels.antt =====
-- What happens to one channel of the broker (events/events.go).
use money_miner.Base.{
  ℕ, ◌≡◌, refl, true, false, ◌&&◌, Option, none, some, List, [], ◌∷◌, ◌++◌, ◌==◌, ==_refl, arith,
  if◌then◌else◌, find, Bool-cases, inl, inr, length, ltb, map, leb, ap, ==_iff, ◌∙◌,
}
use money_miner.Base.Map.{
  lookup, modify, lookup-insert, lookup-erase, lookup-modify_self, lookup-modify_ne,
}
use money_miner.Events.{
  Channel, Broker, subscribe, unsubscribe, publish_frame, publish_all, offer, offer_all, receive,
  take_from, rest_of, set_of, leave, buffer, max_conns_per_user,
}
use money_miner.Events.Stream.{head_of, next_frame}

module _ {E : Type 0} where
  -- A queue that drops what comes while it is full.
  abbrev pub push : E → List E → List E
  push e q = if ltb (length q) buffer then q ++ e ∷ [] else q

  abbrev pub chan : ℕ → List E → Channel E
  chan ch q = record { id = ch; queue = q }

  abbrev pub channel_of : ℕ → List (Channel E) → Option (Channel E)
  channel_of ch cs = find (λ (c : Channel E). c.id == ch) cs

  -- The broker has the channel, with this queue.
  abbrev pub Holds : (owner ch : ℕ) → List E → Broker E → Type 0
  Holds owner ch q b =
      (cs : List (Channel E)) × (lookup owner b.subs ≡ some cs)
      × (channel_of ch cs ≡ some (chan ch q))

  channel_of-map :
      (ch : ℕ) (f : Channel E → Channel E) (cs : List (Channel E)) (c : Channel E)
      → ((d : Channel E) → (f d).id ≡ d.id)
      → channel_of ch cs ≡ some c
      → channel_of ch (map f cs) ≡ some (f c)
  channel_of-map ch f [] c kept e = absurd (cc)
  channel_of-map ch f (d ∷ cs) c kept e = elim (Bool-cases (d.id == ch)) [
    | inl here ↦
        let same : some d ≡ some c = rw here at e in
        let still : ((f d).id == ch) ≡ true = rw (kept d) here in
        rw still
          (ap (λ (o : Option (Channel E)). elim o [ none ↦ none | some x ↦ some (f x) ]) same)
    | inr on ↦ rw (kept d, on) (channel_of-map ch f cs c kept (rw on at e))
  ]

  channel_of-append :
      (ch : ℕ) (cs ds : List (Channel E)) (c : Channel E)
      → channel_of ch cs ≡ some c
      → channel_of ch (cs ++ ds) ≡ some c
  channel_of-append ch [] ds c e = absurd (cc)
  channel_of-append ch (d ∷ cs) ds c e = ground (arith, channel_of-append ch cs ds c)

  channel_of-leave :
      (ch k : ℕ) (cs : List (Channel E)) (c : Channel E)
      → (k == ch) ≡ false
      → channel_of ch cs ≡ some c
      → channel_of ch (leave k cs) ≡ some c
  channel_of-leave ch k [] c other e = absurd (cc)
  channel_of-leave ch k (d ∷ cs) c other e = ground (arith, channel_of-leave ch k cs c other)

  lookup-offer_all :
      (owner : ℕ) (e : E) (subs : List (ℕ × List (Channel E))) (cs : List (Channel E))
      → lookup owner subs ≡ some cs
      → lookup owner (offer_all e subs) ≡ some (map (offer e) cs)
  unfolding offer_all
  lookup-offer_all owner e [] cs h = absurd (cc)
  lookup-offer_all owner e ((k, set) ∷ subs) cs h = ground (arith, lookup-offer_all owner e subs cs)

  offer-push : (ch : ℕ) (e : E) (q : List E) → offer e (chan ch q) ≡ chan ch (push e q)
  unfolding offer
  offer-push ch e q = elim (Bool-cases (ltb (length q) buffer)) [
    | inl room ↦ rw room refl
    | inr full ↦ rw full refl
  ]

  offer-id : (e : E) (d : Channel E) → (offer e d).id ≡ d.id
  unfolding offer
  offer-id e d = ground arith

  take_from-id : (ch : ℕ) (d : Channel E) → (take_from ch d).id ≡ d.id
  take_from-id ch d = ground arith

  take_from-rest : (ch : ℕ) (q : List E) → take_from ch (chan ch q) ≡ chan ch (rest_of q)
  take_from-rest ch q = rw (==_refl ch) refl

  some_left :
      (ch : ℕ) (cs : List (Channel E)) (c : Channel E)
      → channel_of ch cs ≡ some c
      → (length cs == 0) ≡ false
  some_left ch [] c e = absurd (cc)
  some_left ch (d ∷ cs) c e = ground arith

  modify_kept :
      (owner ch : ℕ) (q q' : List E) (f : List (Channel E) → List (Channel E)) (b : Broker E)
      → ((cs : List (Channel E))
          → channel_of ch cs ≡ some (chan ch q)
          → channel_of ch (f cs) ≡ some (chan ch q'))
      → Holds owner ch q b
      → Holds owner ch q' (record b { subs = modify owner f b.subs })
  modify_kept owner ch q q' f b kept (cs, has, found) =
      (f cs, lookup-modify_self owner f b.subs cs has, kept cs found)

  modify_other :
      (owner k ch : ℕ) (q : List E) (f : List (Channel E) → List (Channel E)) (b : Broker E)
      → (k == owner) ≡ false
      → Holds owner ch q b
      → Holds owner ch q (record b { subs = modify k f b.subs })
  modify_other owner k ch q f b ne (cs, has, found) =
      (cs, lookup-modify_ne k owner f b.subs (λ e. absurd (ground (arith, ne, e))) ∙ has, found)

  subscribe_own :
      (owner ch : ℕ) (q : List E) (b : Broker E)
      → Holds owner ch q b
      → Holds owner ch q (subscribe owner b).1
  unfolding subscribe
  subscribe_own owner ch q b (cs, has, found) =
      let set = set_of (lookup owner b.subs) in
      let new : List (Channel E) = record { id = b.fresh; queue = [] } ∷ [] in
      elim (Bool-cases (leb max_conns_per_user (length set))) [
        | inl full ↦
            rw full (cs, rw (lookup-insert owner owner set b.subs, ==_refl owner, has) refl, found)
        | inr free ↦ rw free (
          set ++ new,
          rw (lookup-insert owner owner (set ++ new) b.subs, ==_refl owner) refl,
          rw has (channel_of-append ch cs new (chan ch q) found),
        )
      ]

  pub subscribe-Holds :
      (owner k ch : ℕ) (q : List E) (b : Broker E)
      → Holds owner ch q b
      → Holds owner ch q (subscribe k b).1
  unfolding subscribe
  subscribe-Holds owner k ch q b (cs, has, found) = elim (Bool-cases (k == owner)) [
    | inl same ↦ rw ((==_iff k owner).0 same) (subscribe_own owner ch q b (cs, has, found))
    | inr other ↦ elim (Bool-cases (leb max_conns_per_user (length (set_of (lookup k b.subs))))) [
      | inl full ↦ rw full (cs, rw (lookup-insert k owner _ b.subs, other) has, found)
      | inr free ↦ rw free (cs, rw (lookup-insert k owner _ b.subs, other) has, found)
    ]
  ]

  unsubscribe_own :
      (owner ch c : ℕ) (q : List E) (b : Broker E)
      → (c == ch) ≡ false
      → Holds owner ch q b
      → Holds owner ch q (unsubscribe owner c b)
  unfolding unsubscribe
  unsubscribe_own owner ch c q b differ (cs, has, found) =
      let stays = channel_of-leave ch c cs (chan ch q) differ found in
      let more : (length (leave c (set_of (lookup owner b.subs))) == 0) ≡ false =
        rw has (some_left ch (leave c cs) (chan ch q) stays) in
      rw more (leave c cs, lookup-modify_self owner (leave c) b.subs cs has, stays)

  pub unsubscribe-Holds :
      (owner k ch c : ℕ) (q : List E) (b : Broker E)
      → (k == owner && c == ch) ≡ false
      → Holds owner ch q b
      → Holds owner ch q (unsubscribe k c b)
  unfolding unsubscribe
  unsubscribe-Holds owner k ch c q b ne (cs, has, found) = elim (Bool-cases (k == owner)) [
    | inl same ↦
        rw ((==_iff k owner).0 same)
          (unsubscribe_own owner ch c q b (ground (arith, ne, same)) (cs, has, found))
    | inr other ↦ elim (Bool-cases (length (leave c (set_of (lookup k b.subs))) == 0)) [
      | inl last ↦ rw last (cs, rw (lookup-erase k owner b.subs, other) has, found)
      | inr more ↦ rw more (modify_other owner k ch q (leave c) b other (cs, has, found))
    ]
  ]

  pub tells-Holds :
      (owner k ch : ℕ) (e : E) (q : List E) (b : Broker E)
      → Holds owner ch q b
      → Holds owner ch (if k == owner then push e q else q) (publish_frame k e b)
  unfolding publish_frame
  tells-Holds owner k ch e q b h = elim (Bool-cases (k == owner)) [
    | inl same ↦
        rw (same, (==_iff k owner).0 same)
          (modify_kept owner ch q (push e q) (map (offer e)) b
            (λ cs found.
              channel_of-map ch (offer e) cs (chan ch q) (offer-id e) found
              ∙ ap some (offer-push ch e q))
            h)
    | inr other ↦ rw other (modify_other owner k ch q (map (offer e)) b other h)
  ]

  pub tells_all-Holds :
      (owner ch : ℕ) (e : E) (q : List E) (b : Broker E)
      → Holds owner ch q b
      → Holds owner ch (push e q) (publish_all e b)
  unfolding publish_all
  tells_all-Holds owner ch e q b (cs, has, found) = (
    map (offer e) cs,
    lookup-offer_all owner e b.subs cs has,
    channel_of-map ch (offer e) cs (chan ch q) (offer-id e) found ∙ ap some (offer-push ch e q),
  )

  pub receive-Holds :
      (owner ch : ℕ) (q : List E) (b : Broker E)
      → Holds owner ch q b
      → Holds owner ch (rest_of q) (receive owner ch b)
  unfolding receive
  receive-Holds owner ch q b h =
      modify_kept owner ch q (rest_of q) (map (take_from ch)) b
        (λ cs found.
          channel_of-map ch (take_from ch) cs (chan ch q) (take_from-id ch) found
          ∙ ap some (take_from-rest ch q))
        h

  pub next_frame-Holds :
      (owner ch : ℕ) (q : List E) (b : Broker E)
      → Holds owner ch q b
      → next_frame owner ch b ≡ head_of (some (chan ch q))
  unfolding next_frame
  next_frame-Holds owner ch q b (cs, has, found) = rw (has, found) refl
