-- ===== src/Events/Bounded.antt =====
-- The sizes of channels and of their sets (events/events.go).
use money_miner.Base.{
  ℕ, ◌≡◌, ◌≤◌, refl, Bool, false, List, [], ◌∷◌, ◌++◌, ◌==◌, leb, arith, All, length, map, delete,
  Bool-cases, inl, inr, length-append, All-append, All-delete,
}
use money_miner.Base.Map.{lookup, insert-All, erase-All, modify-All}
use money_miner.Events.{
  Channel, Broker, Step, Reach, subscribes, unsubscribes, publishes, publishes_all, receives, start,
  next, subscribe, unsubscribe, offer, publish_frame, offer_all, publish_all, receive, take_from,
  rest_of, leave, set_of, max_conns_per_user, buffer,
}

module _ {E : Type 0} where
  abbrev IsRoomy : Channel E → Type 0
  IsRoomy c = length c.queue ≤ buffer

  abbrev IsSmall : List (Channel E) → Type 0
  IsSmall set = (length set ≤ max_conns_per_user) × All IsRoomy set

  abbrev pub HasSmall : ℕ × List (Channel E) → Type 0
  HasSmall (owner, set) = IsSmall set

  -- No owner has more than five channels, and no channel holds more than 32 frames.
  abbrev pub IsBounded : Broker E → Type 0
  IsBounded b = All HasSmall b.subs

  length-map : (f : Channel E → Channel E) (cs : List (Channel E)) → length (map f cs) ≡ length cs
  length-map f [] = refl
  length-map f (c ∷ cs) = omega (arith, length-map f cs)

  length-delete : (p : Channel E → Bool) (cs : List (Channel E)) → length (delete p cs) ≤ length cs
  length-delete p [] = omega arith
  length-delete p (c ∷ cs) = ground (arith, length-delete p cs)

  map-IsSmall :
      (f : Channel E → Channel E)
      → ((c : Channel E) → IsRoomy c → IsRoomy (f c))
      → (set : List (Channel E)) → IsSmall set
      → IsSmall (map f set)
  map-IsSmall f kept set (n, a) = (omega (arith, n, length-map f set), roomy set a)
    where
      roomy : (cs : List (Channel E)) → All IsRoomy cs → All IsRoomy (map f cs)
      roomy [] a = tt
      roomy (c ∷ cs) (h, a) = (kept c h, roomy cs a)

  leave-IsSmall : (ch : ℕ) (set : List (Channel E)) → IsSmall set → IsSmall (leave ch set)
  leave-IsSmall ch set (n, a) = (
    omega (arith, n, length-delete (λ (c : Channel E). c.id == ch) set),
    All-delete IsRoomy (λ (c : Channel E). c.id == ch) set a,
  )

  offer-IsRoomy : (e : E) (c : Channel E) → IsRoomy c → IsRoomy (offer e c)
  unfolding offer
  offer-IsRoomy e c h = ground (arith, length-append c.queue (e ∷ []))

  rest_shorter : (es : List E) → length es ≤ buffer → length (rest_of es) ≤ buffer
  rest_shorter [] h = h
  rest_shorter (e ∷ es) h = omega (arith, h)

  take_from-IsRoomy : (ch : ℕ) (c : Channel E) → IsRoomy c → IsRoomy (take_from ch c)
  take_from-IsRoomy ch c h = elim (Bool-cases (c.id == ch)) [
    | inl e ↦ rw e (rest_shorter c.queue h)
    | inr e ↦ rw e h
  ]

  set_of-IsSmall :
      (owner : ℕ) (subs : List (ℕ × List (Channel E)))
      → All HasSmall subs
      → IsSmall (set_of (lookup owner subs))
  set_of-IsSmall owner [] a = (omega arith, tt)
  set_of-IsSmall owner ((k, s) ∷ subs) (h, a) = elim (Bool-cases (k == owner)) [
    | inl e ↦ rw e h
    | inr e ↦ rw e (set_of-IsSmall owner subs a)
  ]

  room_for_one :
      (id : ℕ) (set : List (Channel E))
      → IsSmall set
      → leb max_conns_per_user (length set) ≡ false
      → IsSmall (set ++ record { id = id; queue = [] } ∷ [])
  room_for_one id set (n, a) free = (
    ground (arith, length-append set (record { id = id; queue = [] } ∷ [])),
    All-append IsRoomy set (record { id = id; queue = [] } ∷ []) a (omega arith, tt),
  )

  subscribe-IsBounded : (owner : ℕ) (b : Broker E) → IsBounded b → IsBounded (subscribe owner b).1
  unfolding subscribe
  subscribe-IsBounded owner b a =
      let set = set_of (lookup owner b.subs) in
      let small = set_of-IsSmall owner b.subs a in
      elim (Bool-cases (leb max_conns_per_user (length set))) [
        | inl full ↦ rw full (insert-All HasSmall owner set b.subs small a)
        | inr free ↦
            rw free (insert-All HasSmall owner _ b.subs (room_for_one b.fresh set small free) a)
      ]

  unsubscribe-IsBounded :
      (owner ch : ℕ) (b : Broker E) → IsBounded b → IsBounded (unsubscribe owner ch b)
  unfolding unsubscribe
  unsubscribe-IsBounded owner ch b a =
      elim (Bool-cases (length (leave ch (set_of (lookup owner b.subs))) == 0)) [
        | inl last ↦ rw last (erase-All HasSmall owner b.subs a)
        | inr more ↦
            rw more (modify-All HasSmall owner (leave ch) b.subs (λ k set. leave-IsSmall ch set) a)
      ]

  offer_all-IsBounded :
      (e : E) (subs : List (ℕ × List (Channel E)))
      → All HasSmall subs
      → All HasSmall (offer_all e subs)
  unfolding offer_all
  offer_all-IsBounded e [] a = tt
  offer_all-IsBounded e ((k, set) ∷ subs) (h, a) =
      (map-IsSmall (offer e) (offer-IsRoomy e) set h, offer_all-IsBounded e subs a)

  Step-IsBounded : (b b' : Broker E) → Step b b' → IsBounded b → IsBounded b'
  unfolding publish_frame publish_all receive
  Step-IsBounded b _ (subscribes owner) a = subscribe-IsBounded owner b a
  Step-IsBounded b _ (unsubscribes owner ch) a = unsubscribe-IsBounded owner ch b a
  Step-IsBounded b _ (publishes owner e) a =
      modify-All HasSmall owner (map (offer e)) b.subs
        (λ k. map-IsSmall (offer e) (offer-IsRoomy e)) a
  Step-IsBounded b _ (publishes_all e) a = offer_all-IsBounded e b.subs a
  Step-IsBounded b _ (receives owner ch) a =
      modify-All HasSmall owner (map (take_from ch)) b.subs
        (λ k. map-IsSmall (take_from ch) (take_from-IsRoomy ch)) a

  -- Whatever subscriptions, departures, publications and reads happen, in any order, no owner ever
  -- has more than five channels, and no channel ever holds more than 32 frames.
  pub Reach-IsBounded : (b : Broker E) → Reach b → IsBounded b
  Reach-IsBounded _ start = tt
  Reach-IsBounded b (next {b = a} r s) = Step-IsBounded a b s (Reach-IsBounded a r)
