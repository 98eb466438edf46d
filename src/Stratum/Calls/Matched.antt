-- ===== src/Stratum/Calls/Matched.antt =====
-- The invariant of the table of calls (stratum/client.go).
use money_miner.Base.{
  ℕ, ◌+◌, ◌≡◌, refl, Bool, true, false, ◌&&◌, Option, none, some, List, [], ◌∷◌, ◌==◌, leb, text_eq,
  codes, if◌then◌else◌, arith, All, Text, Bool-cases, Option-cases, inl, inr, is_some,
}
use money_miner.Base.Int.{ℤ, pos, negsuc}
use money_miner.Base.Map.{lookup, insert, erase, lookup-insert, lookup-erase}
use money_miner.Stratum.{
  Client, Frame, object, other, Params, array, other_params, no_method, other_method, named, Job,
  job_of, floats, on_job, on_difficulty, respond_to, response_id, RpcResp, responded, rpc_error,
  write_failed, cancelled, Phase, numbered, registered, written, returned, receive, fail_all,
  respond, handle_notify, lookup_ℤ, erase_ℤ, deliver, broken, fail_boxes,
}
use money_miner.Stratum.Calls.{
  take_number, register, write, answer, expire, Step, takes_number, registers, writes, receives,
  breaks, answers, expires, Reach, start, next,
}

abbrev is_pos : ℤ → ℕ → Bool
is_pos (pos n) k = n == k
is_pos (negsuc n) k = false

-- A call that waits has its channel in the table, or an answer with its own number in the channel.
abbrev is_awaited : ℕ → Option ℕ → Option RpcResp → Bool
is_awaited k (some ch) none = ch == k
is_awaited k none (some r) = is_pos r.id k
is_awaited k none none = false
is_awaited k (some ch) (some r) = false

abbrev is_idle : Option ℕ → Option RpcResp → Bool
is_idle none none = true
is_idle none (some r) = false
is_idle (some ch) none = false
is_idle (some ch) (some r) = false

-- What the table and the channel hold for a number, by how far the call with it has come.
abbrev pub fits : (seq k : ℕ) → Option Phase → Option ℕ → Option RpcResp → Bool
fits seq k none p b = is_idle p b
fits seq k (some numbered) p b = leb k seq && is_idle p b
fits seq k (some registered) p b = leb k seq && is_awaited k p b
fits seq k (some written) p b = leb k seq && is_awaited k p b
fits seq k (some (returned write_failed)) p b = leb k seq && is_awaited k p b
fits seq k (some (returned cancelled)) p b = leb k seq && is_awaited k p b
fits seq k (some (returned (responded t))) p b = leb k seq && is_idle p b
fits seq k (some (returned (rpc_error e))) p b = leb k seq && is_idle p b

abbrev pub holds : Client → ℕ → Bool
holds c k = fits c.seq k (lookup k c.calls) (lookup k c.pending) (lookup k c.boxes)

-- Every number is in order, and every entry of the table is the channel of its own call.
pub record IsMatched (c : Client) : Type 0 where
  pub in_order : (k : ℕ) → holds c k ≡ true
  pub own : All (λ (e : ℕ × ℕ). e.0 ≡ e.1) c.pending

insert_own :
    (id : ℕ) (m : List (ℕ × ℕ))
    → All (λ (e : ℕ × ℕ). e.0 ≡ e.1) m
    → All (λ (e : ℕ × ℕ). e.0 ≡ e.1) (insert id id m)
insert_own id [] a = (refl, tt)
insert_own id ((j, ch) ∷ m) (h, a) = elim (Bool-cases (j == id)) [
  | inl same ↦ rw same (refl, a)
  | inr miss ↦ rw miss (h, insert_own id m a)
]

erase_own :
    (id : ℕ) (m : List (ℕ × ℕ))
    → All (λ (e : ℕ × ℕ). e.0 ≡ e.1) m
    → All (λ (e : ℕ × ℕ). e.0 ≡ e.1) (erase id m)
erase_own id [] a = tt
erase_own id ((j, ch) ∷ m) (h, a) = elim (Bool-cases (j == id)) [
  | inl same ↦ rw same (erase_own id m a)
  | inr miss ↦ rw miss (h, erase_own id m a)
]

pub lookup_own :
    (k ch : ℕ) (m : List (ℕ × ℕ)) → All (λ (e : ℕ × ℕ). e.0 ≡ e.1) m → lookup k m ≡ some ch → ch ≡ k
lookup_own k ch [] a e = cc
lookup_own k ch ((j, x) ∷ m) (h, a) e = ground (arith, h, lookup_own k ch m a)

-- Every channel in the table gets the failure, and no other.
pub lookup-fail_boxes :
    (error : Text) (k : ℕ) (m : List (ℕ × ℕ)) (boxes : List (ℕ × RpcResp))
    → All (λ (e : ℕ × ℕ). e.0 ≡ e.1) m
    → lookup k (fail_boxes error m boxes)
      ≡ (if is_some (lookup k m) then some (broken error k) else lookup k boxes)
lookup-fail_boxes error k [] boxes a = refl
lookup-fail_boxes error k ((j, ch) ∷ m) boxes (h, a) = ground (
  arith,
  h,
  lookup-fail_boxes error k m (insert ch (broken error j) boxes) a,
  lookup-insert ch k (broken error j) boxes,
)

take_number-IsMatched : (c : Client) → IsMatched c → IsMatched (take_number c).1
unfolding take_number
take_number-IsMatched c a = record {
  in_order = λ k. ground (arith, a.in_order k, lookup-insert (c.seq + 1) k numbered c.calls);
  own = a.own;
}

register-IsMatched :
    (id : ℕ) (c : Client)
    → lookup id c.calls ≡ some numbered
    → IsMatched c
    → IsMatched (register id c)
unfolding register
register-IsMatched id c e a = record {
  in_order = λ k.
      ground (
        arith,
        a.in_order k,
        lookup-insert id k registered c.calls,
        lookup-insert id k id c.pending,
      );
  own = insert_own id c.pending a.own;
}

write-IsMatched :
    (id : ℕ) (method : Text) (params : List Text) (works : Bool) (c : Client)
    → lookup id c.calls ≡ some registered
    → IsMatched c
    → IsMatched (write id method params works c)
unfolding write
write-IsMatched id method params true c e a = record {
  in_order = λ k. ground (arith, a.in_order k, lookup-insert id k written c.calls);
  own = a.own;
}
write-IsMatched id method params false c e a = record {
  in_order = λ k. ground (arith, a.in_order k, lookup-insert id k (returned write_failed) c.calls);
  own = a.own;
}

answer-IsMatched :
    (id : ℕ) (r : RpcResp) (c : Client)
    → lookup id c.calls ≡ some written
    → lookup id c.boxes ≡ some r
    → IsMatched c
    → IsMatched (answer id r c)
unfolding answer
answer-IsMatched id r c e b a = elim (Option-cases r.error) [
  | inl fine ↦ record {
    in_order = λ k. ground (
      arith,
      fine,
      a.in_order k,
      lookup-insert id k (returned (responded r.result)) c.calls,
      lookup-erase id k c.boxes,
    );
    own = a.own;
  }
  | inr (x, failed) ↦ record {
    in_order = λ k. ground (
      arith,
      failed,
      a.in_order k,
      lookup-insert id k (returned (rpc_error x)) c.calls,
      lookup-erase id k c.boxes,
    );
    own = a.own;
  }
]

expire-IsMatched :
    (id : ℕ) (c : Client) → lookup id c.calls ≡ some written → IsMatched c → IsMatched (expire id c)
unfolding expire
expire-IsMatched id c e a = record {
  in_order = λ k. ground (arith, a.in_order k, lookup-insert id k (returned cancelled) c.calls);
  own = a.own;
}

deliver_one :
    (n : ℕ) (ch : ℕ) (r : RpcResp) (c : Client)
    → r.id ≡ pos n
    → lookup n c.pending ≡ some ch
    → IsMatched c
    → (k : ℕ)
    → fits c.seq k
        (lookup k c.calls)
        (lookup k (erase n c.pending))
        (lookup k (insert ch r c.boxes))
      ≡ true
deliver_one n ch r c i e a k =
    let same : ch ≡ n = lookup_own n ch c.pending a.own e in
    rw (same, lookup-insert n k r c.boxes, lookup-erase n k c.pending)
      (elim (Bool-cases (n == k)) [
        | inl hit ↦ ground (arith, a.in_order k)
        | inr miss ↦ rw miss (a.in_order k)
      ])

respond-IsMatched : (r : RpcResp) (c : Client) → IsMatched c → IsMatched (respond r c)
unfolding respond
respond-IsMatched r c a =
    elim r.id
        as (λ i.
          r.id ≡ i
          → IsMatched (record c {
            pending = erase_ℤ i c.pending;
            boxes = deliver (lookup_ℤ i c.pending) r c.boxes;
          })) [
            | negsuc n ↦ λ i. a
            | pos n ↦ λ i. elim (Option-cases (lookup n c.pending)) [
              | inl nobody ↦ rw nobody (record {
                in_order = λ k. ground (arith, a.in_order k, lookup-erase n k c.pending);
                own = erase_own n c.pending a.own;
              })
              | inr (ch, waits) ↦ rw waits (record {
                in_order = deliver_one n ch r c i waits a;
                own = erase_own n c.pending a.own;
              })
            ]
          ]
      refl

fail_all-IsMatched : (error : Text) (c : Client) → IsMatched c → IsMatched (fail_all error c)
unfolding fail_all
fail_all-IsMatched error c a = record {
  in_order = λ k. ground (arith, a.in_order k, lookup-fail_boxes error k c.pending c.boxes a.own);
  own = tt;
}

on_job-IsMatched : (o : Option Job) (c : Client) → IsMatched c → IsMatched (on_job o c)
on_job-IsMatched none c a = a
on_job-IsMatched (some j) c a = record { in_order = a.in_order; own = a.own }

on_difficulty-IsMatched :
    (o : Option (List ℕ)) (c : Client) → IsMatched c → IsMatched (on_difficulty o c)
on_difficulty-IsMatched none c a = a
on_difficulty-IsMatched (some []) c a = a
on_difficulty-IsMatched (some (d ∷ ds)) c a = record { in_order = a.in_order; own = a.own }

handle_notify-IsMatched :
    (method : Text) (params : Params) (c : Client)
    → IsMatched c
    → IsMatched (handle_notify method params c)
unfolding handle_notify
handle_notify-IsMatched method other_params c a = a
handle_notify-IsMatched method (array vs) c a =
    elim (Bool-cases (text_eq method (codes "mining.notify"))) [
      | inl job ↦ rw job (on_job-IsMatched (job_of vs) c a)
      | inr no_job ↦ elim (Bool-cases (text_eq method (codes "mining.set_difficulty"))) [
        | inl difficulty ↦ rw (no_job, difficulty) (on_difficulty-IsMatched (floats vs) c a)
        | inr neither ↦ rw (no_job, neither) a
      ]
    ]

respond_to-IsMatched :
    (id : Option ℤ) (result error : Option Text) (c : Client)
    → IsMatched c
    → IsMatched (respond_to id result error c)
respond_to-IsMatched none result error c a = a
respond_to-IsMatched (some i) result error c a = respond-IsMatched _ c a

receive-IsMatched : (f : Frame) (c : Client) → IsMatched c → IsMatched (receive f c)
unfolding receive
receive-IsMatched other c a = a
receive-IsMatched (object id other_method params result error) c a = a
receive-IsMatched (object id no_method params result error) c a =
    respond_to-IsMatched (response_id id) result error c a
receive-IsMatched (object id (named []) params result error) c a =
    respond_to-IsMatched (response_id id) result error c a
receive-IsMatched (object id (named (m ∷ method)) params result error) c a =
    handle_notify-IsMatched (m ∷ method) params c a

Step-IsMatched : (c c' : Client) → Step c c' → IsMatched c → IsMatched c'
Step-IsMatched c _ takes_number a = take_number-IsMatched c a
Step-IsMatched c _ (registers id e) a = register-IsMatched id c e a
Step-IsMatched c _ (writes id method params works e) a =
    write-IsMatched id method params works c e a
Step-IsMatched c _ (receives f e) a = receive-IsMatched f c a
Step-IsMatched c _ (breaks error e) a = fail_all-IsMatched error c a
Step-IsMatched c _ (answers id r e b) a = answer-IsMatched id r c e b a
Step-IsMatched c _ (expires id e) a = expire-IsMatched id c e a

-- Whatever calls, frames, failures and deadlines come, in any order: a number above the counter is
-- not in use; a call that waits, or gave up, has either its own channel in the table and nothing in
-- it, or no entry and a response with its own number in its channel; a call that returned a
-- response has left neither.
pub Reach-IsMatched : (c : Client) → Reach c → IsMatched c
Reach-IsMatched _ start = record { in_order = λ k. refl; own = tt }
Reach-IsMatched c (next {c = b} r s) = Step-IsMatched b c s (Reach-IsMatched b r)
