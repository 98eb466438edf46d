-- ===== src/Stratum/Calls/Answered.antt =====
-- The answers of calls (stratum/client.go).
use money_miner.Base.{
  ℕ, ◌+◌, ◌≡◌, refl, true, false, Option, none, some, arith, Text, Option-cases, Bool-cases, inl,
  inr, ◌⊎◌, ◌==◌, ==_refl,
}
use money_miner.Base.Int.{ℤ, pos, negsuc}
use money_miner.Base.Map.{lookup, lookup-insert, lookup-erase}
use money_miner.Stratum.{
  Client, object, int, no_method, Params, RpcResp, respond, written, receive, fail_all, lookup_ℤ,
  broken,
}
use money_miner.Stratum.Calls.{
  take_number, register, write, answer, expire, Step, takes_number, registers, writes, receives,
  breaks, answers, expires, Reach, Run, stay, then,
}
use money_miner.Stratum.Calls.Matched.{Reach-IsMatched, lookup_own, lookup-fail_boxes}

-- The reading loop never waits to hand a response over: in every state that a client can reach, the
-- channel that a response goes to is empty.
reader_never_blocks :
    (c : Client) (i : ℤ) (ch : ℕ)
    → Reach c
    → lookup_ℤ i c.pending ≡ some ch
    → lookup ch c.boxes ≡ none
reader_never_blocks c (negsuc n) ch r e = cc
reader_never_blocks c (pos n) ch r e =
    let a = Reach-IsMatched c r in
    let same : ch ≡ n = lookup_own n ch c.pending a.own e in rw same (ground (arith, a.in_order n))

-- When the reading loop ends, every call that waits finds a response with its own number in its
-- channel: the one that had come, or the failure.
pub fail_all_wakes :
    (error : Text) (c : Client) (k : ℕ)
    → Reach c
    → lookup k c.calls ≡ some written
    → (r : RpcResp) × (lookup k (fail_all error c).boxes ≡ some r) × (r.id ≡ pos k)
unfolding fail_all
fail_all_wakes error c k r e =
    let a = Reach-IsMatched c r in
    elim (Option-cases (lookup k c.pending)) [
      | inr (ch, waits) ↦
          (broken error k, rw (lookup-fail_boxes error k c.pending c.boxes a.own, waits) refl, refl)
      | inl gone ↦ elim (Option-cases (lookup k c.boxes)) [
        | inl empty ↦ absurd (ground (arith, a.in_order k))
        | inr (x, has) ↦ (
          x,
          rw (lookup-fail_boxes error k c.pending c.boxes a.own, gone) has,
          ground (arith, a.in_order k),
        )
      ]
    ]

-- A response with the number of a call that waits, and whose channel is in the table, ends up in
-- the channel of that call, and no other channel changes.
receive_own :
    (c : Client) (k ch : ℕ) (params : Params) (result error : Option Text)
    → Reach c
    → lookup k c.pending ≡ some ch
    → (lookup k (receive (object (int (pos k)) no_method params result error) c).boxes
        ≡ some (record { id = pos k; result = result; error = error }))
      × ((j : ℕ)
          → (j ≡ k)
            ⊎ (lookup j (receive (object (int (pos k)) no_method params result error) c).boxes
                ≡ lookup j c.boxes))
unfolding receive respond
receive_own c k ch params result error r e =
    let own : ch ≡ k = lookup_own k ch c.pending (Reach-IsMatched c r).own e in
    let x : RpcResp = record { id = pos k; result = result; error = error } in
    (
      rw (e, own, lookup-insert k k x c.boxes, ==_refl k) refl,
      λ j. elim (Bool-cases (k == j)) [
        | inl same ↦ inl (ground arith)
        | inr differ ↦ inr (rw (e, own, lookup-insert k j x c.boxes, differ) refl)
      ],
    )

-- No step fills a channel once the reading loop has ended.
Step-starves :
    (k : ℕ) (c c' : Client)
    → Step c c'
    → c.reading ≡ false
    → lookup k c.boxes ≡ none
    → (c'.reading ≡ false) × (lookup k c'.boxes ≡ none)
unfolding take_number register write answer expire
Step-starves k c _ takes_number over empty = (over, empty)
Step-starves k c _ (registers id e) over empty = (over, empty)
Step-starves k c _ (writes id method params true e) over empty = (over, empty)
Step-starves k c _ (writes id method params false e) over empty = (over, empty)
Step-starves k c _ (receives f e) over empty = absurd (cc)
Step-starves k c _ (breaks error e) over empty = absurd (cc)
Step-starves k c _ (answers id r e b) over empty = (over, ground (arith, lookup-erase id k c.boxes))
Step-starves k c _ (expires id e) over empty = (over, empty)

starved :
    (k : ℕ) (c c' : Client)
    → c.reading ≡ false
    → lookup k c.boxes ≡ none
    → Run c c'
    → lookup k c'.boxes ≡ none
starved k c c' over empty run = (kept c' run).1
  where
    kept : (d : Client) → Run c d → (d.reading ≡ false) × (lookup k d.boxes ≡ none)
    kept _ stay = (over, empty)
    kept d (then {d = b} r s) = let (o, e) = kept b r in Step-starves k b d s o e

-- Once the reading loop of a client has ended, in any state that it can reach, a call that starts
-- then, and takes the next number, never finds an answer in its channel, in whatever way the run goes
-- on; and neither does a call that had none when the loop ended.
pub late_calls_starve :
    (c : Client)
    → Reach c
    → c.reading ≡ false
    → ((c' : Client) → Run (take_number c).1 c' → lookup (take_number c).0 c'.boxes ≡ none)
      × ((k : ℕ) (c' : Client) → lookup k c.boxes ≡ none → Run c c' → lookup k c'.boxes ≡ none)
unfolding take_number
late_calls_starve c r over =
    let a = Reach-IsMatched c r in
    (
      λ c' run.
          starved (c.seq + 1) (take_number c).1 c' over (ground (arith, a.in_order (c.seq + 1)))
            run,
      λ k c' empty run. starved k c c' over empty run,
    )
