-- ===== src/Rm/RequestRound.antt =====
-- A producer's request, over all its consumers.
use postmarketos_x00td_cellu.Common.{
  ℕ, suc, ◌+◌, ◌-◌, ◌≡◌, ◌≢◌, refl, sym, ap, ◌∙◌, true, false, some, ==-refl, ==-ne, arith,
}
use postmarketos_x00td_cellu.Common.Int.{ℤ}
use postmarketos_x00td_cellu.Rm.Outcome.{Ends, Ends-then, Moves, IsError}
use postmarketos_x00td_cellu.Rm.Requested.{grants, waits, refuses, consumer_request-Ends}
use postmarketos_x00td_cellu.Rm.Consumer.{consumer_request}
use postmarketos_x00td_cellu.Rm.Producer.{
  Loop, done, bail, request_one, add_pending, drop_pending, put_prod,
}
use postmarketos_x00td_cellu.Rm.Heap.{
  request_in_progress, granted, Cons, Prod, consumer, producer, Heap, Drivers, einprogress,
}

-- What one round of the loop does: `p` and `c` are the producer and the consumer before it, `t` the
-- producer's count of pending requests after it, and `c'` the consumer then.
pub data Round (result : ℤ) (p : Prod) (c : Cons) (l : Loop) (t : ℕ) (c' : Cons) : Type 0 where
  round_grants :
      l ≡ done result
      → t ≡ p.pending_request
      → c'.resource.state ≡ granted
      → Round result p c l t c'
  round_waits :
      l ≡ done einprogress
      → t ≡ suc p.pending_request
      → c'.resource.state ≡ request_in_progress
      → Round result p c l t c'
  round_refuses :
      (error : ℤ) → l ≡ bail error → IsError error → t ≡ p.pending_request → Round result p c l t c'

pub record OneRound (n m : ℕ) (result : ℤ) (p : Prod) (c : Cons) (h : Heap) (l : Loop) (h' : Heap)
    : Type 0 where
  pub pending : ℕ
  pub asked : Cons
  pub round : Round result p c l pending asked
  pub same_peers : asked.resource.peers_list ≡ c.resource.peers_list
  pub at_producer : h'.object n ≡ some (producer (record p { pending_request = pending }))
  pub at_consumer : h'.object m ≡ some (consumer asked)
  pub elsewhere : (k : ℕ) → n ≢ k → m ≢ k → h'.object k ≡ h.object k

module _ (d : Drivers) (n m : ℕ) (apart : n ≢ m) where
  -- The round for the heap `h1` after the consumer's request, and `h2`, which differs at `n` only.
  build-OneRound :
      (result : ℤ) (p : Prod) (c c1 : Cons) (h h1 h2 : Heap) (l : Loop) (t : ℕ)
      → Moves m c1 (put_prod n (add_pending p) h).object h1.object
      → c1.resource.peers_list ≡ c.resource.peers_list
      → h2.object n ≡ some (producer (record p { pending_request = t }))
      → ((k : ℕ) → n ≢ k → h2.object k ≡ h1.object k)
      → Round result p c l t c1
      → OneRound n m result p c h l h2
  build-OneRound result p c c1 h h1 h2 l t mv same e others r = record {
    pending = t;
    asked = c1;
    round = r;
    same_peers = same;
    at_producer = e;
    at_consumer = others m apart ∙ mv.there;
    elsewhere = λ k o q. others k o ∙ mv.elsewhere k q ∙ rw (==-ne n k o);
  }

  dropped :
      (result : ℤ) (p : Prod) (c c1 : Cons) (h h1 : Heap) (l : Loop)
      → Moves m c1 (put_prod n (add_pending p) h).object h1.object
      → c1.resource.peers_list ≡ c.resource.peers_list
      → Round result p c l p.pending_request c1
      → OneRound n m result p c h l (put_prod n (drop_pending (add_pending p)) h1)
  dropped result p c c1 h h1 l mv same r =
      let back : p.pending_request + 1 - 1 ≡ p.pending_request = omega arith in
      build-OneRound result p c c1 h h1 (put_prod n (drop_pending (add_pending p)) h1) l
        p.pending_request mv same
        (rw (==-refl n) (ap (λ t. some (producer (record p { pending_request = t }))) back))
        (λ k o. rw (==-ne n k o)) r

  pub request_one-Ends :
      (result : ℤ) (p : Prod) (c : Cons) (h : Heap)
      → h.object n ≡ some (producer p)
      → h.object m ≡ some (consumer c)
      → Ends (request_one d n m result h) (OneRound n m result p c h)
  unfolding request_one
  request_one-Ends result p c h e f =
      let h0 = put_prod n (add_pending p) h in
      let f0 : h0.object m ≡ some (consumer c) = rw (==-ne n m apart) f in
      rw e (
        Ends-then (consumer_request d m p.resource.max_bw true false h0) _ _
          (consumer_request-Ends d m p.resource.max_bw true c h0 f0)
          λ r h1 (c1, mv, v).
            let e1 : h1.object n ≡ some (producer (add_pending p)) =
              mv.elsewhere n (λ q. apart (sym q)) ∙ rw (==-refl n) in
            let more : p.pending_request + 1 ≡ suc p.pending_request = omega arith in
            elim v [
              | waits z t ↦ rw z (
                  build-OneRound result p c c1 h h1 h1 (done einprogress) (suc p.pending_request) mv
                    t.peers_list
                    (e1 ∙ ap (λ t. some (producer (record p { pending_request = t }))) more)
                    (λ k o. refl) (round_waits refl refl t.state))
              | grants z t ↦
                  rw (z, e1)
                    (dropped result p c c1 h h1 (done result) mv t.peers_list
                      (round_grants refl refl t.state))
              | refuses (a, b) t ↦
                  rw (b, e1, a)
                    (dropped result p c c1 h h1 (bail r) mv t.peers_list
                      (round_refuses r refl (a, b) refl))
            ])
