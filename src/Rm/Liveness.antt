-- ===== src/Rm/Liveness.antt =====
-- From a producer's request to its grant.
use postmarketos_x00td_cellu.Common.{
  ℕ, zero, suc, ◌+◌, ◌<◌, ◌≤◌, ◌≡◌, ◌≢◌, refl, sym, ap, ◌∙◌, ◌⊎◌, inl, inr, true, Bool-cases, subst,
  Option, some, List, [], ◌∷◌, arith, length,
}
use mathlib.Core.Bool.{true≢false}
use postmarketos_x00td_cellu.Common.Int.{pos}
use postmarketos_x00td_cellu.Rm.PeersList.{PeersList, get_resource, get_size}
use postmarketos_x00td_cellu.Rm.Peering.{
  PeerAt, vacant, filled, IsAnswered, answered_granted, answered_waiting, waits_in, waiting,
}
use postmarketos_x00td_cellu.Rm.RequestLoop.{pending_of, Any}
use postmarketos_x00td_cellu.Rm.Outcome.{Ends, Returns}
use postmarketos_x00td_cellu.Rm.RequestEnd.{
  Outcome, all_granted, some_wait, one_refuses, IsOff, producer_request-Outcome,
}
use postmarketos_x00td_cellu.Rm.Producer.{producer_request}
use postmarketos_x00td_cellu.Rm.CallbackMap.{ProducerAt, free_entry, names}
use postmarketos_x00td_cellu.Rm.Answered.{callbacks, Each, Distinct, Waiter, callbacks-granted}
use postmarketos_x00td_cellu.Rm.Heap.{
  ResourceState, request_in_progress, granted, Prod, Object, producer, prod_state, Heap, Drivers,
  einprogress, is_coming, is_in_progress,
}

-- A consumer's list holds the producer `n`, and names producers only.
pub record Lists (n : ℕ) (g : ℕ → Option Object) (pl : Option PeersList) : Type 0 where
  pub list : PeersList
  pub listed : pl ≡ some list
  pub within : n < get_size list
  pub naming : get_resource (pos n) list ≡ some (some n)
  pub entries : (j : ℕ) → j < get_size list → ProducerAt g list j

Each-map : {P Q : ℕ → Type 0} (xs : List ℕ) → ((x : ℕ) → P x → Q x) → Each P xs → Each Q xs
Each-map [] f e = tt
Each-map (x ∷ xs) f (a, e) = (f x a, Each-map xs f e)

waiting-Each :
    (P : ℕ → Type 0) (g : ℕ → Option Object) (l : PeersList) (k i : ℕ)
    → ((j : ℕ) → i ≤ j → j < i + k → waits_in g (get_resource (pos j) l) ≡ true → P j)
    → Each P (waiting g l k i)
unfolding waiting
waiting-Each P g l zero i f = tt
waiting-Each P g l (suc k) i f =
    let rest : Each P (waiting g l k (i + 1)) =
      waiting-Each P g l k (i + 1) λ j a b. f j (omega arith) (omega arith) in
    elim (Bool-cases (waits_in g (get_resource (pos i) l))) [
      | inl x ↦ rw x (f i (omega arith) (omega arith) x, rest)
      | inr x ↦ rw x rest
    ]

waiting-Distinct : (g : ℕ → Option Object) (l : PeersList) (k i : ℕ) → Distinct (waiting g l k i)
unfolding waiting
waiting-Distinct g l zero i = tt
waiting-Distinct g l (suc k) i = elim (Bool-cases (waits_in g (get_resource (pos i) l))) [
  | inl x ↦ rw x (
    waiting-Each (λ y. i ≢ y) g l k (i + 1) (λ j a b w. ground arith),
    waiting-Distinct g l k (i + 1),
  )
  | inr x ↦ rw x (waiting-Distinct g l k (i + 1))
]

module _ (n : ℕ) (p p' : Prod) (g g' : ℕ → Option Object) (e : g n ≡ some (producer p))
    (e' : g' n ≡ some (producer p'))
    (same : (j : ℕ) (q : Prod) → n ≢ j → g j ≡ some (producer q) → g' j ≡ some (producer q)) where
  still_producers : (l : PeersList) (j : ℕ) → ProducerAt g l j → ProducerAt g' l j
  still_producers l j (free_entry v) = free_entry v
  still_producers l j (names v q f) = elim (equal n j) [
    | inl x ↦ names v p' (ap g' (sym x) ∙ e')
    | inr x ↦ names v q (same j q x f)
  ]
    where
      equal : (n j : ℕ) → (n ≡ j) ⊎ (n ≢ j)
      equal n j = ground arith

  answered-Waiter :
      (l : PeersList) (j : ℕ)
      → waits_in g' (get_resource (pos j) l) ≡ true
      → PeerAt IsAnswered (Lists n g) g' l j
      → Waiter n g' j
  answered-Waiter l j w (vacant v) = absurd (true≢false (sym w ∙ rw v refl))
  answered-Waiter l j w (filled v c f s q) = record {
    cons = c;
    there = f;
    coming = of_state c.resource.state s (sym (rw (v, f) refl) ∙ w);
    list = q.list;
    listed = q.listed;
    within = q.within;
    naming = q.naming;
    entries = λ i a. still_producers q.list i (q.entries i a);
  }
    where
      of_state : (s : ResourceState) → IsAnswered s → is_coming s ≡ true → s ≡ request_in_progress
      of_state _ answered_granted e = absurd (true≢false (sym e))
      of_state _ answered_waiting e = refl

-- A producer is granted in the end: where the lists of the producer and of its consumers are as its
-- request finds them, and the request returns -EINPROGRESS, the consumers it waits for can call back one
-- after the other, and then it is granted with nothing pending.
pub producer_request-granted :
    (d : Drivers) (n : ℕ) (p : Prod) (l : PeersList) (h : Heap)
    → h.object n ≡ some (producer p)
    → IsOff p.resource.state
    → p.resource.peers_list ≡ some l
    → ((j : ℕ) → j < get_size l → PeerAt Any (Lists n h.object) h.object l j)
    → (h1 : Heap) → producer_request d n h ≡ some (einprogress, h1)
    → Returns
        (callbacks (waiting h1.object l (get_size l) 0) h1)
        λ h2. h2.object n ≡ some (producer (prod_state (pending_of p 0) granted))
producer_request-granted d n p l h e off pl at h1 r = by_outcome (
    subst (λ m. Ends m λ r h'. Outcome (Lists n h.object) n p l h.object r h'.object) r
      (producer_request-Outcome d n (Lists n h.object) p l h e off pl at))
  where
    by_outcome :
        Outcome (Lists n h.object) n p l h.object einprogress h1.object
        → Returns
            (callbacks (waiting h1.object l (get_size l) 0) h1)
            λ h2. h2.object n ≡ some (producer (prod_state (pending_of p 0) granted))
    by_outcome (all_granted x y z) = absurd (true≢false (ap is_in_progress x))
    by_outcome (some_wait x a y z u) =
        let ws = waiting h1.object l (get_size l) 0 in
        let p1 = prod_state (pending_of p (length ws)) request_in_progress in
        callbacks-granted n ws p1 h1 y refl refl a (waiting-Distinct h1.object l (get_size l) 0) (
          waiting-Each (Waiter n h1.object) h1.object l (get_size l) 0
            λ j b c w. answered-Waiter n p p1 h.object h1.object e y u l j w (z j (omega arith)))
    by_outcome (one_refuses t x y) = absurd (true≢false x.1)
