-- ===== src/Rm/Outcome.antt =====
-- Statements on the outcome of an operation on the resources.
use postmarketos_x00td_cellu.Common.{
  ℕ, zero, suc, ◌≡◌, ◌≢◌, refl, ap, ◌⊎◌, inl, inr, false, Option, none, some, ◌==◌, ==-refl, ==-ne,
  ==_iff, Bool-cases,
}
use postmarketos_x00td_cellu.Common.Fault.{◌>>=◌}
use postmarketos_x00td_cellu.Common.Int.{ℤ, pos, negsuc, is_zero}
use postmarketos_x00td_cellu.Rm.Heap.{
  ResourceState, Cons, consumer, Heap, is_in_progress, Object, update, einprogress,
}

-- The operation returns, without a fault, and its result and the heap after it are as said.
abbrev pub Ends : {A : Type 0} → Option (A × Heap) → (A → Heap → Type 0) → Type 0
Ends none P = ⊥
Ends (some (r, h)) P = P r h

pub Ends-then :
    {A B : Type 0} (m : Option (A × Heap)) (f : A → Heap → Option (B × Heap))
    {P : A → Heap → Type 0} (Q : B → Heap → Type 0)
    → Ends m P
    → ((r : A) (h : Heap) → P r h → Ends (f r h) Q)
    → Ends (m >>= λ (r, h). f r h) Q
Ends-then none f Q e k = absurd e
Ends-then (some (r, h)) f Q e k = k r h e

pub Ends-map :
    {A : Type 0} (m : Option (A × Heap)) {P : A → Heap → Type 0} (Q : A → Heap → Type 0)
    → Ends m P
    → ((r : A) (h : Heap) → P r h → Q r h)
    → Ends m Q
Ends-map none Q e k = absurd e
Ends-map (some (r, h)) Q e k = k r h e

-- Only the consumer at `n` was changed, to `c'`.
pub record Moves (n : ℕ) (c' : Cons) (h h' : ℕ → Option Object) : Type 0 where
  pub there : h' n ≡ some (consumer c')
  pub elsewhere : (m : ℕ) → n ≢ m → h' m ≡ h m

-- The state, the count of users and the bandwidth of a consumer, and what no call changes.
pub record Turned (c c' : Cons) (s : ResourceState) (users : ℤ) (bw : ℕ) : Type 0 where
  pub state : c'.resource.state ≡ s
  pub usage_count : c'.usage_count ≡ users
  pub needed_bw : c'.resource.needed_bw ≡ bw
  pub peers_list : c'.resource.peers_list ≡ c.resource.peers_list
  pub max_bw : c'.resource.max_bw ≡ c.resource.max_bw
  pub name : c'.resource.name ≡ c.resource.name

-- An answer that is neither 0 nor -EINPROGRESS.
abbrev pub IsError : ℤ → Type 0
IsError r = (is_zero r ≡ false) × (is_in_progress r ≡ false)

pub Answer-cases : (r : ℤ) → (r ≡ pos 0) ⊎ ((r ≡ einprogress) ⊎ IsError r)
Answer-cases (pos zero) = inl refl
Answer-cases (pos (suc k)) = inr (inr (refl, refl))
Answer-cases (negsuc k) = elim (Bool-cases (k == 114)) [
  | inl y ↦ inr (inl (ap negsuc ((==_iff k 114).0 y)))
  | inr z ↦ inr (inr (refl, z))
]

pub put-Moves :
    (n : ℕ) (c' : Cons) (h h1 : ℕ → Option Object)
    → ((m : ℕ) → n ≢ m → h1 m ≡ h m)
    → Moves n c' h (update h1 n (some (consumer c')))
put-Moves n c' h h1 same = record {
  there = rw (==-refl n);
  elsewhere = λ m o. rw (==-ne n m o) (same m o);
}

-- The same of an operation without a result.
abbrev pub Returns : Option Heap → (Heap → Type 0) → Type 0
Returns none P = ⊥
Returns (some h) P = P h

pub Returns-map :
    (m : Option Heap) {P : Heap → Type 0} (Q : Heap → Type 0)
    → Returns m P
    → ((h : Heap) → P h → Q h)
    → Returns m Q
Returns-map none Q e k = absurd e
Returns-map (some h) Q e k = k h e

pub Returns-then :
    (m : Option Heap) (f : Heap → Option Heap) {P : Heap → Type 0} (Q : Heap → Type 0)
    → Returns m P
    → ((h : Heap) → P h → Returns (f h) Q)
    → Returns (m >>= f) Q
Returns-then none f Q e k = absurd e
Returns-then (some h) f Q e k = k h e

pub Ends-Returns :
    {A : Type 0} (m : Option (A × Heap)) (f : A → Heap → Option Heap) {P : A → Heap → Type 0}
    (Q : Heap → Type 0)
    → Ends m P
    → ((r : A) (h : Heap) → P r h → Returns (f r h) Q)
    → Returns (m >>= λ (r, h). f r h) Q
Ends-Returns none f Q e k = absurd e
Ends-Returns (some (r, h)) f Q e k = k r h e

pub Returns-Ends :
    {A : Type 0} (m : Option Heap) (f : Heap → Option (A × Heap)) {P : Heap → Type 0}
    (Q : A → Heap → Type 0)
    → Returns m P
    → ((h : Heap) → P h → Ends (f h) Q)
    → Ends (m >>= f) Q
Returns-Ends none f Q e k = absurd e
Returns-Ends (some h) f Q e k = k h e
