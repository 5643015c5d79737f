-- ===== src/Rm/Peering.antt =====
-- The peers of a producer as resources, and those whose requests are not answered yet.
use postmarketos_x00td_cellu.Common.{
  ℕ, zero, suc, ◌+◌, ◌≤◌, ◌<◌, subst, ◌⊎◌, inl, inr, arith, Bool-cases, length, ◌≡◌, ◌≢◌, refl, sym,
  ap, ◌∙◌, Bool, true, false, Option, none, some, List, [], ◌∷◌, if◌then◌else◌,
}
use mathlib.Core.Option.{some-injective}
use mathlib.Core.Bool.{true≢false}
use postmarketos_x00td_cellu.Common.Int.{pos}
use postmarketos_x00td_cellu.Rm.PeersList.{PeersList, get_resource}
use postmarketos_x00td_cellu.Rm.Heap.{
  ResourceState, request_in_progress, granted, Cons, Prod, consumer, producer, Object, is_coming,
}

pub data IsAnswered : ResourceState → Type 0 where
  answered_granted : IsAnswered granted
  answered_waiting : IsAnswered request_in_progress

-- An index of a list is free, or names the resource of that index, which is a consumer with `S` of
-- its state and `Q` of its own list.
pub data PeerAt (S : ResourceState → Type 0) (Q : Option PeersList → Type 0) (g : ℕ → Option Object)
    (l : PeersList) (i : ℕ) : Type 0 where
  vacant : get_resource (pos i) l ≡ some none → PeerAt S Q g l i
  filled :
      get_resource (pos i) l ≡ some (some i)
      → (c : Cons) → g i ≡ some (consumer c)
      → S c.resource.state
      → Q c.resource.peers_list
      → PeerAt S Q g l i

abbrev pub coming_object : Option Object → Bool
coming_object (some (consumer c)) = is_coming c.resource.state
coming_object _ = false

abbrev pub waits_in : (ℕ → Option Object) → Option (Option ℕ) → Bool
waits_in g (some (some m)) = coming_object (g m)
waits_in g _ = false

-- The indices from `i` on, `k` of them, that name a consumer whose request is in progress.
unfoldable pub waiting : (ℕ → Option Object) → PeersList → ℕ → ℕ → List ℕ
unfolding get_resource
waiting g l zero i = []
waiting g l (suc k) i =
    let rest = waiting g l k (i + 1) in
    if waits_in g (get_resource (pos i) l) then i ∷ rest else rest

as_object : Object → Bool
as_object (producer p) = true
as_object (consumer c) = false

pub producer-consumer :
    (g : ℕ → Option Object) (n m : ℕ) (p : Prod) (c : Cons)
    → g n ≡ some (producer p)
    → g m ≡ some (consumer c)
    → n ≢ m
unfolding as_object
producer-consumer g n m p c e f q =
    absurd (true≢false (ap as_object (some-injective _ _ (sym e ∙ ap g q ∙ f))))

-- A consumer that is as before is a peer as before.
pub carry :
    (S : ResourceState → Type 0) (Q : Option PeersList → Type 0) (g g' : ℕ → Option Object)
    (l : PeersList) (n i : ℕ) (p : Prod)
    → g n ≡ some (producer p)
    → (n ≢ i → g' i ≡ g i)
    → PeerAt S Q g l i
    → PeerAt S Q g' l i
      × (waits_in g' (get_resource (pos i) l) ≡ waits_in g (get_resource (pos i) l))
carry S Q g g' l n i p e same (vacant v) = (vacant v, rw v refl)
carry S Q g g' l n i p e same (filled v c f s q) =
    let f' : g' i ≡ some (consumer c) = same (producer-consumer g n i p c e f) ∙ f in
    (filled v c f' s q, rw (v, f, f') refl)

pub waiting-head :
    (g : ℕ → Option Object) (l : PeersList) (k i : ℕ) (b : Bool)
    → waits_in g (get_resource (pos i) l) ≡ b
    → waiting g l (suc k) i ≡ (if b then i ∷ waiting g l k (i + 1) else waiting g l k (i + 1))
unfolding waiting
waiting-head g l k i b e = rw e refl

-- What holds at `i` and at the `k` indices after it.
pub first_or_later :
    (P : ℕ → Type 0) (i k : ℕ)
    → P i
    → ((j : ℕ) → i + 1 ≤ j → j < i + 1 + k → P j)
    → (j : ℕ) → i ≤ j
    → j < i + suc k
    → P j
first_or_later P i k at later j a c = elim (split i j a) [
  | inl q ↦ subst P q at
  | inr q ↦ later j q (omega arith)
]
  where
    split : (i j : ℕ) → i ≤ j → (i ≡ j) ⊎ (i + 1 ≤ j)
    split i j a = ground arith

pub nobody_waits :
    (g : ℕ → Option Object) (l : PeersList) (k i : ℕ)
    → waiting g l k i ≡ []
    → (j : ℕ) → i ≤ j
    → j < i + k
    → waits_in g (get_resource (pos j) l) ≡ false
nobody_waits g l zero i e j a b = absurd (omega arith)
nobody_waits g l (suc k) i e j a b = elim (Bool-cases (waits_in g (get_resource (pos i) l))) [
  | inl x ↦ absurd (omega (arith, ap length (sym e ∙ waiting-head g l k i true x)))
  | inr x ↦
      first_or_later (λ j. waits_in g (get_resource (pos j) l) ≡ false) i k x
        (nobody_waits g l k (i + 1) (sym (waiting-head g l k i false x) ∙ e)) j a b
]
