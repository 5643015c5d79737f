-- ===== src/Hdr/Apart.antt =====
-- ipa_hdr.c: what a valid table of slots is, and where its slots stand.
use postmarketos_x00td_cellu.Common.{
  ℕ, ◌+◌, ◌≤◌, ◌<◌, ◌≡◌, ◌≢◌, refl, sym, subst, ◌∙◌, ◌⊎◌, inl, inr, none, some, List, [], ◌∷◌,
  Bool-cases, update, ◌==◌, ==-refl, ==-ne, if◌then◌else◌, arith,
}
use postmarketos_x00td_cellu.Hdr.Slots.{Offset, Slots, hand_out, find_offset, unlink}

pub same_or_not : (i j : ℕ) → (i ≡ j) ⊎ (i ≢ j)
same_or_not i j = ground arith

-- How often a list holds a slot.
unfoldable pub times : ℕ → List Offset → ℕ
times x [] = 0
times x (o ∷ os) = (if o.offset == x then 1 else 0) + times x os

-- All that the table has grown by, from the last bin on.
unfoldable pub total : (ℕ → ℕ) → List ℕ → ℕ
total size [] = 0
total size (b ∷ bins) = size b + total size bins

-- A slot of bin `b` at `x`, among those that the table has grown by.
unfoldable pub SlotAt : (ℕ → ℕ) → List ℕ → ℕ → ℕ → Type 0
SlotAt size [] b x = ⊥
SlotAt size (c ∷ bins) b x = ((b ≡ c) × (x ≡ total size bins)) ⊎ SlotAt size bins b x

-- How often a table has a slot, in use or free.
abbrev pub held : Slots → ℕ → ℕ → ℕ
held t b x = times x (t.used b) + times x (t.free b)

-- All of a list are slots of one bin.
abbrev pub AllBin : ℕ → List Offset → Type 0
AllBin b [] = Unit {0}
AllBin b (o ∷ os) = (o.bin ≡ b) × AllBin b os

pub AllBin-unlink : (b x : ℕ) (os : List Offset) → AllBin b os → AllBin b (unlink x os)
unfolding unlink
AllBin-unlink b x [] a = tt
AllBin-unlink b x (o ∷ os) (e, a) = elim (Bool-cases (o.offset == x)) [
  | inl q ↦ rw (unlink, q) a
  | inr q ↦ rw (unlink, q) (e, AllBin-unlink b x os a)
]

pub AllBin-update :
    (f : ℕ → List Offset) (bin : ℕ) (os : List Offset)
    → AllBin bin os
    → ((b : ℕ) → AllBin b (f b))
    → (b : ℕ) → AllBin b (update f bin os b)
AllBin-update f bin os a all b = by (same_or_not bin b)
  where
    by : (bin ≡ b) ⊎ (bin ≢ b) → AllBin b (update f bin os b)
    by (inl e) = subst (λ c. AllBin c (update f bin os c)) e (rw (==-refl bin) a)
    by (inr d) = rw (==-ne bin b d) (all b)

-- The table has grown by `bins`, has each slot at most once, and has no other slot.
pub record IsSlots (size : ℕ → ℕ) (bins : List ℕ) (t : Slots) : Type 0 where
  pub whole : t.end_ofst ≡ total size bins
  pub once : (b x : ℕ) → held t b x ≤ 1
  pub grown : (b x : ℕ) → 0 < held t b x → SlotAt size bins b x
  pub used_binned : (b : ℕ) → AllBin b (t.used b)
  pub free_binned : (b : ℕ) → AllBin b (t.free b)

abbrev pub no_slots : Slots
no_slots = record { used = λ b. []; free = λ b. []; end_ofst = 0 }

pub no_slots-IsSlots : (size : ℕ → ℕ) → IsSlots size [] no_slots
unfolding times total
no_slots-IsSlots size = record {
  whole = refl;
  once = λ b x. omega arith;
  grown = λ b x h. absurd (omega arith);
  used_binned = λ b. tt;
  free_binned = λ b. tt;
}

pub SlotAt-end :
    (size : ℕ → ℕ) (bins : List ℕ) (b x : ℕ) → SlotAt size bins b x → x + size b ≤ total size bins
unfolding SlotAt total
SlotAt-end size [] b x h = absurd h
SlotAt-end size (c ∷ bins) b x (inl (e, f)) = rw (e, f) (omega arith)
SlotAt-end size (c ∷ bins) b x (inr h) = omega (arith, SlotAt-end size bins b x h)

-- Two slots are the same, or one ends before the other begins.
pub SlotAt-apart :
    (size : ℕ → ℕ) (bins : List ℕ) (a b x y : ℕ)
    → SlotAt size bins a x
    → SlotAt size bins b y
    → ((a ≡ b) × (x ≡ y)) ⊎ (x + size a ≤ y) ⊎ (y + size b ≤ x)
unfolding SlotAt
SlotAt-apart size [] a b x y h k = absurd h
SlotAt-apart size (c ∷ bins) a b x y (inl (e, f)) (inl (e', f')) = inl (e ∙ sym e', f ∙ sym f')
SlotAt-apart size (c ∷ bins) a b x y (inl (e, f)) (inr k) =
    inr (inr (omega (arith, SlotAt-end size bins b y k)))
SlotAt-apart size (c ∷ bins) a b x y (inr h) (inl (e, f)) =
    inr (inl (omega (arith, SlotAt-end size bins a x h)))
SlotAt-apart size (c ∷ bins) a b x y (inr h) (inr k) = SlotAt-apart size bins a b x y h k

pub times-unlink :
    (x y : ℕ) (os : List Offset)
    → 0 < times x os
    → times y (unlink x os) + (if x == y then 1 else 0) ≡ times y os
unfolding times unlink
times-unlink x y [] h = absurd (omega arith)
times-unlink x y (o ∷ os) h = ground (arith, times-unlink x y os)

pub AllBin-find_offset :
    (b x : ℕ) (o : Offset) (os : List Offset) → AllBin b os → find_offset x os ≡ some o → o.bin ≡ b
unfolding find_offset
AllBin-find_offset b x o [] a e = absurd (ground arith)
AllBin-find_offset b x o (p ∷ os) (q, a) e = elim (Bool-cases (p.offset == x)) [
  | inl f ↦ let same : p ≡ o = ground arith in subst (λ (r : Offset). r.bin ≡ b) same q
  | inr f ↦
      let rest : find_offset x os ≡ some o = ground arith in AllBin-find_offset b x o os a rest
]

pub find_offset-cases :
    (x : ℕ) (os : List Offset)
    → ((find_offset x os ≡ none) × (times x os ≡ 0))
      ⊎ ((o : Offset) × (find_offset x os ≡ some o) × (o.offset ≡ x) × (0 < times x os))
unfolding times find_offset
find_offset-cases x [] = inl (refl, refl)
find_offset-cases x (o ∷ os) = elim (Bool-cases (o.offset == x)) [
  | inl e ↦ inr (o, rw e refl, ground arith, rw e (omega arith))
  | inr e ↦ elim (find_offset-cases x os) [
    | inl (f, g) ↦ inl (rw e f, rw e (omega arith))
    | inr (p, f, g, k) ↦ inr (p, rw e f, g, rw e (omega arith))
  ]
]

-- One for the slot of bin `b` at `x`, if it is the slot of bin `c` at `y`.
abbrev pub one_at : ℕ → ℕ → ℕ → ℕ → ℕ
one_at b x c y = if b == c then (if x == y then 1 else 0) else 0

pub times-push :
    (f : ℕ → List Offset) (bin : ℕ) (o : Offset) (b x : ℕ)
    → times x (update f bin (o ∷ f bin) b) ≡ one_at bin o.offset b x + times x (f b)
unfolding times
times-push f bin o b x = by (same_or_not bin b)
  where
    by :
        (bin ≡ b) ⊎ (bin ≢ b)
        → times x (update f bin (o ∷ f bin) b) ≡ one_at bin o.offset b x + times x (f b)
    by (inl e) =
        subst (λ c. times x (update f bin (o ∷ f bin) c) ≡ one_at bin o.offset c x + times x (f c))
          e (rw (==-refl bin) refl)
    by (inr d) = rw (==-ne bin b d) (omega arith)

pub used-hand_out :
    (bin : ℕ) (o : Offset) (t : Slots) (b x : ℕ)
    → times x ((hand_out bin o t).used b) ≡ one_at bin o.offset b x + times x (t.used b)
unfolding hand_out
used-hand_out bin o t b x = times-push t.used bin o b x

pub times-update :
    (f : ℕ → List Offset) (bin : ℕ) (o : Offset) (os : List Offset) (b x : ℕ)
    → f bin ≡ o ∷ os
    → times x (f b) ≡ one_at bin o.offset b x + times x (update f bin os b)
unfolding times
times-update f bin o os b x e = by (same_or_not bin b)
  where
    by :
        (bin ≡ b) ⊎ (bin ≢ b)
        → times x (f b) ≡ one_at bin o.offset b x + times x (update f bin os b)
    by (inl g) =
        subst (λ c. times x (f c) ≡ one_at bin o.offset c x + times x (update f bin os c)) g
          (rw (==-refl bin, e) refl)
    by (inr d) = rw (==-ne bin b d) (omega arith)

pub one_at-cases : (b x c y : ℕ) → (one_at b x c y ≡ 0) ⊎ ((b ≡ c) × (x ≡ y) × (one_at b x c y ≡ 1))
one_at-cases b x c y = ground arith
