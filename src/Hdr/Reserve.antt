-- ===== src/Hdr/Reserve.antt =====
-- ipa_hdr.c: a reservation of a slot, and its release.
use postmarketos_x00td_cellu.Common.{
  ℕ, ◌+◌, ◌%◌, ◌≤◌, ◌<◌, ◌≡◌, refl, ap, subst, ◌⊎◌, inl, inr, Bool, false, some, List, [], ◌∷◌,
  Bool-cases, update, update_self, ltb, ==-refl, arith,
}
use postmarketos_x00td_cellu.Hdr.Slots.{
  Offset, Slots, Reserved, no_room, no_memory, reserved, hand_out, grow, reserve_from, reserve,
  release,
}
use postmarketos_x00td_cellu.Hdr.Apart.{
  times, SlotAt, AllBin, AllBin-find_offset, IsSlots, SlotAt-end, SlotAt-apart, find_offset-cases,
  one_at, used-hand_out,
}
use postmarketos_x00td_cellu.Hdr.Moves.{
  none_at_end, front-unused, grown-IsSlots, taken-IsSlots, moved, used-moved, moved-IsSlots,
}

-- Where a slot comes from: it is the first free one of its bin, or one that the table has grown by.
pub data Origin (size : ℕ → ℕ) (bin : ℕ) (t : Slots) (o : Offset) (t' : Slots) : Type 0 where
  was_free :
      (first : Offset) (rest : List Offset)
      → t.free bin ≡ first ∷ rest
      → o.offset ≡ first.offset
      → t'.free ≡ update t.free bin rest
      → t'.end_ofst ≡ t.end_ofst
      → Origin size bin t o t'
  is_new :
      t.free bin ≡ []
      → o.offset ≡ t.end_ofst
      → t'.free ≡ t.free
      → t'.end_ofst ≡ t.end_ofst + size bin
      → Origin size bin t o t'

-- The slot `o` of a bin is handed out: it was free or did not exist, lies inside the table and apart from
-- every slot in use, and the others stay in use.
pub record Gained (size : ℕ → ℕ) (bin mem_size : ℕ) (t : Slots) (o : Offset) (t' : Slots)
    : Type 0 where
  pub bins : List ℕ
  pub valid : IsSlots size bins t'
  pub origin : Origin size bin t o t'
  pub same_bin : o.bin ≡ bin
  pub fits : t'.end_ofst ≤ mem_size
  pub inside : o.offset + size bin ≤ t'.end_ofst
  pub unused : times o.offset (t.used bin) ≡ 0
  pub apart :
      (a y : ℕ) → 0 < times y (t.used a) → (o.offset + size bin ≤ y) ⊎ (y + size a ≤ o.offset)
  pub in_use : (a y : ℕ) → times y (t'.used a) ≡ one_at bin o.offset a y + times y (t.used a)

abbrev pub Reserves : (ℕ → ℕ) → ℕ → ℕ → Bool → Slots → Reserved → Type 0
Reserves size bin mem_size alloc_ok t no_room =
    (t.free bin ≡ []) × (mem_size < t.end_ofst + size bin)
Reserves size bin mem_size alloc_ok t no_memory = (t.free bin ≡ []) × (alloc_ok ≡ false)
Reserves size bin mem_size alloc_ok t (reserved o t') = Gained size bin mem_size t o t'

module _ (size : ℕ → ℕ) (positive : (b : ℕ) → 0 < size b) (bins : List ℕ) (t : Slots)
    (w : IsSlots size bins t) (bin mem_size : ℕ) (fits : t.end_ofst ≤ mem_size)
    (small : mem_size + size bin < 4294967296) where
  -- A valid table with one slot more in use.
  gained :
      (more : List ℕ) (o : Offset) (t1 : Slots)
      → IsSlots size more (hand_out bin o t1)
      → o.bin ≡ bin
      → ((a y : ℕ) → times y (t1.used a) ≡ times y (t.used a))
      → t1.end_ofst ≤ mem_size
      → times o.offset (t.used bin) ≡ 0
      → Origin size bin t o (hand_out bin o t1)
      → Gained size bin mem_size t o (hand_out bin o t1)
  unfolding hand_out
  gained more o t1 v binned same b unused origin = record {
    bins = more;
    valid = v;
    origin = origin;
    same_bin = binned;
    fits = b;
    inside = omega (arith, SlotAt-end size more bin o.offset here, v.whole);
    unused = unused;
    apart = λ a y h. apart a y h (SlotAt-apart size more bin a o.offset y here (there a y h));
    in_use = in_use;
  }
    where
      in_use :
          (a y : ℕ)
          → times y ((hand_out bin o t1).used a) ≡ one_at bin o.offset a y + times y (t.used a)
      in_use a y = omega (arith, used-hand_out bin o t1 a y, same a y)

      here : SlotAt size more bin o.offset
      here =
          v.grown bin o.offset (ground (arith, in_use bin o.offset, ==-refl bin, ==-refl o.offset))

      there : (a y : ℕ) → 0 < times y (t.used a) → SlotAt size more a y
      there a y h = v.grown a y (omega (arith, in_use a y))

      apart :
          (a y : ℕ)
          → 0 < times y (t.used a)
          → ((bin ≡ a) × (o.offset ≡ y)) ⊎ (o.offset + size bin ≤ y) ⊎ (y + size a ≤ o.offset)
          → (o.offset + size bin ≤ y) ⊎ (y + size a ≤ o.offset)
      apart a y h (inr k) = k
      apart a y h (inl (e, f)) =
          let both : times y (t.used a) ≡ 0 =
            subst (λ c. times y (t.used c) ≡ 0) e
              (subst (λ z. times z (t.used bin) ≡ 0) f unused) in
          absurd (omega arith)

  module _ (user alloc_ok : Bool) where
    grow-Reserves :
        t.free bin ≡ []
        → Reserves size bin mem_size alloc_ok t (grow size bin mem_size user alloc_ok t)
    unfolding grow
    grow-Reserves e =
        let next : (t.end_ofst + size bin) % 4294967296 ≡ t.end_ofst + size bin = omega arith in
        elim (Bool-cases (ltb mem_size (t.end_ofst + size bin))) [
          | inl full ↦ rw (grow, next, full) (e, ground arith)
          | inr room ↦ elim (Bool-cases alloc_ok) [
            | inr f ↦ rw (grow, next, room, f) (e, refl)
            | inl f ↦
                rw (grow, next, room, f)
                  (gained (bin ∷ bins)
                    (record { offset = t.end_ofst; bin = bin; ipacm_installed = user })
                    (record t { end_ofst = t.end_ofst + size bin })
                    (grown-IsSlots size positive bins t w bin _ refl refl) refl (λ a y. refl)
                    (ground arith) (omega (arith, none_at_end size positive bins t w bin))
                    (is_new e refl refl refl))
          ]
        ]

    front_bin : (o : Offset) (os : List Offset) → t.free bin ≡ o ∷ os → o.bin ≡ bin
    front_bin o os e = (subst (AllBin bin) e (w.free_binned bin)).0

    taken-Reserves :
        (o : Offset) (os : List Offset)
        → t.free bin ≡ o ∷ os
        → Reserves size bin mem_size alloc_ok t
            (reserve_from (o ∷ os) size bin mem_size user alloc_ok t)
    unfolding reserve_from
    taken-Reserves o os e =
        let o' : Offset = record o { ipacm_installed = user } in
        gained bins o' (record t { free = update t.free bin os })
          (taken-IsSlots size positive bins t w bin o o' os e refl refl) (front_bin o os e)
          (λ a y. refl) fits (front-unused size positive bins t w bin o os e)
          (was_free o os e refl refl refl)

    -- A reservation in a valid table takes the first free slot of the bin,
    -- or without one a new slot at the end. The slot was
    -- not in use, lies inside the table and does not overlap a slot in use, each of which stays so;
    -- the table stays valid and within its memory. It is refused only without a free slot, where the
    -- memory is used up or the object cannot be allocated.
    pub reserve-Reserves :
        Reserves size bin mem_size alloc_ok t (reserve size bin mem_size user alloc_ok t)
    unfolding reserve
    reserve-Reserves = by (t.free bin) refl
      where
        by :
            (os : List Offset)
            → t.free bin ≡ os
            → Reserves size bin mem_size alloc_ok t
                (reserve_from os size bin mem_size user alloc_ok t)
        by [] e = unfold reserve_from in grow-Reserves e
        by (o ∷ os) e = taken-Reserves o os e

-- What a release leaves: the slot is no longer in use, each other slot is as it was, and the next
-- reservation in the bin hands the same slot out again.
pub record Freed (size : ℕ → ℕ) (bins : List ℕ) (bin x : ℕ) (t t' : Slots) : Type 0 where
  pub valid : IsSlots size bins t'
  pub same_end : t'.end_ofst ≡ t.end_ofst
  pub unused : times x (t'.used bin) ≡ 0
  pub in_use : (a y : ℕ) → times y (t'.used a) + one_at bin x a y ≡ times y (t.used a)
  pub again :
      (mem_size : ℕ) (user alloc_ok : Bool)
      → (o : Offset) × (t'' : Slots) × (reserve size bin mem_size user alloc_ok t' ≡ reserved o t'')
        × (o.offset ≡ x)

module _ (size : ℕ → ℕ) (positive : (b : ℕ) → 0 < size b) (bins : List ℕ) (t : Slots)
    (w : IsSlots size bins t) (bin x : ℕ) (held : 0 < times x (t.used bin)) where
  reserve_again :
      (o : Offset) (mem_size : ℕ) (user alloc_ok : Bool)
      → o.offset ≡ x
      → (o' : Offset) × (t'' : Slots) × (reserve size bin mem_size user alloc_ok
            (moved size positive bins t w bin x o)
          ≡ reserved o' t'')
        × (o'.offset ≡ x)
  unfolding reserve reserve_from
  reserve_again o mem_size user alloc_ok e =
      let m = moved size positive bins t w bin x o in
      let o' : Offset = record o { ipacm_installed = user } in
      (
        o',
        hand_out bin o' (record m { free = update m.free bin (t.free bin) }),
        ap (λ os. reserve_from os size bin mem_size user alloc_ok m)
            (update_self t.free bin (o ∷ t.free bin)),
        e,
      )

  -- A release of a slot in use returns and keeps the table valid. The slot is then not in use, every
  -- other is as it was, the end of the table stays, and the next reservation in the bin hands the same
  -- slot out again.
  pub release-Freed : (t' : Slots) × (release x bin t ≡ some t') × Freed size bins bin x t t'
  unfolding release
  release-Freed = elim (find_offset-cases x (t.used bin)) [
    | inl (e, none_used) ↦ absurd (omega arith)
    | inr (o, e, same, h) ↦ (
      moved size positive bins t w bin x o,
      rw (release, e) refl,
      record {
        valid =
            moved-IsSlots size positive bins t w bin x o held same
              (AllBin-find_offset bin x o (t.used bin) (w.used_binned bin) e);
        same_end = refl;
        unused = ground (
          arith,
          used-moved size positive bins t w bin x o held bin x,
          ==-refl bin,
          ==-refl x,
          w.once bin x,
        );
        in_use = used-moved size positive bins t w bin x o held;
        again = λ mem_size user alloc_ok. reserve_again o mem_size user alloc_ok same;
      },
    )
  ]
