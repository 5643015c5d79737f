-- ===== src/Hdr/Moves.antt =====
-- ipa_hdr.c: the steps of a table of slots, at its end, from the free slots and back to them.
use postmarketos_x00td_cellu.Common.{
  ℕ, ◌+◌, ◌≤◌, ◌<◌, ◌≡◌, ◌≢◌, refl, sym, subst, ◌∙◌, ◌⊎◌, inl, inr, List, ◌∷◌, update, ==-refl,
  ==-ne, arith,
}
use postmarketos_x00td_cellu.Hdr.Slots.{Offset, Slots, hand_out, unlink}
use postmarketos_x00td_cellu.Hdr.Apart.{
  times, total, SlotAt, AllBin, AllBin-unlink, AllBin-update, held, IsSlots, SlotAt-end,
  times-unlink, same_or_not, one_at, one_at-cases, times-push, used-hand_out, times-update,
}

module _ (size : ℕ → ℕ) (positive : (b : ℕ) → 0 < size b) (bins : List ℕ) (t : Slots)
    (w : IsSlots size bins t) where
  -- No slot stands at the end of the table.
  pub none_at_end : (b : ℕ) → held t b t.end_ofst ≡ 0
  none_at_end b = elim (zero_or_more (held t b t.end_ofst)) [
    | inl e ↦ e
    | inr h ↦ absurd (
        omega
          (arith, SlotAt-end size bins b t.end_ofst (w.grown b t.end_ofst h), w.whole, positive b))
  ]
    where
      zero_or_more : (n : ℕ) → (n ≡ 0) ⊎ (0 < n)
      zero_or_more n = ground arith

  -- The first free slot is not in use.
  pub front-unused :
      (bin : ℕ) (o : Offset) (os : List Offset)
      → t.free bin ≡ o ∷ os
      → times o.offset (t.used bin) ≡ 0
  unfolding times
  front-unused bin o os e =
      let free : times o.offset (t.free bin) ≡ 1 + times o.offset os =
        rw (e, ==-refl o.offset) refl in
      omega (arith, free, w.once bin o.offset)

  pub grown-IsSlots :
      (bin : ℕ) (o : Offset)
      → o.offset ≡ t.end_ofst
      → o.bin ≡ bin
      → IsSlots size (bin ∷ bins) (hand_out bin o (record t { end_ofst = t.end_ofst + size bin }))
  unfolding hand_out total SlotAt
  grown-IsSlots bin o e binned = record {
    whole = omega (arith, w.whole);
    once = λ b x. once b x (one_at-cases bin o.offset b x) (used-hand_out bin o t1 b x);
    grown = λ b x h. grown b x h (one_at-cases bin o.offset b x) (used-hand_out bin o t1 b x);
    used_binned =
        AllBin-update t.used bin (o ∷ t.used bin) (binned, w.used_binned bin) w.used_binned;
    free_binned = w.free_binned;
  }
    where
      t1 : Slots
      t1 = record t { end_ofst = t.end_ofst + size bin }

      t2 : Slots
      t2 = hand_out bin o t1

      Cases : ℕ → ℕ → Type 0
      Cases b x =
          (one_at bin o.offset b x ≡ 0)
          ⊎ ((bin ≡ b) × (o.offset ≡ x) × (one_at bin o.offset b x ≡ 1))

      Sum : ℕ → ℕ → Type 0
      Sum b x = times x (t2.used b) ≡ one_at bin o.offset b x + times x (t.used b)

      at_end : (b x : ℕ) → o.offset ≡ x → held t b x ≡ 0
      at_end b x f = subst (λ y. held t b y ≡ 0) (sym e ∙ f) (none_at_end b)

      once : (b x : ℕ) → Cases b x → Sum b x → held t2 b x ≤ 1
      once b x (inl z) u = omega (arith, w.once b x)
      once b x (inr (f, g, z)) u = omega (arith, at_end b x g)

      grown : (b x : ℕ) → 0 < held t2 b x → Cases b x → Sum b x → SlotAt size (bin ∷ bins) b x
      grown b x h (inl z) u = inr (w.grown b x (omega arith))
      grown b x h (inr (f, g, z)) u = inl (sym f, sym g ∙ e ∙ w.whole)

  -- The first free slot is taken.
  pub taken-IsSlots :
      (bin : ℕ) (o o' : Offset) (os : List Offset)
      → t.free bin ≡ o ∷ os
      → o'.offset ≡ o.offset
      → o'.bin ≡ o.bin
      → IsSlots size bins (hand_out bin o' (record t { free = update t.free bin os }))
  unfolding hand_out
  taken-IsSlots bin o o' os e same binned = record {
    whole = w.whole;
    once = λ b x. omega (arith, equal b x, w.once b x);
    grown = λ b x h. w.grown b x (omega (arith, equal b x));
    used_binned =
        AllBin-update t.used bin (o' ∷ t.used bin) (binned ∙ front.0, w.used_binned bin)
          w.used_binned;
    free_binned = AllBin-update t.free bin os front.1 w.free_binned;
  }
    where
      front : (o.bin ≡ bin) × AllBin bin os
      front = subst (AllBin bin) e (w.free_binned bin)

      equal :
          (b x : ℕ)
          → held (hand_out bin o' (record t { free = update t.free bin os })) b x ≡ held t b x
      equal b x =
          let back : one_at bin o'.offset b x ≡ one_at bin o.offset b x = rw same refl in
          omega (
            arith,
            back,
            used-hand_out bin o' (record t { free = update t.free bin os }) b x,
            times-update t.free bin o os b x e,
          )

  -- A slot in use is moved to the free ones.
  abbrev pub moved : ℕ → ℕ → Offset → Slots
  moved bin x o = record t {
    used = update t.used bin (unlink x (t.used bin));
    free = update t.free bin (o ∷ t.free bin);
  }

  pub used-moved :
      (bin x : ℕ) (o : Offset)
      → 0 < times x (t.used bin)
      → (a y : ℕ) → times y ((moved bin x o).used a) + one_at bin x a y ≡ times y (t.used a)
  used-moved bin x o h a y = by (same_or_not bin a)
    where
      by :
          (bin ≡ a) ⊎ (bin ≢ a)
          → times y ((moved bin x o).used a) + one_at bin x a y ≡ times y (t.used a)
      by (inl g) =
          subst (λ c. times y ((moved bin x o).used c) + one_at bin x c y ≡ times y (t.used c)) g
            (rw (==-refl bin) (times-unlink x y (t.used bin) h))
      by (inr d) = rw (==-ne bin a d) (omega arith)

  pub moved-IsSlots :
      (bin x : ℕ) (o : Offset)
      → 0 < times x (t.used bin)
      → o.offset ≡ x
      → o.bin ≡ bin
      → IsSlots size bins (moved bin x o)
  moved-IsSlots bin x o h e binned = record {
    whole = w.whole;
    once = λ b y. omega (arith, equal b y, w.once b y);
    grown = λ b y k. w.grown b y (omega (arith, equal b y));
    used_binned =
        AllBin-update t.used bin (unlink x (t.used bin))
          (AllBin-unlink bin x (t.used bin) (w.used_binned bin)) w.used_binned;
    free_binned =
        AllBin-update t.free bin (o ∷ t.free bin) (binned, w.free_binned bin) w.free_binned;
  }
    where
      equal : (b y : ℕ) → held (moved bin x o) b y ≡ held t b y
      equal b y =
          let same : one_at bin o.offset b y ≡ one_at bin x b y = rw e refl in
          omega (arith, same, used-moved bin x o h b y, times-push t.free bin o b y)
