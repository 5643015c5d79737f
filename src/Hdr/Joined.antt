-- ===== src/Hdr/Joined.antt =====
-- Tables with one header more.
use postmarketos_x00td_cellu.Common.{
  ℕ, suc, ◌≤◌, ◌≡◌, ◌≢◌, sym, ap, subst, ◌∙◌, ◌⊎◌, inl, inr, false, Option, none, some, ==-refl,
  arith,
}
use postmarketos_x00td_cellu.Hdr.Slots.{Offset}
use postmarketos_x00td_cellu.Hdr.Apart.{times, same_or_not}
use postmarketos_x00td_cellu.Hdr.Reserve.{Gained}
use postmarketos_x00td_cellu.Hdr.Tables.{HdrEntry, Object, hdr_entry, Tables, hdr_bin_sz}
use postmarketos_x00td_cellu.Hdr.Live.{Owns, Live, IsTables}

-- The tables `s'` have the header `e` at `n` besides those of `s`, with the handle `id`.
pub record Joined (s : Tables) (n id : ℕ) (e : HdrEntry) (s' : Tables) : Type 0 where
  pub at_new : s'.object n ≡ some (hdr_entry e)
  pub elsewhere : (m : ℕ) → n ≢ m → s'.object m ≡ s.object m
  pub new_id : s'.ids id ≡ some n
  pub other_ids : (hdl : ℕ) → id ≢ hdl → s'.ids hdl ≡ s.ids hdl
  pub next : s'.fresh ≡ suc n
  pub named : e.id ≡ id
  pub in_table : e.is_hdr_proc_ctx ≡ false

module _ (mem_size : ℕ) (s : Tables) (w : IsTables mem_size s) where
  -- An old object is not at the new pointer.
  pub older : (m : ℕ) (u : Object) → s.object m ≡ some u → s.fresh ≢ m
  older m u p x =
      let gone : s.object m ≡ none =
        subst (λ k. s.object k ≡ none) x (w.unborn s.fresh (omega arith)) in
      cc

  -- The new header's slot was not in use, so that no other header has it.
  pub joined-IsTables :
      (id bin : ℕ) (e : HdrEntry) (o : Offset) (s' : Tables)
      → Joined s s.fresh id e s'
      → Gained hdr_bin_sz bin mem_size s.hdr_slots o s'.hdr_slots
      → e.offset_entry ≡ some (o.offset, bin)
      → e.hdr_len ≤ hdr_bin_sz bin
      → IsTables mem_size s'
  joined-IsTables id bin e o s' j g slot len = record {
    bins = g.bins;
    slots = g.valid;
    fits = g.fits;
    owns = λ m f l. owns m f l (same_or_not n m);
    distinct = λ m k a b l r q. distinct m k a b l r q (same_or_not n m) (same_or_not n k);
    unborn = λ m h. j.elsewhere m (λ q. omega (arith, j.next)) ∙ w.unborn m (omega (arith, j.next));
    handles = λ hdl m q. handles hdl m q (same_or_not id hdl);
    known = λ hdl m f q l. known hdl m f q l (same_or_not id hdl) (same_or_not n m);
  }
    where
      n : ℕ
      n = s.fresh

      is_new : (m : ℕ) (f : HdrEntry) → n ≡ m → Live s' m f → e ≡ f
      is_new m f q l =
          let there : s'.object m ≡ some (hdr_entry e) =
            subst (λ k. s'.object k ≡ some (hdr_entry e)) q j.at_new in
          ground arith

      is_old : (m : ℕ) (f : HdrEntry) → n ≢ m → Live s' m f → Live s m f
      is_old m f d l = sym (j.elsewhere m d) ∙ l

      owns : (m : ℕ) (f : HdrEntry) → Live s' m f → (n ≡ m) ⊎ (n ≢ m) → Owns s'.hdr_slots f
      owns m f l (inl q) = subst (Owns s'.hdr_slots) (is_new m f q l) (record {
        x = o.offset;
        bin = bin;
        in_slot = slot;
        in_table = j.in_table;
        in_use = ground (arith, g.in_use bin o.offset, ==-refl bin, ==-refl o.offset);
        fits = len;
      })
      owns m f l (inr d) =
          let u = w.owns m f (is_old m f d l) in
          record {
            x = u.x;
            bin = u.bin;
            in_slot = u.in_slot;
            in_table = u.in_table;
            in_use = omega (arith, g.in_use u.bin u.x, u.in_use);
            fits = u.fits;
          }

      -- An old header has another slot.
      another : (m : ℕ) (f : HdrEntry) → Live s m f → e.offset_entry ≢ f.offset_entry
      another m f l q =
          let u = w.owns m f l in
          let same : ◌≡◌ {A = Option (ℕ × ℕ)} (some (o.offset, bin)) (some (u.x, u.bin)) =
            sym slot ∙ q ∙ u.in_slot in
          let at_x : o.offset ≡ u.x = ground arith in
          let at_bin : bin ≡ u.bin = ground arith in
          let none_there : times u.x (s.hdr_slots.used u.bin) ≡ 0 =
            subst (λ y. times y (s.hdr_slots.used u.bin) ≡ 0) at_x
              (subst (λ c. times o.offset (s.hdr_slots.used c) ≡ 0) at_bin g.unused) in
          absurd (omega (arith, u.in_use))

      distinct :
          (m k : ℕ) (a b : HdrEntry)
          → Live s' m a
          → Live s' k b
          → a.offset_entry ≡ b.offset_entry
          → (n ≡ m) ⊎ (n ≢ m)
          → (n ≡ k) ⊎ (n ≢ k)
          → m ≡ k
      distinct m k a b l r q (inl x) (inl y) = sym x ∙ y
      distinct m k a b l r q (inr x) (inr y) =
          w.distinct m k a b (is_old m a x l) (is_old k b y r) q
      distinct m k a b l r q (inl x) (inr y) = absurd (
          another k b (is_old k b y r) (ap (λ (f : HdrEntry). f.offset_entry) (is_new m a x l) ∙ q))
      distinct m k a b l r q (inr x) (inl y) = absurd (
          another m a (is_old m a x l)
            (ap (λ (f : HdrEntry). f.offset_entry) (is_new k b y r) ∙ sym q))

      -- The handle `id` leads to the new header, and every other to an older object.
      leads_new : (hdl m : ℕ) → s'.ids hdl ≡ some m → id ≡ hdl → n ≡ m
      leads_new hdl m q h =
          let there : s'.ids hdl ≡ some n = subst (λ i. s'.ids i ≡ some n) h j.new_id in
          ground arith

      leads_old : (hdl m : ℕ) → s.ids hdl ≡ some m → (n ≢ m) × (o : Object) × (s'.object m ≡ some o)
      leads_old hdl m q =
          let (u, p) = w.handles hdl m q in
          let d : n ≢ m = older m u p in (d, u, j.elsewhere m d ∙ p)

      handles :
          (hdl m : ℕ)
          → s'.ids hdl ≡ some m
          → (id ≡ hdl) ⊎ (id ≢ hdl)
          → (o : Object) × (s'.object m ≡ some o)
      handles hdl m q (inl h) = (
        hdr_entry e,
        subst (λ k. s'.object k ≡ some (hdr_entry e)) (leads_new hdl m q h) j.at_new,
      )
      handles hdl m q (inr d) =
          let (x, u, p) = leads_old hdl m (sym (j.other_ids hdl d) ∙ q) in (u, p)

      known :
          (hdl m : ℕ) (f : HdrEntry)
          → s'.ids hdl ≡ some m
          → Live s' m f
          → (id ≡ hdl) ⊎ (id ≢ hdl)
          → (n ≡ m) ⊎ (n ≢ m)
          → f.id ≡ hdl
      known hdl m f q l (inl h) k =
          ap (λ (g : HdrEntry). g.id) (sym (is_new m f (leads_new hdl m q h) l)) ∙ j.named ∙ h
      known hdl m f q l (inr d) (inl x) =
          absurd ((leads_old hdl m (sym (j.other_ids hdl d) ∙ q)).0 x)
      known hdl m f q l (inr d) (inr x) =
          w.known hdl m f (sym (j.other_ids hdl d) ∙ q) (is_old m f x l)
