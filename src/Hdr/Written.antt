-- ===== src/Hdr/Written.antt =====
-- ipa_hdr.c: the copies of the headers into the hardware's table.
use postmarketos_x00td_cellu.Common.{
  ℕ, zero, suc, ◌+◌, ◌≤◌, ◌<◌, ◌≡◌, ◌≢◌, refl, sym, ap, subst, ◌∙◌, ◌⊎◌, inl, inr, Bool, false,
  Option, some, List, [], ◌∷◌, replicate, length, length-take, length-replicate, length-set, set,
  get_elem?, get_elem?-set_self, get_elem?-set_ne, All, Bool-cases, ◌==◌, lt→ltb, if◌then◌else◌,
  arith,
}
use postmarketos_x00td_cellu.Common.Fault.{◌>>=◌, >>=-some, write, write_bytes}
use postmarketos_x00td_cellu.Common.Int.{ℤ, pos, eperm, enomem}
use postmarketos_x00td_cellu.Hdr.Apart.{same_or_not}
use postmarketos_x00td_cellu.Hdr.Tables.{HdrEntry, hdr_entry, Tables}
use postmarketos_x00td_cellu.Hdr.Hardware.{
  bytes, copy_entry, copy_header, copy_headers, generate_hdr_hw_tbl,
}
use postmarketos_x00td_cellu.Hdr.Listed.{HasHeader, listings, IsListed, All-listings, at_listing}
use postmarketos_x00td_cellu.Hdr.Live.{Live, IsTables, live-inside, live-LieApart}

-- What a memcpy into an array that is long enough does.
record Stored (b : List ℕ) (i : ℕ) (vs b' : List ℕ) : Type 0 where
  same_length : length b' ≡ length b
  stored : (j : ℕ) → j < length vs → get_elem? b' (i + j) ≡ get_elem? vs j
  kept : (k : ℕ) → (k < i) ⊎ (i + length vs ≤ k) → get_elem? b' k ≡ get_elem? b k

write_bytes-Stored :
    (vs b : List ℕ) (i : ℕ)
    → i + length vs ≤ length b
    → (b' : List ℕ) × (write_bytes b i vs ≡ some b') × Stored b i vs b'
unfolding write_bytes write
write_bytes-Stored [] b i h = (
  b,
  refl,
  record { same_length = refl; stored = λ j l. absurd (omega arith); kept = λ k l. refl },
)
write_bytes-Stored (v ∷ vs) b i h =
    let b1 = set b i v in
    let len : length b1 ≡ length b = length-set b i v in
    let (b', q, r) = write_bytes-Stored vs b1 (i + 1) (omega arith) in
    (
      b',
      rw (lt→ltb i (length b) (omega arith)) q,
      record {
        same_length = r.same_length ∙ len;
        stored = λ j l. stored b' r j l;
        kept = λ k l. r.kept k (ground arith) ∙ get_elem?-set_ne b i k v (λ e. ground arith);
      },
    )
  where
    stored :
        (b' : List ℕ)
        → Stored (set b i v) (i + 1) vs b'
        → (j : ℕ) → j < length (v ∷ vs)
        → get_elem? b' (i + j) ≡ get_elem? (v ∷ vs) j
    stored b' r zero l =
        let here : i + 0 ≡ i = omega arith in
        subst (λ k. get_elem? b' k ≡ some v) (sym here)
          (r.kept i (inl (omega arith)) ∙ get_elem?-set_self b i v (omega arith))
    stored b' r (suc j) l =
        let next : i + suc j ≡ i + 1 + j = omega arith in
        subst (λ k. get_elem? b' k ≡ get_elem? vs j) (sym next) (r.stored j (omega arith))

-- The bytes of a header stand at its offset.
abbrev pub Written : List ℕ → HdrEntry → Type 0
Written b e =
    (x bin : ℕ)
    → e.offset_entry ≡ some (x, bin)
    → (j : ℕ) → j < length (bytes e)
    → get_elem? b (x + j) ≡ get_elem? (bytes e) j

-- What the generation gives.
abbrev pub Generates : Tables → Bool → Option (ℤ × List ℕ) → Type 0
Generates s alloc_ok r =
    ((s.hdr_slots.end_ofst ≡ 0) × (r ≡ some (eperm, [])))
    ⊎ ((alloc_ok ≡ false) × (r ≡ some (enomem, [])))
    ⊎ ((b : List ℕ) × (r ≡ some (pos 0, b))
        × (length b ≡ s.hdr_slots.end_ofst)
        × ((m : ℕ) (e : HdrEntry) → Live s m e → Written b e))

module _ (mem_size : ℕ) (s : Tables) (w : IsTables mem_size s) where
  -- A copy of a header keeps the others.
  record Copied (n : ℕ) (e : HdrEntry) (b b' : List ℕ) : Type 0 where
    same_length : length b' ≡ length b
    written : Written b' e
    kept : (m : ℕ) (f : HdrEntry) → Live s m f → Written b f → Written b' f

  short : (e : HdrEntry) → length (bytes e) ≤ e.hdr_len
  short e = omega (arith, length-take e.hdr_len e.hdr)

  stored-Written :
      (e : HdrEntry) (x bin : ℕ) (b b' : List ℕ)
      → e.offset_entry ≡ some (x, bin)
      → Stored b x (bytes e) b'
      → Written b' e
  stored-Written e x bin b b' slot r y c q j l =
      let both : ◌≡◌ {A = Option (ℕ × ℕ)} (some (x, bin)) (some (y, c)) = sym slot ∙ q in
      let same : x ≡ y = ground arith in
      subst (λ z. get_elem? b' (z + j) ≡ get_elem? (bytes e) j) same (r.stored j l)

  stored-kept :
      (n : ℕ) (e : HdrEntry) (x bin : ℕ) (b b' : List ℕ)
      → Live s n e
      → e.offset_entry ≡ some (x, bin)
      → Stored b x (bytes e) b'
      → (m : ℕ) (f : HdrEntry) → Live s m f
      → Written b f
      → (n ≡ m) ⊎ (n ≢ m)
      → Written b' f
  stored-kept n e x bin b b' live slot r m f l v (inl q) =
      let there : s.object m ≡ some (hdr_entry e) = subst (λ k. Live s k e) q live in
      let same : e ≡ f = ground arith in
      subst (Written b') same (stored-Written e x bin b b' slot r)
  stored-kept n e x bin b b' live slot r m f l v (inr d) = λ y c q j h.
      let (x1, b1, y1, c1, p1, p2, _, _, apart) = live-LieApart mem_size s w n m e f d live l in
      let both : ◌≡◌ {A = Option (ℕ × ℕ)} (some (x, bin)) (some (x1, b1)) = sym slot ∙ p1 in
      let other : ◌≡◌ {A = Option (ℕ × ℕ)} (some (y, c)) (some (y1, c1)) = sym q ∙ p2 in
      let at_x : x ≡ x1 = ground arith in
      let at_y : y ≡ y1 = ground arith in
      r.kept (y + j) (ground (arith, short e, short f)) ∙ v y c q j h

  copy_header-Copied :
      (n : ℕ) (e : HdrEntry) (b : List ℕ)
      → Live s n e
      → length b ≡ s.hdr_slots.end_ofst
      → (b' : List ℕ) × (copy_header n s b ≡ some b') × Copied n e b b'
  unfolding copy_header copy_entry
  copy_header-Copied n e b live len =
      let o = w.owns n e live in
      let (x, bin, slot, fits) = inside in
      let (b', q, r) = write_bytes-Stored (bytes e) b x fits in
      (
        b',
        rw (copy_header, live) (copied x bin slot b' q),
        record {
          same_length = r.same_length;
          written = stored-Written e x bin b b' slot r;
          kept = λ m f l v. stored-kept n e x bin b b' live slot r m f l v (same_or_not n m);
        },
      )
    where
      inside :
          (x : ℕ) × (bin : ℕ) × (e.offset_entry ≡ some (x, bin)) × (x + length (bytes e) ≤ length b)
      inside =
          let o = w.owns n e live in
          (o.x, o.bin, o.in_slot, omega (arith, live-inside mem_size s w e o, short e))

      copied :
          (x bin : ℕ)
          → e.offset_entry ≡ some (x, bin)
          → (b' : List ℕ) → write_bytes b x (bytes e) ≡ some b'
          → copy_entry e b ≡ some b'
      copied x bin slot b' q =
          ap
            (λ (t : Bool).
              if t then some b else (do y ← e.offset_entry; write_bytes b y.0 (bytes e)))
            (w.owns n e live).in_table
          ∙ >>=-some (λ (y : ℕ × ℕ). write_bytes b y.0 (bytes e)) slot
          ∙ q

  -- Each of the pointers leads to a header.
  abbrev pub Listed : List ℕ → Type 0
  Listed ns = All (λ n. (e : HdrEntry) × Live s n e) ns

  record CopiedAll (ns : List ℕ) (b b' : List ℕ) : Type 0 where
    same_length : length b' ≡ length b
    written : All (λ n. (e : HdrEntry) → Live s n e → Written b' e) ns
    kept : (m : ℕ) (f : HdrEntry) → Live s m f → Written b f → Written b' f

  copy_headers-CopiedAll :
      (ns b : List ℕ)
      → Listed ns
      → length b ≡ s.hdr_slots.end_ofst
      → (b' : List ℕ) × (copy_headers ns s b ≡ some b') × CopiedAll ns b b'
  unfolding copy_headers
  copy_headers-CopiedAll [] b all len =
      (b, refl, record { same_length = refl; written = tt; kept = λ m f l v. v })
  copy_headers-CopiedAll (n ∷ ns) b ((e, live), all) len =
      let (b1, q, c) = copy_header-Copied n e b live len in
      let (b2, r, d) = copy_headers-CopiedAll ns b1 all (c.same_length ∙ len) in
      (
        b2,
        >>=-some (copy_headers ns s) q ∙ r,
        record {
          same_length = d.same_length ∙ c.same_length;
          written = (λ f l. d.kept n f l (same f l b1 c.written), d.written);
          kept = λ m f l v. d.kept m f l (c.kept m f l v);
        },
      )
    where
      same : (f : HdrEntry) → Live s n f → (b1 : List ℕ) → Written b1 e → Written b1 f
      same f l b1 v = let eq : e ≡ f = ground arith in subst (Written b1) eq v

  listed_once : IsListed s → (m : ℕ) (e : HdrEntry) → Live s m e → 0 < listings m s.hdr_list
  listed_once v m e l = omega (arith, v.complete m (e, l))

  pub generate_hdr_hw_tbl-Generates :
      (alloc_ok : Bool) → IsListed s → Generates s alloc_ok (generate_hdr_hw_tbl alloc_ok s)
  unfolding generate_hdr_hw_tbl
  generate_hdr_hw_tbl-Generates alloc_ok v = elim (Bool-cases (s.hdr_slots.end_ofst == 0)) [
    | inl z ↦ inl (ground arith, rw (generate_hdr_hw_tbl, z) refl)
    | inr z ↦ elim (Bool-cases alloc_ok) [
      | inr a ↦ inr (inl (a, rw (generate_hdr_hw_tbl, z, a) refl))
      | inl a ↦
          let zeros = replicate s.hdr_slots.end_ofst 0 in
          let len = length-replicate s.hdr_slots.end_ofst 0 in
          let (b, q, c) =
            copy_headers-CopiedAll s.hdr_list zeros (All-listings (HasHeader s) s.hdr_list v.listed)
              len in
          inr (
            inr (
              b,
              rw (generate_hdr_hw_tbl, z, a, q) refl,
              c.same_length ∙ len,
              λ m e l.
                  at_listing (λ n. (f : HdrEntry) → Live s n f → Written b f) s.hdr_list c.written m
                    (listed_once v m e l) e l,
            ))
    ]
  ]
