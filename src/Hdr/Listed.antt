-- ===== src/Hdr/Listed.antt =====
-- ipa_hdr.c: the list of headers against the headers of the tables.
use postmarketos_x00td_cellu.Common.{
  ℕ, ◌+◌, ◌<◌, ◌≡◌, ◌≢◌, refl, sym, subst, ◌∙◌, ◌⊎◌, inl, inr, none, List, [], ◌∷◌, All, Bool-cases,
  ◌==◌, ==-refl, ==-ne, if◌then◌else◌, arith,
}
use postmarketos_x00td_cellu.Hdr.Apart.{same_or_not}
use postmarketos_x00td_cellu.Hdr.Tables.{HdrEntry, Tables, list_del}
use postmarketos_x00td_cellu.Hdr.Live.{Live}

-- How often a list has a pointer.
unfoldable pub listings : ℕ → List ℕ → ℕ
listings n [] = 0
listings n (m ∷ ms) = (if m == n then 1 else 0) + listings n ms

abbrev pub HasHeader : Tables → ℕ → Type 0
HasHeader s m = (e : HdrEntry) × Live s m e

pub record IsListed (s : Tables) : Type 0 where
  pub listed : (m : ℕ) → 0 < listings m s.hdr_list → HasHeader s m
  pub complete : (m : ℕ) → HasHeader s m → listings m s.hdr_list ≡ 1

listings-list_del :
    (n m : ℕ) (ns : List ℕ)
    → 0 < listings n ns
    → listings m ns ≡ (if n == m then 1 else 0) + listings m (list_del n ns)
unfolding listings list_del
listings-list_del n m [] h = absurd (omega arith)
listings-list_del n m (k ∷ ks) h = elim (Bool-cases (k == n)) [
  | inl q ↦ let same : k ≡ n = ground arith in rw (list_del, q, same) refl
  | inr q ↦
      let rest = listings-list_del n m ks (ground (arith, h, q)) in
      rw (list_del, q) (omega (arith, rest))
]

module _ (P : ℕ → Type 0) where
  pub All-listings : (ns : List ℕ) → ((m : ℕ) → 0 < listings m ns → P m) → All P ns
  unfolding listings
  All-listings [] f = tt
  All-listings (n ∷ ns) f =
      (f n (ground (arith, ==-refl n)), All-listings ns (λ m h. f m (omega arith)))

  pub at_listing : (ns : List ℕ) → All P ns → (m : ℕ) → 0 < listings m ns → P m
  unfolding listings
  at_listing [] all m h = absurd (omega arith)
  at_listing (n ∷ ns) (here, all) m h = elim (Bool-cases (n == m)) [
    | inl q ↦ let same : n ≡ m = ground arith in subst P same here
    | inr q ↦ at_listing ns all m (ground (arith, h, q))
  ]

module _ (s s' : Tables) (v : IsListed s) where
  pub same-IsListed :
      s'.hdr_list ≡ s.hdr_list
      → ((m : ℕ) → HasHeader s m → HasHeader s' m)
      → ((m : ℕ) → HasHeader s' m → HasHeader s m)
      → IsListed s'
  same-IsListed same there back = record {
    listed = λ m h. there m (v.listed m (subst (λ l. 0 < listings m l) same h));
    complete = λ m h. subst (λ l. listings m l ≡ 1) (sym same) (v.complete m (back m h));
  }

  module _ (n : ℕ) (elsewhere : (m : ℕ) → n ≢ m → s'.object m ≡ s.object m) where
    there : (m : ℕ) → n ≢ m → HasHeader s m → HasHeader s' m
    there m d (e, l) = (e, elsewhere m d ∙ l)

    back : (m : ℕ) → n ≢ m → HasHeader s' m → HasHeader s m
    back m d (e, l) = (e, sym (elsewhere m d) ∙ l)

    no_header : (t : Tables) (m : ℕ) → t.object m ≡ none → HasHeader t m → ⊥
    no_header t m gone (e, l) = cc

    pub joined-IsListed :
        s.object n ≡ none → HasHeader s' n → s'.hdr_list ≡ n ∷ s.hdr_list → IsListed s'
    unfolding listings
    joined-IsListed gone new same = record {
      listed = λ m h. listed m (subst (λ l. 0 < listings m l) same h) (same_or_not n m);
      complete = λ m h. subst (λ l. listings m l ≡ 1) (sym same) (complete m h (same_or_not n m));
    }
      where
        listed : (m : ℕ) → 0 < listings m (n ∷ s.hdr_list) → (n ≡ m) ⊎ (n ≢ m) → HasHeader s' m
        listed m h (inl q) = subst (HasHeader s') q new
        listed m h (inr d) = there m d (v.listed m (ground (arith, h, ==-ne n m d)))

        unlisted : listings n s.hdr_list ≡ 0
        unlisted =
            let none_there : ¬ (0 < listings n s.hdr_list) =
              λ h. no_header s n gone (v.listed n h) in
            omega (arith, none_there)

        complete : (m : ℕ) → HasHeader s' m → (n ≡ m) ⊎ (n ≢ m) → listings m (n ∷ s.hdr_list) ≡ 1
        complete m h (inl q) =
            subst (λ k. listings k (n ∷ s.hdr_list) ≡ 1) q (rw (==-refl n, unlisted) refl)
        complete m h (inr d) = rw (==-ne n m d) (omega (arith, v.complete m (back m d h)))

    pub removed-IsListed :
        HasHeader s n → s'.object n ≡ none → s'.hdr_list ≡ list_del n s.hdr_list → IsListed s'
    removed-IsListed old gone same = record {
      listed = λ m h. listed m (subst (λ l. 0 < listings m l) same h) (same_or_not n m);
      complete = λ m h. subst (λ l. listings m l ≡ 1) (sym same) (complete m h (same_or_not n m));
    }
      where
        before :
            (m : ℕ)
            → listings m s.hdr_list ≡ (if n == m then 1 else 0) + listings m (list_del n s.hdr_list)
        before m = listings-list_del n m s.hdr_list (omega (arith, v.complete n old))

        listed :
            (m : ℕ) → 0 < listings m (list_del n s.hdr_list) → (n ≡ m) ⊎ (n ≢ m) → HasHeader s' m
        listed m h (inl q) =
            let one : listings m s.hdr_list ≡ 1 =
              subst (λ k. listings k s.hdr_list ≡ 1) q (v.complete n old) in
            absurd (ground (arith, before m, q))
        listed m h (inr d) = there m d (v.listed m (ground (arith, before m, ==-ne n m d)))

        complete :
            (m : ℕ) → HasHeader s' m → (n ≡ m) ⊎ (n ≢ m) → listings m (list_del n s.hdr_list) ≡ 1
        complete m h (inl q) = absurd (no_header s' m (subst (λ k. s'.object k ≡ none) q gone) h)
        complete m h (inr d) = ground (arith, before m, ==-ne n m d, v.complete m (back m d h))
