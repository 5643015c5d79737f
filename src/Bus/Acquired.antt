-- ===== src/Bus/Acquired.antt =====
-- The walk of a registration over the vectors, and the paths that it meets.
use postmarketos_x00td_cellu.Common.{
  ℕ, zero, suc, ◌+◌, ◌≤◌, ◌<◌, ◌≡◌, refl, sym, ap, subst, ◌∙◌, ◌⊎◌, inl, inr, Option, none, some,
  List, [], ◌∷◌, length, length-append, get_elem?, String, Option-cases, Bool-cases, leb, arith,
}
use postmarketos_x00td_cellu.Common.Fault.{>>=-some}
use postmarketos_x00td_cellu.Bus.{
  Vector, CompatPath, IccCall, of_icc_get, Framework, Turn, full, next, icc_name, find_path,
  get_path, acquire_one, acquire,
}

here_or_later : (i j : ℕ) → i ≤ j → (i ≡ j) ⊎ (i + 1 ≤ j)
here_or_later i j a = ground arith

-- A vector without a path: it has no name, or the framework answered without a path.
pub data Unavailable (f : Framework) (v : Vector) : Type 0 where
  no_name : icc_name v.src v.dst ≡ none → Unavailable f v
  no_answer :
      (name : String) (calls : List IccCall)
      → icc_name v.src v.dst ≡ some name
      → f.icc_get calls name ≡ none
      → Unavailable f v

abbrev Longer : List CompatPath → Turn → Type 0
Longer ps full = Unit {0}
Longer ps (next qs calls) = length ps ≤ length qs

acquire_one-Longer :
    (f : Framework) (v : Vector) (ps : List CompatPath) (calls : List IccCall)
    → Longer ps (acquire_one f v ps calls)
unfolding acquire_one get_path
acquire_one-Longer f v ps calls = elim (Option-cases (icc_name v.src v.dst)) [
  | inl e ↦ rw (acquire_one, e) (omega arith)
  | inr (name, e) ↦ elim (Option-cases (find_path ps v.src v.dst)) [
    | inr (p, g) ↦ rw (acquire_one, e, g) (omega arith)
    | inl g ↦ elim (Bool-cases (leb 6 (length ps))) [
      | inl l ↦ rw (acquire_one, e, g, l) tt
      | inr l ↦ elim (Option-cases (f.icc_get calls name)) [
        | inl a ↦ rw (acquire_one, e, g, l, get_path, a) (omega arith)
        | inr (p, a) ↦
            rw (acquire_one, e, g, l, get_path, a)
              (omega (arith, length-append ps (record { src = v.src; dst = v.dst; path = p } ∷ [])))
      ]
    ]
  ]
]

abbrev Walked : Type 0
Walked = Option (List CompatPath × List IccCall)

module _ (f : Framework) (vs : List Vector) (k i : ℕ) (ps : List CompatPath)
    (calls : List IccCall) where
  abbrev go_on : Turn → Walked
  go_on t = elim t [ full ↦ some (ps, calls) | next qs cs ↦ acquire f vs k (i + 1) qs cs ]

  -- One round of the walk.
  stepped :
      (u : Vector) (t : Turn)
      → get_elem? vs i ≡ some u
      → acquire_one f u ps calls ≡ t
      → acquire f vs (suc k) i ps calls ≡ go_on t
  unfolding acquire
  stepped u t n q = >>=-some _ n ∙ ap go_on q

-- The walk drops no path.
acquire-Longer :
    (f : Framework) (vs : List Vector) (k i : ℕ) (ps qs : List CompatPath) (calls cs : List IccCall)
    → acquire f vs k i ps calls ≡ some (qs, cs)
    → length ps ≤ length qs
unfolding acquire
acquire-Longer f vs zero i ps qs calls cs e = let same : ps ≡ qs = ground arith in ap-le same
  where
    ap-le : ps ≡ qs → length ps ≤ length qs
    ap-le q = subst (λ l. length ps ≤ length l) q (omega arith)
acquire-Longer f vs (suc k) i ps qs calls cs e = elim (Option-cases (get_elem? vs i)) [
  | inl g ↦ absurd (ground (arith, rw g at e))
  | inr (v, g) ↦
      by (acquire_one f v ps calls) (acquire_one-Longer f v ps calls)
        (λ qs' cs' q. acquire-Longer f vs k (i + 1) qs' qs cs' cs q)
        (sym (stepped f vs k i ps calls v _ g refl) ∙ e)
]
  where
    by :
        (t : Turn)
        → Longer ps t
        → ((qs' : List CompatPath) (cs' : List IccCall)
            → acquire f vs k (i + 1) qs' cs' ≡ some (qs, cs)
            → length qs' ≤ length qs)
        → go_on f vs k i ps calls t ≡ some (qs, cs)
        → length ps ≤ length qs
    by full l ih q =
        let same : ps ≡ qs = ground arith in subst (λ x. length ps ≤ length x) same (omega arith)
    by (next qs' cs') l ih q = omega (arith, l, ih qs' cs' q)

-- A walk that ends without a path met vectors without one only.
pub acquire-Unavailable :
    (f : Framework) (vs : List Vector) (k i : ℕ) (calls cs : List IccCall)
    → acquire f vs k i [] calls ≡ some ([], cs)
    → (j : ℕ) (v : Vector) → i ≤ j
    → j < i + k
    → get_elem? vs j ≡ some v
    → Unavailable f v
unfolding acquire acquire_one get_path find_path
acquire-Unavailable f vs zero i calls cs e j v a b g = absurd (omega arith)
acquire-Unavailable f vs (suc k) i calls cs e j v a b g = elim (Option-cases (get_elem? vs i)) [
  | inl n ↦ absurd (ground (arith, rw n at e))
  | inr (u, n) ↦ elim (Option-cases (icc_name u.src u.dst)) [
    | inl h ↦
        later calls u n (no_name h)
          (λ calls' r c. acquire-Unavailable f vs k (i + 1) calls' cs r j v c (omega arith) g)
          (sym (stepped f vs k i [] calls u (next [] calls) n (rw (acquire_one, h) refl)) ∙ e)
    | inr (name, h) ↦ elim (Option-cases (f.icc_get calls name)) [
      | inl o ↦
          later (of_icc_get name ∷ calls) u n (no_answer name calls h o)
            (λ calls' r c. acquire-Unavailable f vs k (i + 1) calls' cs r j v c (omega arith) g)
            (sym (
                stepped f vs k i [] calls u (next [] (of_icc_get name ∷ calls)) n
                  (rw (acquire_one, h, get_path, o) refl))
              ∙ e)
      | inr (p, o) ↦ absurd (
          omega (
            arith,
            acquire-Longer f vs k (i + 1) (record { src = u.src; dst = u.dst; path = p } ∷ []) []
                (of_icc_get name ∷ calls) cs
                (sym (
                    stepped f vs k i [] calls u
                      (next (record { src = u.src; dst = u.dst; path = p } ∷ [])
                        (of_icc_get name ∷ calls))
                      n (rw (acquire_one, h, get_path, o) refl))
                  ∙ e),
          ))
    ]
  ]
]
  where
    later :
        (calls' : List IccCall) (u : Vector)
        → get_elem? vs i ≡ some u
        → Unavailable f u
        → ((calls' : List IccCall)
            → acquire f vs k (i + 1) [] calls' ≡ some ([], cs)
            → i + 1 ≤ j
            → Unavailable f v)
        → acquire f vs k (i + 1) [] calls' ≡ some ([], cs)
        → Unavailable f v
    later calls' u n h ih r = elim (here_or_later i j a) [
      | inl q ↦
          let there : get_elem? vs i ≡ some v = subst (λ m. get_elem? vs m ≡ some v) (sym q) g in
          let same : u ≡ v = ground arith in subst (Unavailable f) same h
      | inr q ↦ ih calls' r q
    ]
