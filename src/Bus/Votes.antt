-- ===== src/Bus/Votes.antt =====
-- What an update asks of the framework.
use postmarketos_x00td_cellu.Common.{
  ℕ, zero, suc, ◌+◌, ◌-◌, ◌≤◌, ◌<◌, ◌≡◌, refl, sym, ap, ◌∙◌, inl, inr, true, false, none, some,
  List, [], ◌∷◌, length, get_elem?, get_elem?-total, get_elem?-beyond, take, drop, Option-cases,
  Bool-cases, if◌then◌else◌, arith,
}
use postmarketos_x00td_cellu.Common.Fault.{>>=-some}
use postmarketos_x00td_cellu.Common.Int.{ℤ, pos, negsuc, is_zero}
use postmarketos_x00td_cellu.Bus.{
  Vector, Usecase, Pdata, CompatPath, Handle, IccCall, of_icc_get, set_bw, Framework, Compat,
  find_path, bps_to_kbps, slot_of, to_int, int_ge, vote_one, vote_all, update_usecase,
  update_request,
}

-- The votes of a list of vectors: one for each vector whose path the client holds, in their order.
pub votes : List Vector → List CompatPath → List IccCall
votes [] paths = []
votes (v ∷ vs) paths = elim (find_path paths v.src v.dst) [
  | none ↦ votes vs paths
  | some p ↦ set_bw (some p) (bps_to_kbps v.ab) (bps_to_kbps v.ib) ∷ votes vs paths
]

-- The calls, one after the other, on top of those before.
abbrev pub made : List IccCall → List IccCall → List IccCall
made [] calls = calls
made (c ∷ cs) calls = made cs (c ∷ calls)

-- What the framework answers to a vote; the votes hold no other call.
pub answer : Framework → List IccCall → IccCall → ℤ
answer f calls (set_bw p ab ib) = f.icc_set_bw calls p ab ib
answer f calls (of_icc_get name) = pos 0

pub answers : Framework → List IccCall → List IccCall → List ℤ
answers f [] calls = []
answers f (c ∷ cs) calls = answer f calls c ∷ answers f cs (c ∷ calls)

-- The first answer that is not 0, or 0.
pub first_error : List ℤ → ℤ
first_error [] = pos 0
first_error (a ∷ more) = if is_zero a then first_error more else a

-- An error so far is kept.
kept : ℤ → ℤ → ℤ
kept ret more = if is_zero ret then more else ret

kept-first_error :
    (a ret : ℤ) (more : List ℤ)
    → kept (if is_zero ret then a else ret) (first_error more) ≡ kept ret (first_error (a ∷ more))
unfolding kept first_error
kept-first_error a ret more = elim (Bool-cases (is_zero ret)) [
  | inl e ↦ rw e refl
  | inr e ↦ rw (e, e) refl
]

kept_none : (ret : ℤ) → kept ret (pos 0) ≡ ret
unfolding kept
kept_none (pos zero) = refl
kept_none (pos (suc n)) = refl
kept_none (negsuc n) = refl

drop-get :
    (vs : List Vector) (i : ℕ) (v : Vector)
    → get_elem? vs i ≡ some v
    → drop i vs ≡ v ∷ drop (suc i) vs
drop-get [] i v e = absurd (ground arith)
drop-get (w ∷ vs) zero v e = let same : w ≡ v = ground arith in ap (λ x. x ∷ vs) same
drop-get (w ∷ vs) (suc i) v e = drop-get vs i v e

-- One round of the loop, with the rest of it.
vote_one_lem :
    (f : Framework) (v : Vector) (vs : List Vector) (paths : List CompatPath) (ret : ℤ)
    (calls : List IccCall)
    → let (r, c) = vote_one f v paths ret calls in
      let cs = votes vs paths in
      let ds = votes (v ∷ vs) paths in
      ◌≡◌ {A = ℤ × List IccCall}
        (kept r (first_error (answers f cs c)), made cs c)
        (kept ret (first_error (answers f ds calls)), made ds calls)
unfolding vote_one votes answers answer
vote_one_lem f v vs paths ret calls = elim (Option-cases (find_path paths v.src v.dst)) [
  | inl n ↦ rw (n, vote_one, votes) refl
  | inr (p, y) ↦
      let vote_call = λ (q : ℕ). set_bw (some q) (bps_to_kbps v.ab) (bps_to_kbps v.ib) in
      rw (y, vote_one, votes)
        (ap (λ (r : ℤ). (r, made (votes vs paths) (vote_call p ∷ calls)))
          (kept-first_error _ ret _))
]

vote_all_lem :
    (f : Framework) (vs : List Vector) (k i : ℕ) (paths : List CompatPath) (ret : ℤ)
    (calls : List IccCall)
    → i + k ≤ length vs
    → let cs = votes (take k (drop i vs)) paths in
      vote_all f vs k i paths ret calls
      ≡ some (kept ret (first_error (answers f cs calls)), made cs calls)
unfolding vote_all
vote_all_lem f vs zero i paths ret calls h =
    unfold votes answers first_error in ap (λ (r : ℤ). some (r, calls)) (sym (kept_none ret))
vote_all_lem f vs (suc k) i paths ret calls h =
    from (λ r c. vote_all_lem f vs k (i + 1) paths r c (omega arith))
      (get_elem?-total vs i (omega arith))
  where
    from :
        ((r : ℤ) (c : List IccCall)
          → vote_all f vs k (i + 1) paths r c
            ≡ some (
              kept r (first_error (answers f (votes (take k (drop (i + 1) vs)) paths) c)),
              made (votes (take k (drop (i + 1) vs)) paths) c,
            ))
        → ((v : Vector) × (get_elem? vs i ≡ some v))
        → vote_all f vs (suc k) i paths ret calls
          ≡ some (
            kept ret (first_error (answers f (votes (take (suc k) (drop i vs)) paths) calls)),
            made (votes (take (suc k) (drop i vs)) paths) calls,
          )
    from ih (v, e) =
        let after : suc i ≡ i + 1 = omega arith in
        >>=-some _ e
        ∙ ih _ _
        ∙ rw (drop-get vs i v e, after)
            (ap some (vote_one_lem f v (take k (drop (i + 1) vs)) paths ret calls))

-- A client with a handle, and its entry.
pub record IsClient (s : Compat) (cl : ℕ) (h : Handle) : Type 0 where
  pub positive : 0 < cl
  pub bounded : cl ≤ 4
  pub entry : get_elem? s.handles (cl - 1) ≡ some h
  pub used : h.in_use ≡ true

pub slot_of_lem : (cl : ℕ) → 0 < cl → cl ≤ 4 → slot_of cl ≡ some (cl - 1)
unfolding slot_of
slot_of_lem cl a b = ground arith

module _ (f : Framework) (s : Compat) (cl : ℕ) (h : Handle) (held : IsClient s cl h) (pdata : Pdata)
    (client : h.pdata ≡ some pdata) where
  pub update_request_lem :
      (index : ℕ) → update_request f cl index s ≡ update_usecase f h pdata index s
  unfolding update_request
  update_request_lem index =
      rw (update_request, slot_of_lem cl held.positive held.bounded, held.entry, held.used, client)
        refl

  -- An update to a use case of the client's table returns. For each of its vectors whose path the
  -- client holds, in order, the framework is asked once, for the bandwidths in its unit; nothing else
  -- changes, and the result is the first error that the framework answers, or 0.
  pub update_request-votes :
      (usecases : List Usecase) (uc : Usecase) (n index : ℕ)
      → pdata.usecase ≡ some usecases
      → pdata.num_usecases ≡ pos n
      → n < 2147483648
      → index < n
      → get_elem? usecases index ≡ some uc
      → uc.num_paths ≤ length uc.vectors
      → let cs = votes (take uc.num_paths uc.vectors) h.paths in
        update_request f cl index s
        ≡ some (first_error (answers f cs s.calls), record s { calls = made cs s.calls })
  unfolding update_usecase to_int int_ge first_error kept
  update_request-votes usecases uc n index table count small inside at fits =
      let in_int : to_int index ≡ pos index = ground arith in
      let in_range : int_ge (pos index) (pos n) ≡ false = ground arith in
      update_request_lem index
      ∙ rw
          (
            in_int,
            count,
            in_range,
            table,
            at,
            vote_all_lem f uc.vectors uc.num_paths 0 h.paths (pos 0) s.calls (omega arith),
          )
          refl

  -- The test of the index is on an int: an index of 2 ^ 31 or more is negative there, passes it, and is
  -- then used beyond the end of the table.
  pub update_request-negative :
      (usecases : List Usecase) (n index : ℕ)
      → pdata.usecase ≡ some usecases
      → pdata.num_usecases ≡ pos n
      → length usecases ≤ 2147483648
      → 2147483648 ≤ index
      → update_request f cl index s ≡ none
  unfolding update_usecase to_int int_ge
  update_request-negative usecases n index table count size above =
      let in_int : to_int index ≡ negsuc (4294967295 - index) = ground arith in
      update_request_lem index
      ∙ rw (in_int, count, table, get_elem?-beyond usecases index (omega arith)) refl
