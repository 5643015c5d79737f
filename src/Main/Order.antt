-- ===== src/Main/Order.antt =====
-- vendor-init/vendor-init.c: the loop over the stages, on two lists one behind the other.
use postmarketos_x00td_cellu.Common.{
  ℕ, ◌≡◌, refl, sym, ap, ◌∙◌, arith, List, [], ◌∷◌, ◌++◌, ◌==◌, inl, inr, Bool-cases,
}
use postmarketos_x00td_cellu.Common.Text.{codes}
use postmarketos_x00td_cellu.State.{state_set_result}
use postmarketos_x00td_cellu.Context.{Ctx, StageFn}
use postmarketos_x00td_cellu.Host.{Kernel, World, Run, ok, fault, stuck, and_then, Cmd, ◌>>◌}
unfoldable use postmarketos_x00td_cellu.Host.{pure, look, ◌>>=◌, if◌then◌else◌}
use postmarketos_x00td_cellu.Main.{run_stages, after_stage}

-- What follows a result, where the exit code lets it.
abbrev pub on_success : (Ctx → Cmd (ℕ × Ctx)) → ℕ × Ctx → Cmd (ℕ × Ctx)
on_success next (rc, ctx) = if rc == 0 then next ctx else pure (rc, ctx)

and_then_later :
    {A B C : Type 0} (r : Run A) (f : A → Cmd C) (g : A → Cmd B) (h : B → Cmd C)
    → ((a : A) (v : World) → f a v ≡ and_then (g a v) h)
    → and_then r f ≡ and_then (and_then r g) h
and_then_later (ok a v) f g h e = e a v
and_then_later fault f g h e = refl
and_then_later stuck f g h e = refl

module _ ⦃K : Kernel⦄ where
  stages-append :
      (xs ys : List (List ℕ × StageFn)) (ctx : Ctx) (w : World)
      → run_stages (xs ++ ys) ctx w ≡ (run_stages xs ctx >>= on_success (run_stages ys)) w
  unfolding run_stages ◌>>=◌ look
  stages-append [] ys ctx w = refl
  stages-append ((name, fn) ∷ xs) ys ctx w =
      let h : ℕ × Ctx → Cmd (ℕ × Ctx) = on_success (run_stages ys) in
      elim (Bool-cases (K.stopped w.history)) [
        | inl stopped ↦ rw stopped (
            and_then_later {A = Unit {0}} {B = ℕ × Ctx} (state_set_result (codes "INTERRUPTED") w)
              (λ _. pure {A = ℕ × Ctx} (130, ctx)) (λ _. pure {A = ℕ × Ctx} (130, ctx)) h
              λ a v. refl)
        | inr running ↦
            let after_fn : (u : World)
                → and_then (fn ctx u) (after_stage name (run_stages (xs ++ ys)))
                  ≡ and_then (and_then (fn ctx u) (after_stage name (run_stages xs))) h =
              λ u.
                and_then_later {A = ℕ × Ctx} {B = ℕ × Ctx} (fn ctx u)
                  (after_stage name (run_stages (xs ++ ys))) (after_stage name (run_stages xs)) h
                  λ (rc, c) v. after (λ c' u'. stages-append xs ys c' u') rc c v in
            rw running (and_then_later {A = Unit {0}} {B = ℕ × Ctx} _ _ _ h λ a u. after_fn u)
      ]
    where
      after :
          (rest : (c : Ctx) (u : World)
            → run_stages (xs ++ ys) c u ≡ and_then (run_stages xs c u) (on_success (run_stages ys)))
          (rc : ℕ) (c : Ctx) (u : World)
          → after_stage name (run_stages (xs ++ ys)) (rc, c) u
            ≡ and_then (after_stage name (run_stages xs) (rc, c) u) (on_success (run_stages ys))
      after rest rc c u = elim (Bool-cases (rc == 0)) [
        | inl zero_rc ↦ rw zero_rc (rest c u)
        | inr bad ↦
            let stop : (v : World)
                → pure {A = ℕ × Ctx} (rc, c) v ≡ on_success (run_stages ys) (rc, c) v =
              λ v. rw bad in
            rw bad (
              and_then_later {A = Unit {0}} {B = ℕ × Ctx} _ _ _ (on_success (run_stages ys))
                λ a v. stop v)
      ]

  abbrev pub interrupted : Ctx → Cmd (ℕ × Ctx)
  interrupted ctx = state_set_result (codes "INTERRUPTED") >> pure (130, ctx)

  -- What is done with the stages that are left, after others that ended with a result: a failure ends the
  -- run, and so does a signal if there is a stage left.
  abbrev pub carry_on : List (List ℕ × StageFn) → ℕ × Ctx → Cmd (ℕ × Ctx)
  carry_on [] left = pure left
  carry_on (y ∷ ys) (rc, ctx) =
      if rc == 0
      then (do
        stopped ← look K.stopped
        if stopped then interrupted ctx else run_stages (y ∷ ys) ctx)
      else pure (rc, ctx)

  on_success-carry_on :
      (ys : List (List ℕ × StageFn)) (rc : ℕ) (c : Ctx) (v : World)
      → on_success (run_stages ys) (rc, c) v ≡ carry_on ys (rc, c) v
  unfolding run_stages ◌>>=◌ look
  on_success-carry_on [] rc c v = elim (Bool-cases (rc == 0)) [
    | inl z ↦ let none : rc ≡ 0 = ground arith in rw none refl
    | inr z ↦ rw z refl
  ]
  on_success-carry_on ((name, fn) ∷ ys) rc c v = elim (Bool-cases (rc == 0)) [
    | inr z ↦ rw z refl
    | inl z ↦ elim (Bool-cases (K.stopped v.history)) [
      | inl stopped ↦ rw (z, stopped) refl
      | inr running ↦ rw z (sym (ap (λ b. (if b then interrupted c else rest) v) running))
    ]
  ]
    where
      rest : Cmd (ℕ × Ctx)
      rest = run_stages ((name, fn) ∷ ys) c

  pub run_stages-append :
      (xs ys : List (List ℕ × StageFn)) (ctx : Ctx) (w : World)
      → run_stages (xs ++ ys) ctx w ≡ (run_stages xs ctx >>= carry_on ys) w
  unfolding ◌>>=◌
  run_stages-append xs ys ctx w = stages-append xs ys ctx w ∙ by (run_stages xs ctx w)
    where
      by : (r : Run (ℕ × Ctx)) → and_then r (on_success (run_stages ys)) ≡ and_then r (carry_on ys)
      by (ok (rc, c) v) = on_success-carry_on ys rc c v
      by fault = refl
      by stuck = refl
