-- ===== src/Stage/Outcome.antt =====
-- What a stage leaves: its exit code is beside its context.
use postmarketos_x00td_cellu.Common.{ℕ, ◌≤◌, ◌≡◌, sym, ◌∙◌, subst, List}
use postmarketos_x00td_cellu.Context.{Ctx}
use postmarketos_x00td_cellu.Host.{Kernel, Cmd, Run, ok, fault, stuck}
unfoldable use postmarketos_x00td_cellu.Host.{◌>>=◌}
use postmarketos_x00td_cellu.Host.Rules.{Brings, Returns, Brings-bind}

-- The open descriptors are those of before, and so are the bearer socket and the APN of the context;
-- the exit code is 3 at most.
abbrev pub Closed : Ctx → List ℕ → ℕ × Ctx → List ℕ → Type 0
Closed ctx fds (rc, ctx') gs = (gs ≡ fds) × (ctx'.fd ≡ ctx.fd) × (ctx'.apn ≡ ctx.apn) × (rc ≤ 3)

-- The same of a command without an exit code.
abbrev pub Kept : Ctx → List ℕ → Ctx → List ℕ → Type 0
Kept ctx fds ctx' gs = (gs ≡ fds) × (ctx'.fd ≡ ctx.fd) × (ctx'.apn ≡ ctx.apn)

module _ ⦃K : Kernel⦄ where
  -- A command that keeps what is open and what a later stage needs, and the rest.
  pub then_kept :
      {B : Type 0} {fds : List ℕ} {Q : B → List ℕ → Type 0} (ctx : Ctx) (m : Cmd Ctx)
      (f : Ctx → Cmd B)
      → Brings fds m (Kept ctx fds)
      → ((ctx' : Ctx) → ctx'.fd ≡ ctx.fd → ctx'.apn ≡ ctx.apn → Brings fds (f ctx') Q)
      → Brings fds (m >>= f) Q
  then_kept {B} {fds} {Q} ctx m f b k =
      Brings-bind m f (Kept ctx fds) b
        λ ctx' gs h. subst (λ hs. Brings hs (f ctx') Q) (sym h.0) (k ctx' h.1 h.2)

  -- What is kept of a context is kept of one that agrees with it.
  pub Kept-on :
      {fds : List ℕ} (c ctx : Ctx) (m : Cmd Ctx)
      → c.fd ≡ ctx.fd
      → c.apn ≡ ctx.apn
      → Brings fds m (Kept c fds)
      → Brings fds m (Kept ctx fds)
  Kept-on {fds} c ctx m f a b = record { at = λ w e. weaken (m w) (b.at w e) }
    where
      weaken : (r : Run Ctx) → Returns r (Kept c fds) → Returns r (Kept ctx fds)
      weaken (ok c' w) h = (h.0, h.1 ∙ f, h.2 ∙ a)
      weaken fault h = h
      weaken stuck h = h
