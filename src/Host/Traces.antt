-- ===== src/Host/Traces.antt =====
-- Rules for what a command asks of the kernel, and for its result.
use postmarketos_x00td_cellu.Common.{
  ◌≡◌, refl, sym, ap, ◌∙◌, append_assoc, Bool, true, false, [], ◌∷◌, ◌++◌,
}
use postmarketos_x00td_cellu.Host.{
  Event, History, World, Run, ok, fault, stuck, and_then, Cmd, pure, look, ask, emit, ◌>>=◌,
  if◌then◌else◌,
}

abbrev pub Every : (Event → Type 0) → History → Type 0
Every P [] = Unit
Every P (e ∷ h) = P e × Every P h

Every-append :
    (P : Event → Type 0) (newer older : History)
    → Every P newer
    → Every P older
    → Every P (newer ++ older)
Every-append P [] older p q = q
Every-append P (e ∷ newer) older (p, ps) q = (p, Every-append P newer older ps q)

module _ (P : Event → Type 0) where
  -- A run from `w` that returned, with calls that satisfy `P` and a result that satisfies `R`.
  abbrev pub Traced : {A : Type 0} → (A → Type 0) → World → Run A → Type 0
  Traced R w (ok a w') = (newer : History) × (w'.history ≡ newer ++ w.history) × Every P newer × R a
  Traced R w _ = ⊥

  -- `m` returns, all its calls satisfy `P`, and its result satisfies `R`.
  pub record Traces {A : Type 0} (m : Cmd A) (R : A → Type 0) : Type 0 where
    pub at : (w : World) → Traced R w (m w)

module _ {P : Event → Type 0} {A : Type 0} {R : A → Type 0} where
  pub Traces-pure : (a : A) → R a → Traces P (pure a) R
  unfolding pure
  Traces-pure a r = record { at = λ w. ([], refl, tt, r) }

  pub Traces-if :
      (b : Bool) (m n : Cmd A) → Traces P m R → Traces P n R → Traces P (if b then m else n) R
  unfolding if◌then◌else◌
  Traces-if true m n p q = p
  Traces-if false m n p q = q

module _ {P : Event → Type 0} {A B : Type 0} {R : A → Type 0} {S : B → Type 0} where
  Traced-bind :
      (w : World) (r : Run A) (f : A → Cmd B)
      → Traced P R w r
      → ((a : A) → R a → Traces P (f a) S)
      → Traced P S w (and_then r f)
  Traced-bind w (ok a v) f (newer, g, p, q) k = later (f a v) ((k a q).at v)
    where
      later : (r : Run B) → Traced P S v r → Traced P S w r
      later (ok b u) (newer', g', p', q') = (
        newer' ++ newer,
        g' ∙ ap (λ h. newer' ++ h) g ∙ sym (append_assoc newer' newer w.history),
        Every-append P newer' newer p' p,
        q',
      )
      later fault h = h
      later stuck h = h
  Traced-bind w fault f h k = h
  Traced-bind w stuck f h k = h

  pub Traces-bind :
      (m : Cmd A) (f : A → Cmd B)
      → Traces P m R
      → ((a : A) → R a → Traces P (f a) S)
      → Traces P (m >>= f) S
  unfolding ◌>>=◌
  Traces-bind m f p k = record { at = λ w. Traced-bind w (m w) f (p.at w) k }

module _ {P : Event → Type 0} where
  pub Traces-ask :
      {A : Type 0} (e : Event) (answer : History → A)
      → P e
      → Traces P (ask e answer) (λ _. Unit {0})
  unfolding ask
  Traces-ask e answer p = record { at = λ w. (e ∷ [], refl, (p, tt), tt) }

  pub Traces-emit : (e : Event) → P e → Traces P (emit e) (λ _. Unit {0})
  unfolding emit
  Traces-emit e p = Traces-ask e _ p

  -- What the history says is known to the rest.
  pub Traces-look :
      {A B : Type 0} {S : B → Type 0} (answer : History → A) (f : A → Cmd B)
      → ((a : A) → Traces P (f a) S)
      → Traces P (look answer >>= f) S
  unfolding ◌>>=◌ look
  Traces-look answer f k = record { at = λ w. (k (answer w.history)).at w }
