-- ===== src/Host/Rules.antt =====
-- A rule for each way to build a command: it ends without a fault, and what it leaves open is known.
use postmarketos_x00td_cellu.Common.{
  ℕ, ◌≡◌, refl, sym, ap, ◌∙◌, subst, append_assoc, All, All-append, Bool, true, false, Option, none,
  some, List, [], ◌∷◌, ◌++◌, ==-refl,
}
use postmarketos_x00td_cellu.Host.{
  Event, socket, close, History, Kernel, World, Run, ok, fault, stuck, and_then, Cmd, pure, lift,
  look, ask, emit, ◌>>=◌, on_some, if◌then◌else◌, opened, erase, open_fds,
}

-- Calls that neither open nor close a descriptor for good.
abbrev pub IsQuiet : Event → Type 0
IsQuiet socket = ⊥
IsQuiet (close fd) = ⊥
IsQuiet _ = Unit

erase-last : (fd : ℕ) (fds : List ℕ) → erase fd (fd ∷ fds) ≡ fds
erase-last fd fds = rw (==-refl fd)

module _ ⦃K : Kernel⦄ where
  abbrev pub Returns : {A : Type 0} → Run A → (A → List ℕ → Type 0) → Type 0
  Returns (ok a w) Q = Q a (open_fds w.history)
  Returns _ Q = ⊥

  -- Started with the descriptors `fds` open, `m` returns, and its result and what is then open
  -- satisfy `Q`.
  pub record Brings {A : Type 0} (fds : List ℕ) (m : Cmd A) (Q : A → List ℕ → Type 0) : Type 0 where
    pub at : (w : World) → open_fds w.history ≡ fds → Returns (m w) Q

  -- A run from `w` that returned, with the same descriptors open and a history that is longer by quiet
  -- calls only.
  abbrev pub Settled : {A : Type 0} → World → Run A → Type 0
  Settled w (ok a w') =
      (open_fds w'.history ≡ open_fds w.history)
      × (newer : History) × (w'.history ≡ newer ++ w.history)
      × All IsQuiet newer
  Settled w _ = ⊥

  -- `m` returns, opens and closes nothing on its way, and leaves the same descriptors open.
  pub record Quiet {A : Type 0} (m : Cmd A) : Type 0 where
    pub at : (w : World) → Settled w (m w)

  open_fds-quiet : (e : Event) (h : History) → IsQuiet e → open_fds (e ∷ h) ≡ open_fds h
  unfolding open_fds
  open_fds-quiet socket h q = absurd q
  open_fds-quiet (close fd) h q = absurd q
  open_fds-quiet _ h q = refl

  module _ {A : Type 0} where
    pub Quiet-pure : (a : A) → Quiet (pure a)
    unfolding pure
    Quiet-pure a = record { at = λ w. (refl, [], refl, tt) }

    pub Quiet-ask : (e : Event) (f : History → A) → IsQuiet e → Quiet (ask e f)
    unfolding ask
    Quiet-ask e f q = record { at = λ w. (open_fds-quiet e w.history q, e ∷ [], refl, (q, tt)) }

    pub Quiet-look : (f : History → A) → Quiet (look f)
    unfolding look
    Quiet-look f = record { at = λ w. (refl, [], refl, tt) }

    pub Quiet-lift : (o : Option A) (a : A) → o ≡ some a → Quiet (lift o)
    unfolding lift
    Quiet-lift o a e =
        subst (λ p. Quiet (lift p)) (sym e) (record { at = λ w. (refl, [], refl, tt) })

    pub Settled-if :
        (b : Bool) (m n : Cmd A) (w : World)
        → (b ≡ true → Settled w (m w))
        → (b ≡ false → Settled w (n w))
        → Settled w ((if b then m else n) w)
    unfolding if◌then◌else◌
    Settled-if true m n w p q = p refl
    Settled-if false m n w p q = q refl

    pub Quiet-if : (b : Bool) (m n : Cmd A) → Quiet m → Quiet n → Quiet (if b then m else n)
    unfolding if◌then◌else◌
    Quiet-if true m n p q = p
    Quiet-if false m n p q = q

  pub Quiet-emit : (e : Event) → IsQuiet e → Quiet (emit e)
  unfolding emit
  Quiet-emit e q = Quiet-ask e _ q

  module _ {A B : Type 0} where
    -- A run that returned, followed by one that may use what came before it.
    pub Settled-bind :
        (w : World) (r : Run A) (f : A → Cmd B)
        → Settled w r
        → ((a : A) (v : World) (newer : History)
            → v.history ≡ newer ++ w.history
            → Settled v (f a v))
        → Settled w (and_then r f)
    Settled-bind w (ok a v) f (e, newer, g, quiet) k = later (f a v) (k a v newer g)
      where
        later : (r : Run B) → Settled v r → Settled w r
        later (ok b u) (e', newer', g', quiet') = (
          e' ∙ e,
          newer' ++ newer,
          g' ∙ ap (λ h. newer' ++ h) g ∙ sym (append_assoc newer' newer w.history),
          All-append IsQuiet newer' newer quiet' quiet,
        )
        later fault h = h
        later stuck h = h
    Settled-bind w fault f h k = h
    Settled-bind w stuck f h k = h

    -- One call, answered by the history that ends with it, and the rest.
    pub Settled-ask :
        (e : Event) (answer : History → A) (f : A → Cmd B) (w : World)
        → IsQuiet e
        → Settled
            (record w { history = e ∷ w.history })
            (f (answer (e ∷ w.history)) (record w { history = e ∷ w.history }))
        → Settled w ((ask e answer >>= f) w)
    unfolding ◌>>=◌
    Settled-ask e answer f w q h =
        later (f (answer (e ∷ w.history)) (record w { history = e ∷ w.history })) h
      where
        later : (r : Run B) → Settled (record w { history = e ∷ w.history }) r → Settled w r
        later (ok b u) (g, newer, i, quiet) = (
          g ∙ open_fds-quiet e w.history q,
          newer ++ e ∷ [],
          i ∙ sym (append_assoc newer (e ∷ []) w.history),
          All-append IsQuiet newer (e ∷ []) quiet (q, tt),
        )
        later fault h = h
        later stuck h = h

    pub Settled-look :
        (answer : History → A) (f : A → Cmd B) (w : World)
        → Settled w (f (answer w.history) w)
        → Settled w ((look answer >>= f) w)
    unfolding ◌>>=◌ look
    Settled-look answer f w h = h

    pub Quiet-bind :
        (m : Cmd A) (f : A → Cmd B) → Quiet m → ((a : A) → Quiet (f a)) → Quiet (m >>= f)
    unfolding ◌>>=◌
    Quiet-bind m f q k = record {
      at = λ w. Settled-bind w (m w) f (q.at w) (λ a v newer e. (k a).at v);
    }

    returns-quiet :
        (w : World) (r : Run A) (fds : List ℕ) (f : A → Cmd B) (Q : B → List ℕ → Type 0)
        → Settled w r
        → open_fds w.history ≡ fds
        → ((a : A) (v : World) → open_fds v.history ≡ fds → Returns (f a v) Q)
        → Returns (and_then r f) Q
    returns-quiet w (ok a v) fds f Q h e k = k a v (h.0 ∙ e)
    returns-quiet w fault fds f Q h e k = h
    returns-quiet w stuck fds f Q h e k = h

    pub Quiet-on_some :
        (o : Option A) (m : Cmd B) (f : A → Cmd B)
        → Quiet m
        → ((a : A) → Quiet (f a))
        → Quiet (on_some o m f)
    unfolding on_some
    Quiet-on_some none m f p q = p
    Quiet-on_some (some a) m f p q = q a

    returns-bind :
        (r : Run A) (f : A → Cmd B) (P : A → List ℕ → Type 0) (Q : B → List ℕ → Type 0)
        → Returns r P
        → ((a : A) (gs : List ℕ) → P a gs → Brings gs (f a) Q)
        → Returns (and_then r f) Q
    returns-bind (ok a w) f P Q h k = (k a (open_fds w.history) h).at w refl
    returns-bind fault f P Q h k = h
    returns-bind stuck f P Q h k = h

  module _ {A : Type 0} {fds : List ℕ} {Q : A → List ℕ → Type 0} where
    pub Brings-pure : (a : A) → Q a fds → Brings fds (pure a) Q
    unfolding pure
    Brings-pure a q = record { at = λ w e. subst (Q a) (sym e) q }

    pub Brings-if :
        (b : Bool) (m n : Cmd A)
        → (b ≡ true → Brings fds m Q)
        → (b ≡ false → Brings fds n Q)
        → Brings fds (if b then m else n) Q
    unfolding if◌then◌else◌
    Brings-if true m n p q = p refl
    Brings-if false m n p q = q refl

  module _ {A B : Type 0} {fds : List ℕ} {Q : B → List ℕ → Type 0} where
    pub Brings-bind :
        (m : Cmd A) (f : A → Cmd B) (P : A → List ℕ → Type 0)
        → Brings fds m P
        → ((a : A) (gs : List ℕ) → P a gs → Brings gs (f a) Q)
        → Brings fds (m >>= f) Q
    unfolding ◌>>=◌
    Brings-bind m f P b k = record { at = λ w e. returns-bind (m w) f P Q (b.at w e) k }

    -- A command that opens and closes nothing, and the rest.
    pub then_quiet :
        (m : Cmd A) (f : A → Cmd B)
        → Quiet m
        → ((a : A) → Brings fds (f a) Q)
        → Brings fds (m >>= f) Q
    unfolding ◌>>=◌
    then_quiet m f q k = record {
      at = λ w e. returns-quiet w (m w) fds f Q (q.at w) e (λ a v e'. (k a).at v e');
    }

    -- A computation on arrays that yields `a`, and the rest.
    pub then_lift :
        (o : Option A) (f : A → Cmd B) (a : A)
        → o ≡ some a
        → Brings fds (f a) Q
        → Brings fds (lift o >>= f) Q
    unfolding ◌>>=◌
    then_lift o f a e k = subst (λ p. Brings fds (lift p >>= f) Q) (sym e) (record { at = k.at })

    pub Brings-on_some :
        (o : Option A) (m : Cmd B) (f : A → Cmd B)
        → (o ≡ none → Brings fds m Q)
        → ((a : A) → o ≡ some a → Brings fds (f a) Q)
        → Brings fds (on_some o m f) Q
    unfolding on_some
    Brings-on_some none m f p q = p refl
    Brings-on_some (some a) m f p q = q a refl

  module _ {B : Type 0} {fds : List ℕ} {Q : B → List ℕ → Type 0} where
    -- socket(): the new descriptor is open, unless the call failed.
    pub then_socket :
        (f : Option ℕ → Cmd B)
        → Brings fds (f none) Q
        → ((fd : ℕ) → Brings (fd ∷ fds) (f (some fd)) Q)
        → Brings fds (ask socket K.socket >>= f) Q
    unfolding ◌>>=◌ open_fds
    then_socket f p q = record {
      at = λ w e.
          answered (K.socket (socket ∷ w.history)) (socket ∷ w.history) w.dir_ensured
            (ap (opened (K.socket (socket ∷ w.history))) e);
    }
      where
        answered :
            (o : Option ℕ) (h : History) (d : Bool)
            → open_fds h ≡ opened o fds
            → Returns (f o (record { history = h; dir_ensured = d })) Q
        answered none h d e = p.at _ e
        answered (some fd) h d e = (q fd).at _ e

    pub then_close :
        (fd : ℕ) (f : Unit {0} → Cmd B)
        → Brings (erase fd fds) (f tt) Q
        → Brings fds (emit (close fd) >>= f) Q
    unfolding ◌>>=◌ open_fds emit
    then_close fd f p = record { at = λ w e. p.at _ (ap (erase fd) e) }

    -- The same, where a failure is told apart at once.
    pub then_open :
        (m : Cmd B) (g : ℕ → Cmd B)
        → Brings fds m Q
        → ((fd : ℕ) → Brings (fd ∷ fds) (g fd) Q)
        → Brings fds (ask socket K.socket >>= λ made. on_some made m g) Q
    unfolding on_some
    then_open m g p q = then_socket _ p q

  module _ {B : Type 0} {fds : List ℕ} {Q : B → List ℕ → Type 0} where
    -- Closing the descriptor that was opened last.
    pub then_close_last :
        (fd : ℕ) (f : Unit {0} → Cmd B)
        → Brings fds (f tt) Q
        → Brings (fd ∷ fds) (emit (close fd) >>= f) Q
    then_close_last fd f p =
        then_close fd f (subst (λ gs. Brings gs (f tt) Q) (sym (erase-last fd fds)) p)
