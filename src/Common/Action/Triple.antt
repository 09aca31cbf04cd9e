-- ===== src/Common/Action/Triple.antt =====
-- Hoare triples of actions: what holds after a return, and what holds after an error.
use mathlib.Core.Path.{subst}
use nvelope.Common.{◌≡◌, refl, ap}
use nvelope.Common.Action.{
  Result, ok, err, Action, pure, raise, continue, ◌>>=◌, lift, ok-injective,
}

module _ {S E A : Type 0} where
  abbrev pub Post : (A → S → Type 0) → (S → Type 0) → Result E A × S → Type 0
  Post Q R (ok a, s) = Q a s
  Post Q R (err e, s) = R s

  -- From `P`, a return of `a` leads to `Q a`, and an error to `R`.
  pub record Triple (P : S → Type 0) (m : Action S E A) (Q : A → S → Type 0) (R : S → Type 0)
      : Type 0 where
    pub at : (s : S) → P s → Post Q R (m s)

module _ {S E A : Type 0} {P R : S → Type 0} where
  pub Triple-pure : (a : A) → Triple P (pure {E = E} a) (λ b s. P s) R
  unfolding pure
  Triple-pure a = record { at = λ s h. h }

  -- The same, with the value that is returned.
  pub Triple-return : (a : A) → Triple P (pure {E = E} a) (λ b s. P s × (b ≡ a)) R
  unfolding pure
  Triple-return a = record { at = λ s h. (h, refl) }

  pub Triple-raise :
      {Q : A → S → Type 0} (e : E) → ((s : S) → P s → R s) → Triple P (raise {A = A} e) Q R
  unfolding raise
  Triple-raise e k = record { at = λ s h. k s h }

module _ {S E A B : Type 0} {R : S → Type 0} {Q : A → S → Type 0} {T : B → S → Type 0} where
  Post-continue :
      (r : Result E A × S) (f : A → Action S E B)
      → Post Q R r
      → ((a : A) → Triple (Q a) (f a) T R)
      → Post T R (continue r.0 f r.1)
  Post-continue (ok a, s) f h k = (k a).at s h
  Post-continue (err e, s) f h k = h

  pub Triple-bind :
      {P : S → Type 0} (m : Action S E A) (f : A → Action S E B)
      → Triple P m Q R
      → ((a : A) → Triple (Q a) (f a) T R)
      → Triple P (m >>= f) T R
  unfolding ◌>>=◌
  Triple-bind m f t k = record { at = λ s h. Post-continue (m s) f (t.at s h) k }

module _ {S E A : Type 0} {R : S → Type 0} {Q : A → S → Type 0} where
  pub Triple-strengthen :
      {P P' : S → Type 0} (m : Action S E A)
      → Triple P' m Q R
      → ((s : S) → P s → P' s)
      → Triple P m Q R
  Triple-strengthen m t k = record { at = λ s h. t.at s (k s h) }

  Post-state : (r : Result E A × S) → Post Q R r → ((a : A) (s : S) → Q a s → R s) → R r.1
  Post-state (ok a, s) h k = k a s h
  Post-state (err e, s) h k = h

  -- A triple whose outcomes all imply `R` keeps `R` from its precondition on.
  pub Triple-state :
      {P : S → Type 0} (m : Action S E A) (s : S)
      → Triple P m Q R
      → P s
      → ((a : A) (s : S) → Q a s → R s)
      → R (m s).1
  Triple-state m s t h k = Post-state (m s) (t.at s h) k

module _ {S E A : Type 0} {P R : S → Type 0} where
  -- A computed result, and what it was computed from.
  pub Triple-lift :
      (r : Result E A) → ((s : S) → P s → R s) → Triple P (lift r) (λ a s. P s × (r ≡ ok a)) R
  unfolding lift
  Triple-lift (ok a) k = record { at = λ s h. (h, refl) }
  Triple-lift (err e) k = record { at = λ s h. k s h }

module _ {S E A : Type 0} {P R : S → Type 0} {Q Q' : A → S → Type 0} where
  pub Triple-weaken :
      (m : Action S E A) → Triple P m Q R → ((a : A) (s : S) → Q a s → Q' a s) → Triple P m Q' R
  Triple-weaken m t k = record { at = λ s h. go (m s) (t.at s h) }
    where
      go : (r : Result E A × S) → Post Q R r → Post Q' R r
      go (ok a, s) h = k a s h
      go (err e, s) h = h

module _ {S E A : Type 0} {P R R' : S → Type 0} {Q : A → S → Type 0} where
  pub Triple-relax : (m : Action S E A) → Triple P m Q R → ((s : S) → R s → R' s) → Triple P m Q R'
  Triple-relax m t k = record { at = λ s h. go (m s) (t.at s h) }
    where
      go : (r : Result E A × S) → Post Q R r → Post Q R' r
      go (ok a, s) h = h
      go (err e, s) h = k s h

module _ {S E A : Type 0} {P R : S → Type 0} {Q : A → S → Type 0} {F : Type 0} where
  -- A pure fact of the precondition, such as where a value comes from, may be assumed.
  pub Triple-assume : {m : Action S E A} → (F → Triple P m Q R) → Triple (λ s. P s × F) m Q R
  Triple-assume k = record { at = λ s h. (k h.1).at s h.0 }

module _ {S E A : Type 0} where
  Post-ok :
      (Q : A → S → Type 0) (R : S → Type 0) (r : Result E A × S) {a : A}
      → Post Q R r
      → r.0 ≡ ok a
      → Q a r.1
  Post-ok Q R (ok b, s) h e = subst (λ c. Q c s) (ok-injective e) h
  Post-ok Q R (err x, s) h e = absurd (cc e)

module _ {S E A : Type 0} {R : S → Type 0} {Q : A → S → Type 0} where
  -- What a triple says of a return.
  pub Triple-ok :
      {P : S → Type 0} (m : Action S E A) (s : S) {a : A}
      → Triple P m Q R
      → P s
      → (m s).0 ≡ ok a
      → Q a (m s).1
  Triple-ok m s t h e = Post-ok Q R (m s) (t.at s h) e

  -- A triple from what holds of each return.
  pub Triple-from_ok :
      {P : S → Type 0} (m : Action S E A)
      → ((s : S) (a : A) → P s → (m s).0 ≡ ok a → Q a (m s).1)
      → ((s : S) → R s)
      → Triple P m Q R
  Triple-from_ok {P} m k r = record { at = λ s h. go s h (m s) refl }
    where
      go : (s : S) → P s → (x : Result E A × S) → m s ≡ x → Post Q R x
      go s h (ok a, s') e = subst (λ y. Q a y.1) e (k s a h (ap (λ y. y.0) e))
      go s h (err x, s') e = r s'
