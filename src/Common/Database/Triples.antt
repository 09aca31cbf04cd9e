-- ===== src/Common/Database/Triples.antt =====
-- Hoare triples of statements: what a statement on given tables reads and writes.
use nvelope.Common.Action
use nvelope.Platform.Apperr.{Failure}
use nvelope.Common.Action.{ok-injective, ok, err}
use mathlib.Core.Path.{subst}
use nvelope.Common.{◌≡◌, sym, ap, ◌∙◌, refl}
use nvelope.Common.Database.{Db, Query, with_tenant, read, write, take_fresh, time_now}
use nvelope.Common.Database.Inversion.{with_tenant-eq-ok}
use nvelope.Common.Action.Triple.{Triple, Triple-from_ok, Post}
use nvelope.Common.Action.Keeps.{Keeps}

-- The tables are these.
abbrev pub At : {T : Type 0} → T → Db T → Type 0
At t w = w.tables ≡ t

abbrev pub Anywhere : {T : Type 0} → Db T → Type 0
Anywhere w = Unit

module _ {T A : Type 0} (t : T) where
  pub Triple-read :
      (f : T → Action.Result Failure A)
      → Triple (At t) (with_tenant (read f)) (λ a w. At t w × (f t ≡ ok a)) Anywhere
  unfolding read
  Triple-read f =
      Triple-from_ok _
        (λ w a h done.
          let (left, ran) = with_tenant-eq-ok _ w done in
          (sym (ap (λ r. r.1.tables) ran) ∙ h, subst (λ x. f x ≡ ok a) h (ap (λ r. r.0) ran)))
        λ w. tt

  pub Triple-write :
      (g : T → A × T)
      → Triple (At t) (with_tenant (write g)) (λ a w. At (g t).1 w × ((g t).0 ≡ a)) Anywhere
  unfolding write
  Triple-write g =
      Triple-from_ok _
        (λ w a h done.
          let (left, ran) = with_tenant-eq-ok _ w done in
          (
            sym (ap (λ r. r.1.tables) ran) ∙ ap (λ x. (g x).1) h,
            subst (λ x. (g x).0 ≡ a) h (ok-injective (ap (λ r. r.0) ran)),
          ))
        λ w. tt

module _ {T : Type 0} (t : T) where
  pub Triple-take_fresh : Triple (At t) take_fresh (λ n w. At t w) Anywhere
  unfolding take_fresh
  Triple-take_fresh = record { at = λ w h. h }

  pub Triple-now : Triple (At t) time_now (λ n w. At t w) Anywhere
  unfolding time_now
  Triple-now = record { at = λ w h. h }

module _ {T A : Type 0} {Q : A → Db T → Type 0} {R : Db T → Type 0} where
  -- The tables that a condition is about may be named.
  pub Triple-fix :
      {F : T → Type 0} (m : Query T A)
      → ((t : T) → F t → Triple (At t) m Q R)
      → Triple (λ w. F w.tables) m Q R
  Triple-fix m k = record { at = λ w h. (k w.tables h).at w refl }

module _ {T A : Type 0} (P : Db T → Type 0) (F : A → Type 0) where
  keep :
      (r : Action.Result Failure A × Db T)
      → P r.1
      → ((a : A) → r.0 ≡ ok a → F a)
      → Post (λ a w. P w × F a) P r
  keep (ok a, w) h k = (h, k a refl)
  keep (err e, w) h k = h

module _ {T A : Type 0} {P : Db T → Type 0} {F : A → Type 0} where
  -- An invariant as a triple, with a fact of the value that is returned.
  pub Triple-Keeps :
      (m : Query T A)
      → Keeps P m
      → ((w : Db T) (a : A) → P w → (m w).0 ≡ ok a → F a)
      → Triple P m (λ a w. P w × F a) P
  Triple-Keeps m k f = record { at = λ w h. keep P F (m w) (k.at w h) λ a e. f w a h e }
