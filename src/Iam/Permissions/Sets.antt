-- ===== src/Iam/Permissions/Sets.antt =====
-- The lists of internal/iam/domain/permission.go read as sets.
use nvelope.Iam.Permissions.{Permission, contains, collect}
use text.Mathlib.TextEquality.{eq_iff}
use nvelope.Common.{
  refl, List, Bool, text_eq, ◌∷◌, ◌≡◌, ◌||◌, ◌++◌, false, true, sym, [], arith, Bool-cases, inl,
  inr, text_eq_comm,
}

-- Every permission stands in the list once.
abbrev pub Distinct : List Permission → Type 0
Distinct [] = Unit
Distinct (p ∷ ps) = (contains ps p ≡ false) × Distinct ps

-- The two lists have the same members.
pub record Agree (ps qs : List Permission) : Type 0 where
  pub at : (p : Permission) → contains ps p ≡ contains qs p

or_assoc : (a b c : Bool) → ((a || b) || c) ≡ (a || (b || c))
or_assoc true b c = refl
or_assoc false b c = refl

or_comm : (a b : Bool) → (a || b) ≡ (b || a)
or_comm true true = refl
or_comm true false = refl
or_comm false true = refl
or_comm false false = refl

or-false : (a : Bool) → (a || false) ≡ a
or-false true = refl
or-false false = refl

pub contains-append :
    (ps qs : List Permission) (x : Permission)
    → contains (ps ++ qs) x ≡ (contains ps x || contains qs x)
unfolding contains
contains-append [] qs x = refl
contains-append (p ∷ ps) qs x =
    rw (contains-append ps qs x) (sym (or_assoc (text_eq p x) (contains ps x) (contains qs x)))

contains-snoc :
    (out : List Permission) (p x : Permission)
    → contains (out ++ p ∷ []) x ≡ (text_eq p x || contains out x)
unfolding contains
contains-snoc out p x =
    rw (contains-append out (p ∷ []) x) (rw (or-false (text_eq p x)) (or_comm (contains out x) _))

Agree-snoc :
    (seen out : List Permission) (p : Permission)
    → Agree seen out
    → Agree (p ∷ seen) (out ++ p ∷ [])
unfolding contains
Agree-snoc seen out p agree = record { at = λ x. rw (contains-snoc out p x) (rw (agree.at x) refl) }

Distinct-snoc :
    (out : List Permission) (p : Permission)
    → Distinct out
    → contains out p ≡ false
    → Distinct (out ++ p ∷ [])
unfolding contains
Distinct-snoc [] p d h = (refl, tt)
Distinct-snoc (q ∷ out) p d h = (
  rw (contains-snoc out p q) (rw (d.0) (rw (text_eq_comm p q) (ground (arith)))),
  Distinct-snoc out p d.1 (ground arith),
)

-- What the loop keeps of `seen` and `out`.
pub collect-Agree :
    (seen out ps : List Permission)
    → Agree seen out
    → Agree (collect seen out ps).0 (collect seen out ps).1
unfolding collect
collect-Agree seen out [] a = a
collect-Agree seen out (p ∷ ps) a = elim (Bool-cases (contains seen p)) [
  | inl h ↦ rw h (collect-Agree seen out ps a)
  | inr h ↦ rw h (collect-Agree (p ∷ seen) (out ++ p ∷ []) ps (Agree-snoc seen out p a))
]

pub collect-Distinct :
    (seen out ps : List Permission)
    → Agree seen out
    → Distinct out
    → Distinct (collect seen out ps).1
unfolding collect
collect-Distinct seen out [] a d = d
collect-Distinct seen out (p ∷ ps) a d = elim (Bool-cases (contains seen p)) [
  | inl h ↦ rw h (collect-Distinct seen out ps a d)
  | inr h ↦ rw h (
      collect-Distinct (p ∷ seen) (out ++ p ∷ []) ps (Agree-snoc seen out p a)
        (Distinct-snoc out p d (cc (a.at p))))
]

pub contains-collect :
    (seen out ps : List Permission) (x : Permission)
    → Agree seen out
    → contains (collect seen out ps).1 x ≡ (contains out x || contains ps x)
unfolding collect contains
contains-collect seen out [] x a = sym (or-false (contains out x))
contains-collect seen out (p ∷ ps) x a = elim (Bool-cases (contains seen p)) [
  | inl h ↦
      rw h (rw (contains-collect seen out ps x a) (ground (arith, eq_iff p x, a.at p, a.at x)))
  | inr h ↦ rw h (
      rw (contains-collect (p ∷ seen) (out ++ p ∷ []) ps x (Agree-snoc seen out p a))
        (rw (contains-snoc out p x) (ground arith)))
]
