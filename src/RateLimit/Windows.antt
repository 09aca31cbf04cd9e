-- ===== src/RateLimit/Windows.antt =====
-- No window of time holds more grants than its limit.
use nvelope.Common.{
  refl, if◌then◌else◌, ℕ, Bool, List, leb, ◌∷◌, ◌≤◌, length, ◌&&◌, ◌+◌, ◌≡◌, arith, ◌<◌, ltb, [],
  Bool-cases, inl, inr,
}
use nvelope.RateLimit.{trim}

-- The time `s` is in the window that ends with `t`.
abbrev pub in_window : ℕ → ℕ → ℕ → Bool
in_window window t s = leb s t && ltb t (s + window)

-- How many of the times are in the window that ends with `t`.
abbrev pub held : ℕ → ℕ → List ℕ → ℕ
held window t [] = 0
held window t (s ∷ times) = (if in_window window t s then 1 else 0) + held window t times

held-trim :
    (window now t : ℕ) (scores : List ℕ)
    → now ≤ t
    → held window t (trim window now scores) ≡ held window t scores
unfolding trim
held-trim w n t [] h = refl
held-trim w n t (s ∷ scores) h = ground (arith, h, held-trim w n t scores h)

held-length : (window t : ℕ) (scores : List ℕ) → held window t scores ≤ length scores
held-length w t [] = omega arith
held-length w t (s ∷ scores) = ground (arith, held-length w t scores)

-- What the sorted set of a key knows of the grants at a time.
pub record Tracks (window limit now : ℕ) (scores grants : List ℕ) : Type 0 where
  pub bounded : (t : ℕ) → held window t grants ≤ limit
  pub known : (t : ℕ) → now ≤ t → held window t grants ≤ held window t scores

module _ {window limit now : ℕ} {scores grants : List ℕ} where
  -- A later trim loses nothing.
  pub trim-Tracks :
      (later : ℕ)
      → now ≤ later
      → Tracks window limit now scores grants
      → Tracks window limit later (trim window later scores) grants
  trim-Tracks later h k = record {
    bounded = k.bounded;
    known =
        λ t e. omega (arith, held-trim window later t scores e, k.known t (omega (arith, h, e)));
  }

  pub later-Tracks :
      (later : ℕ)
      → now ≤ later
      → Tracks window limit now scores grants
      → Tracks window limit later scores grants
  later-Tracks later h k = record {
    bounded = k.bounded;
    known = λ t e. k.known t (omega (arith, h, e));
  }

  -- A grant while the set is not full keeps every window within the limit.
  pub grant-Tracks :
      length scores < limit
      → Tracks window limit now scores grants
      → Tracks window limit now (now ∷ scores) (now ∷ grants)
  grant-Tracks h k = record {
    bounded = λ t. elim (Bool-cases (leb now t)) [
      | inl e ↦ ground (arith, k.known t, held-length window t scores, h, e)
      | inr e ↦ rw e (omega (arith, k.bounded t))
    ];
    known = λ t e. omega (arith, k.known t e);
  }

pub empty-Tracks : {window limit now : ℕ} → Tracks window limit now [] []
empty-Tracks = record { bounded = λ t. omega arith; known = λ t e. omega arith }
