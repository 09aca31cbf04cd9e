-- ===== src/Audience/Store/Like.antt =====
-- The operator LIKE of SQL: `%` stands for any text, `_` for one character, and `\` takes the next
-- character of the pattern as it is.
use Prim.Native.Char.{code}
use nvelope.Common.{
  if◌then◌else◌, String, ℕ, ◌≡◌, Bool, true, false, ◌||◌, ◌&&◌, is_empty, refl, ◌==◌,
}

-- The matcher tries every rest of the text.
abbrev some_rest : (String → Bool) → String → Bool
some_rest m String.[] = m ""
some_rest m (String.◌∷◌ c s) = m (String.◌∷◌ c s) || some_rest m s

abbrev one_char : (ℕ → Bool) → (String → Bool) → String → Bool
one_char test m String.[] = false
one_char test m (String.◌∷◌ c s) = test (code c) && m s

-- The first argument says whether the character before was the escape.
unfoldable pub like_from : String → Bool → String → Bool
like_from String.[] escaped s = is_empty s
like_from (String.◌∷◌ p ps) true s = one_char (λ c. c == code p) (like_from ps false) s
like_from (String.◌∷◌ p ps) false s =
    if code p == b'%'
    then some_rest (like_from ps false) s
    else if code p == b'_'
    then one_char (λ c. true) (like_from ps false) s
    else if code p == 92
    then like_from ps true s
    else one_char (λ c. c == code p) (like_from ps false) s

-- s LIKE pattern
unfoldable pub like : String → String → Bool
unfolding like_from
like pattern s = like_from pattern false s

like_inside : like "%b@x%" "ab@xy" ≡ true
unfolding like
like_inside = refl

like_joker : like "%a_b%" "axb" ≡ true
unfolding like
like_joker = refl

like_apart : like "%ab%" "axb" ≡ false
unfolding like
like_apart = refl
