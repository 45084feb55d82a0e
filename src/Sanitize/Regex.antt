-- ===== src/Sanitize/Regex.antt =====
-- The regular expression of `sanitize_message` in src/SanitizationService/SanitizationService.cpp,
-- with `std::regex_match` for the operators that it uses, in the ECMAScript grammar.
use async_rpc_fbthrift.Common.{
  ℕ, Bool, true, false, not, ◌&&◌, ◌||◌, ◌==◌, ◌≡◌, refl, List, [], ◌∷◌, arith, Text,
}

-- `^`, `$`, `.*` and `[…]`.
pub data Item : Type 0 where
  bol eol any_star : Item
  one_of : Text → Item

unfoldable pub contains : Text → ℕ → Bool
contains [] c = false
contains (d ∷ ds) c = d == c || contains ds c

-- `.` is every character but the line terminators.
unfoldable pub is_any : ℕ → Bool
is_any c = not (c == b'\n') && not (c == b'\r')

unfoldable pub is_end : Text → Bool
is_end [] = true
is_end (c ∷ s) = false

-- Whether the items match the whole of the text; `first` tells whether it stands at the beginning.
unfoldable pub regex_match : List Item → Bool → Text → Bool
unfolding contains is_any is_end
regex_match [] first s = is_end s
regex_match (bol ∷ r) first s = first && regex_match r first s
regex_match (eol ∷ r) first s = is_end s && regex_match r first s
regex_match (one_of cs ∷ r) first [] = false
regex_match (one_of cs ∷ r) first (c ∷ s) = contains cs c && regex_match r false s
regex_match (any_star ∷ r) first [] = regex_match r first []
regex_match (any_star ∷ r) first (c ∷ s) =
    regex_match r first (c ∷ s) || (is_any c && regex_match (any_star ∷ r) false s)

-- In `[\/*$^]` the escape stands for the slash, and `$` and `^` for themselves.
abbrev pub special_characters : Text
special_characters = b'/' ∷ b'*' ∷ b'$' ∷ b'^' ∷ []

-- "^.*[\\/*$^].*$" in the source.
abbrev pub match_expr : List Item
match_expr = bol ∷ any_star ∷ one_of special_characters ∷ any_star ∷ eol ∷ []

-- The text is one line.
unfoldable pub one_line : Text → Bool
unfolding is_any
one_line [] = true
one_line (c ∷ s) = is_any c && one_line s

-- Some character of the text is special.
unfoldable pub has_special : Text → Bool
unfolding contains
has_special [] = false
has_special (c ∷ s) = contains special_characters c || has_special s

rest_of_line : (first : Bool) (s : Text) → regex_match (any_star ∷ eol ∷ []) first s ≡ one_line s
unfolding regex_match one_line
rest_of_line first [] = refl
rest_of_line first (c ∷ s) = ground (arith, rest_of_line false s)

after_star :
    (first : Bool) (s : Text)
    → regex_match (any_star ∷ one_of special_characters ∷ any_star ∷ eol ∷ []) first s
      ≡ (one_line s && has_special s)
unfolding regex_match one_line has_special
after_star first [] = refl
after_star first (c ∷ s) = ground (arith, rest_of_line false s, after_star false s)

-- The expression matches a text exactly when the text is one line and has a special character.
pub regex_match-match_expr :
    (s : Text) → regex_match match_expr true s ≡ (one_line s && has_special s)
unfolding regex_match
regex_match-match_expr s = after_star true s
