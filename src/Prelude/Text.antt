-- ===== src/Prelude/Text.antt =====
-- Python's `str` where the program looks inside one: order, `strip`, `len` and the rule-code pattern.
use Prim.Native.Nat.{ℕ, zero, suc, ◌+◌, ◌-◌, ◌/◌, ◌%◌}
use Prim.Native.Char.{code}
use Prim.Native.String
use Prim.Native.String.{String}
use mathlib.Core.Path.{◌≡◌, refl}
use mathlib.Core.Bool.{Bool, true, false, ◌&&◌, ◌||◌}
use mathlib.Core.List.{List, [], ◌∷◌}
use native.Mathlib.Omega.{arith}
use plataforma_saa_s_de_auto.Prelude.Tests.{ltb, leb, eqb, if◌then◌else◌}
use plataforma_saa_s_de_auto.Prelude.Lists.{length, all}
use plataforma_saa_s_de_auto.Prelude.Sort.{IsWeakOrder}

-- The code points of a text. `String` has its own `[]` and `∷`.
unfoldable pub codes : String → List ℕ
codes String.[] = []
codes (String.◌∷◌ c s) = code c ∷ codes s

-- The order of Python's strings: by code points, the shorter first.
unfoldable pub lex_lt : List ℕ → List ℕ → Bool
lex_lt [] [] = false
lex_lt [] (y ∷ ys) = true
lex_lt (x ∷ xs) [] = false
lex_lt (x ∷ xs) (y ∷ ys) =
    let rest = lex_lt xs ys in if ltb x y then true else if ltb y x then false else rest

unfoldable pub text_lt : String → String → Bool
unfolding lex_lt codes
text_lt s t = lex_lt (codes s) (codes t)

lex_lt_asymm : (a b : List ℕ) → lex_lt a b ≡ true → lex_lt b a ≡ false
unfolding lex_lt
lex_lt_asymm [] [] h = refl
lex_lt_asymm [] (y ∷ ys) h = refl
lex_lt_asymm (x ∷ xs) [] h = cc
lex_lt_asymm (x ∷ xs) (y ∷ ys) h = ground (arith, lex_lt_asymm xs ys)

lex_lt_not_trans : (a b c : List ℕ) → lex_lt a b ≡ false → lex_lt b c ≡ false → lex_lt a c ≡ false
unfolding lex_lt
lex_lt_not_trans [] [] c h k = k
lex_lt_not_trans [] (y ∷ ys) c h k = cc
lex_lt_not_trans (x ∷ xs) b [] h k = refl
lex_lt_not_trans (x ∷ xs) [] (z ∷ zs) h k = cc
lex_lt_not_trans (x ∷ xs) (y ∷ ys) (z ∷ zs) h k = ground (arith, lex_lt_not_trans xs ys zs)

pub text_lt-IsWeakOrder : IsWeakOrder text_lt
unfolding text_lt
text_lt-IsWeakOrder = record {
  asymm = λ a b. lex_lt_asymm (codes a) (codes b);
  not_trans = λ a b c. lex_lt_not_trans (codes a) (codes b) (codes c);
}

-- The characters that `str.strip` removes.
is_space : ℕ → Bool
is_space c =
    (leb 9 c && leb c 13)
    || (leb 28 c && leb c 32)
    || eqb c 133
    || eqb c 160
    || eqb c 5760
    || (leb 8192 c && leb c 8202)
    || eqb c 8232
    || eqb c 8233
    || eqb c 8239
    || eqb c 8287
    || eqb c 12288

-- `not value.strip()`
unfoldable pub is_blank : String → Bool
unfolding is_space codes all
is_blank s = all is_space (codes s)

-- `not value`
unfoldable pub is_empty : String → Bool
is_empty String.[] = true
is_empty (String.◌∷◌ c s) = false

-- `len(value)`, in characters.
unfoldable pub text_length : String → ℕ
unfolding codes
text_length s = length (codes s)

is_lower : ℕ → Bool
is_lower c = leb b'a' c && leb c b'z'

is_digit : ℕ → Bool
is_digit c = leb b'0' c && leb c b'9'

is_rule_char : ℕ → Bool
unfolding is_lower is_digit
is_rule_char c = is_lower c || is_digit c || eqb c b'_' || eqb c b'.' || eqb c b'-'

matches_rule_code : List ℕ → Bool
unfolding is_rule_char all
matches_rule_code [] = false
matches_rule_code (c ∷ cs) = is_lower c && leb (length cs) 99 && all is_rule_char cs

-- `re.compile(r"^[a-z][a-z0-9_.-]{0,99}$").fullmatch(value)`
unfoldable pub is_rule_code : String → Bool
unfolding matches_rule_code codes
is_rule_code s = matches_rule_code (codes s)

-- An f-string: its pieces, one after the other.
unfoldable pub text_concat : List String → String
text_concat [] = ""
text_concat (s ∷ ss) = String.◌++◌ s (text_concat ss)

-- `separator.join(parts)`
unfoldable pub text_join : String → List String → String
unfolding text_concat
text_join separator [] = ""
text_join separator (s ∷ []) = s
text_join separator (s ∷ t ∷ ss) = text_concat (s ∷ separator ∷ text_join separator (t ∷ ss) ∷ [])

-- The text of a number in decimal, as in an f-string.
digit : ℕ → String
digit n =
    if eqb n 0
    then "0"
    else if eqb n 1
    then "1"
    else if eqb n 2
    then "2"
    else if eqb n 3
    then "3"
    else if eqb n 4
    then "4"
    else if eqb n 5
    then "5"
    else if eqb n 6
    then "6"
    else if eqb n 7
    then "7"
    else if eqb n 8
    then "8"
    else "9"

decimal : ℕ → ℕ → String → String
unfolding digit
decimal zero n rest = rest
decimal (suc fuel) n rest =
    let text = String.◌++◌ (digit (n % 10)) rest in
    let more = decimal fuel (n / 10) text in if ltb n 10 then text else more

-- `n + 1` rounds are enough: a number has at most so many digits.
unfoldable pub show_ℕ : ℕ → String
unfolding decimal
show_ℕ n = decimal (n + 1) n ""

-- `value.strip()`
strip_left : String → String
unfolding is_space
strip_left String.[] = String.[]
strip_left (String.◌∷◌ c s) = if is_space (code c) then strip_left s else String.◌∷◌ c s

strip_right : String → String
unfolding is_space is_empty
strip_right String.[] = String.[]
strip_right (String.◌∷◌ c s) =
    let rest = strip_right s in
    if is_empty rest && is_space (code c) then String.[] else String.◌∷◌ c rest

unfoldable pub strip : String → String
unfolding strip_left strip_right
strip s = strip_right (strip_left s)

-- `value[n:]`
unfoldable pub drop_text : ℕ → String → String
drop_text zero s = s
drop_text (suc n) String.[] = String.[]
drop_text (suc n) (String.◌∷◌ c s) = drop_text n s

pub text_length-drop_text : (n : ℕ) (s : String) → text_length (drop_text n s) ≡ text_length s - n
unfolding drop_text text_length codes
text_length-drop_text zero s = omega arith
text_length-drop_text (suc n) String.[] = omega arith
text_length-drop_text (suc n) (String.◌∷◌ c s) = omega (arith, text_length-drop_text n s)

-- `value.count(character)`
unfoldable pub count_code : ℕ → String → ℕ
count_code k String.[] = 0
count_code k (String.◌∷◌ c s) = (if eqb (code c) k then 1 else 0) + count_code k s

-- `value[:n]`
unfoldable pub take_text : ℕ → String → String
take_text zero s = String.[]
take_text (suc n) String.[] = String.[]
take_text (suc n) (String.◌∷◌ c s) = String.◌∷◌ c (take_text n s)
