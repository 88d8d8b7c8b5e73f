-- ===== src/Prelude/Int.antt =====
-- Python's integers over the native numbers. Sums and orders go through the two parts of an
-- integer, which `omega` reads.
use Prim.Native.Nat.{ℕ, suc, ◌+◌, ◌-◌, ◌≤◌, ◌<◌}
use mathlib.Core.Path.{◌≡◌}
use mathlib.Core.Bool.{Bool, true, false, ◌&&◌}
use mathlib.Core.List.{List, [], ◌∷◌}
use native.Mathlib.Omega.{arith}
use native.Mathlib.Decide.{ℕ_discrete}
use plataforma_saa_s_de_auto.Prelude.Tests.{leb, ltb, if◌then◌else◌}
use plataforma_saa_s_de_auto.Prelude.Equality.{Eq, eq_of_discrete}

-- `negsuc n` is -(n + 1).
pub data ℤ : Type 0 where
  pos : ℕ → ℤ
  negsuc : ℕ → ℤ

abbrev pub pos_part : ℤ → ℕ
pos_part (pos n) = n
pos_part (negsuc n) = 0

abbrev pub neg_part : ℤ → ℕ
neg_part (pos n) = 0
neg_part (negsuc n) = suc n

abbrev pub sub_ℕ : ℕ → ℕ → ℤ
sub_ℕ a b = if leb b a then pos (a - b) else negsuc (b - a - 1)

infixl 65 ◌+ℤ◌
infix 50 ◌≤ℤ◌ ◌<ℤ◌
unfoldable pub ◌+ℤ◌ : ℤ → ℤ → ℤ
a +ℤ b = sub_ℕ (pos_part a + pos_part b) (neg_part a + neg_part b)

abbrev pub ◌≤ℤ◌ : ℤ → ℤ → Type 0
a ≤ℤ b = pos_part a + neg_part b ≤ pos_part b + neg_part a

abbrev pub ◌<ℤ◌ : ℤ → ℤ → Type 0
a <ℤ b = pos_part a + neg_part b < pos_part b + neg_part a

abbrev pub ltb_ℤ : ℤ → ℤ → Bool
ltb_ℤ a b = ltb (pos_part a + neg_part b) (pos_part b + neg_part a)

abbrev pub leb_ℤ : ℤ → ℤ → Bool
leb_ℤ a b = leb (pos_part a + neg_part b) (pos_part b + neg_part a)

abbrev pub beq_ℤ : ℤ → ℤ → Bool
beq_ℤ a b = leb_ℤ a b && leb_ℤ b a

unfoldable pub min_ℤ : ℤ → ℤ → ℤ
min_ℤ a b = if ltb_ℤ b a then b else a

unfoldable pub max_ℤ : ℤ → ℤ → ℤ
max_ℤ a b = if ltb_ℤ a b then b else a

unfoldable pub sum_ℤ : List ℤ → ℤ
sum_ℤ [] = pos 0
sum_ℤ (x ∷ xs) = x +ℤ sum_ℤ xs

-- `(a, …) < (b, …)` of two tuples, where `rest` compares what follows.
unfoldable pub lex_ℤ : ℤ → ℤ → Bool → Bool
lex_ℤ a b rest = if beq_ℤ a b then rest else ltb_ℤ a b

pub lex_ℤ_asymm :
    (a b : ℤ) (r r' : Bool) → (r ≡ true → r' ≡ false) → lex_ℤ a b r ≡ true → lex_ℤ b a r' ≡ false
unfolding lex_ℤ
lex_ℤ_asymm a b r r' f h = ground arith

pub lex_ℤ_not_trans :
    (a b c : ℤ) (r s t : Bool)
    → (r ≡ false → s ≡ false → t ≡ false)
    → lex_ℤ a b r ≡ false
    → lex_ℤ b c s ≡ false
    → lex_ℤ a c t ≡ false
unfolding lex_ℤ
lex_ℤ_not_trans a b c r s t f h k = ground arith

pub lex_ℤ_self : (a : ℤ) (r : Bool) → lex_ℤ a a r ≡ r
unfolding lex_ℤ
lex_ℤ_self a r = ground arith

-- The first keys of what is not after.
pub lex_ℤ→≤ : (a b : ℤ) (r : Bool) → lex_ℤ a b r ≡ false → b ≤ℤ a
unfolding lex_ℤ
lex_ℤ→≤ a b r h = ground arith

-- With these lemmas the operations stay shut.
pub +ℤ_parts :
    (a b : ℤ)
    → pos_part (a +ℤ b) + neg_part a + neg_part b ≡ neg_part (a +ℤ b) + pos_part a + pos_part b
unfolding ◌+ℤ◌
+ℤ_parts a b = ground arith

pub eq_of_parts : (a b : ℤ) → pos_part a + neg_part b ≡ pos_part b + neg_part a → a ≡ b
eq_of_parts a b h = ground arith

pub min_ℤ_bounds : (a b : ℤ) → (min_ℤ a b ≤ℤ a) × (min_ℤ a b ≤ℤ b)
unfolding min_ℤ
min_ℤ_bounds a b = ground arith

pub leb_ℤ→≤ : (a b : ℤ) → leb_ℤ a b ≡ true → a ≤ℤ b
leb_ℤ→≤ a b h = ground arith

pub leb_ℤ→< : (a b : ℤ) → leb_ℤ a b ≡ false → b <ℤ a
leb_ℤ→< a b h = ground arith

pub ltb_ℤ→< : (a b : ℤ) → ltb_ℤ a b ≡ true → a <ℤ b
ltb_ℤ→< a b h = ground arith

pub ltb_ℤ→≤ : (a b : ℤ) → ltb_ℤ a b ≡ false → b ≤ℤ a
ltb_ℤ→≤ a b h = ground arith

pub beq_ℤ→eq : (a b : ℤ) → beq_ℤ a b ≡ true → a ≡ b
beq_ℤ→eq a b h = ground arith

pub beq_ℤ_self : (a : ℤ) → beq_ℤ a a ≡ true
beq_ℤ_self a = ground arith

pub ruleset int_laws = (arith, +ℤ_parts, eq_of_parts)

pub ℤ-discrete : Discrete ℤ
ℤ-discrete = hlevel ℕ_discrete

instance abbrev pub int_eq : Eq ℤ
int_eq = eq_of_discrete ℤ-discrete
