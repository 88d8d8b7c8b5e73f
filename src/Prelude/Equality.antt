-- ===== src/Prelude/Equality.antt =====
-- Equality tests as an interface: `==` of Python at the types that the program compares.
use Prim.Native.Nat.{ℕ}
use Prim.Native.String.{String}
use mathlib.Core.Path.{◌≡◌, refl, sym}
use mathlib.Core.Logic.{◌↔◌, inl, inr}
use mathlib.Core.Bool.{Bool, true, false, decide, decide_iff}
use mathlib.Core.Option.{Option, none, some}
use text.Mathlib.Text.{◌==◌ as str_eq}
use text.Mathlib.TextEquality.{eq_iff}
use plataforma_saa_s_de_auto.Prelude.Tests.{eqb, eqb_iff, Bool-cases}

-- A test, and that it is true exactly of equal values.
pub record Eq {ℓ} (T : Type ℓ) : Type ℓ where
  pub same : T → T → Bool
  pub same_iff : (x y : T) → (same x y ≡ true) ↔ (x ≡ y)

-- The test of a type whose equality is decided, such as an enumeration.
abbrev pub eq_of_discrete : {A : Type 0} → Discrete A → Eq A
eq_of_discrete d = record { same = λ a b. decide (d a b); same_iff = λ a b. decide_iff (d a b) }

abbrev pub ◌==◌ {ℓ} : {T : Type ℓ} ⦃test : Eq T⦄ → T → T → Bool
◌==◌ ⦃test⦄ = test.same

infix 50 ◌==◌
unfoldable pub option_beq : {A : Type 0} ⦃e : Eq A⦄ → Option A → Option A → Bool
option_beq none none = true
option_beq none (some b) = false
option_beq (some a) none = false
option_beq (some a) (some b) = a == b

pub option_beq_iff : {A : Type 0} ⦃e : Eq A⦄ (a b : Option A) → (option_beq a b ≡ true) ↔ (a ≡ b)
unfolding option_beq
option_beq_iff none none = ((λ _. refl), (λ _. refl))
option_beq_iff none (some b) = ((λ h. cc), (λ h. cc))
option_beq_iff (some a) none = ((λ h. cc), (λ h. cc))
option_beq_iff ⦃e⦄ (some a) (some b) =
    ((λ h. cc ((e.same_iff a b).0 h)), (λ h. (e.same_iff a b).1 (cc)))

instance abbrev pub option_eq : {A : Type 0} ⦃e : Eq A⦄ → Eq (Option A)
option_eq = record { same = option_beq; same_iff = option_beq_iff }

instance abbrev pub string_eq : Eq String
string_eq = record { same = str_eq; same_iff = eq_iff }

instance abbrev pub nat_eq : Eq ℕ
nat_eq = record { same = eqb; same_iff = eqb_iff }

module _ {ℓ} {A : Type ℓ} ⦃e : Eq A⦄ where
  pub eq_self : (a : A) → (a == a) ≡ true
  eq_self a = (e.same_iff a a).1 refl

  pub eq_of_true : (a b : A) → (a == b) ≡ true → a ≡ b
  eq_of_true a b h = (e.same_iff a b).0 h

  pub eq_symm : (a b : A) → (a == b) ≡ true → (b == a) ≡ true
  eq_symm a b h = (e.same_iff b a).1 (sym ((e.same_iff a b).0 h))

  pub ne_of_false : (a b : A) → (a == b) ≡ false → ¬ (a ≡ b)
  ne_of_false a b h p = cc ((e.same_iff a b).1 p)

  pub false_of_ne : (a b : A) → ¬ (a ≡ b) → (a == b) ≡ false
  false_of_ne a b n = elim (Bool-cases (a == b)) [
    | inl t ↦ absurd (n ((e.same_iff a b).0 t))
    | inr f ↦ f
  ]
