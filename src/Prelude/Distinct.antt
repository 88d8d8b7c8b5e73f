-- ===== src/Prelude/Distinct.antt =====
-- `set` and `dict.fromkeys` over lists: what has no duplicates.
use mathlib.Core.List.Memᴰ
use mathlib.Core.Path.{◌≡◌, refl, sym, subst}
use mathlib.Core.Logic.{inl, inr}
use mathlib.Core.Bool.{Bool, true, false, ◌||◌}
use mathlib.Core.List.{List, [], ◌∷◌, Memᴰ}
use plataforma_saa_s_de_auto.Prelude.Tests.{Bool-cases}
use plataforma_saa_s_de_auto.Prelude.Equality.{Eq, ◌==◌, eq_self}
use plataforma_saa_s_de_auto.Prelude.Lists.{
  contains, mem_of_contains, contains_of_mem, filter, mem_of_mem-filter, distinct_from, distinct,
  has_duplicates,
}

pub false-or : (b c : Bool) → b ≡ false → c ≡ false → (b || c) ≡ false
false-or b c h k = rw (h, k)

pub or-false : (b c : Bool) → (b || c) ≡ false → (b ≡ false) × (c ≡ false)
or-false false c h = (refl, h)
or-false true c h = cc

module _ {ℓ} {A : Type ℓ} ⦃e : Eq A⦄ where
  pub not_contains : (a : A) (xs : List A) → ¬ Memᴰ a xs → contains xs a ≡ false
  not_contains a xs n = elim (Bool-cases (contains xs a)) [
    | inl t ↦ absurd (n (mem_of_contains a xs t))
    | inr f ↦ f
  ]

  pub not_mem : (a : A) (xs : List A) → contains xs a ≡ false → ¬ Memᴰ a xs
  not_mem a xs f m = cc (contains_of_mem a xs m)

  unseen : (a : A) (seen xs : List A) → Memᴰ a (distinct_from seen xs) → contains seen a ≡ false
  unfolding distinct_from contains
  unseen a seen [] m = elim m [ ]
  unseen a seen (x ∷ xs) m = elim (Bool-cases (contains seen x)) [
    | inl t ↦ unseen a seen xs (rw t at m)
    | inr f ↦ elim (Memᴰ.cases_cons (rw f at m)) [
      | inl p ↦ subst (λ y. contains seen y ≡ false) (sym p) f
      | inr r ↦ (or-false _ _ (unseen a (x ∷ seen) xs r)).1
    ]
  ]

  fresh : (x : A) (seen xs : List A) → contains (distinct_from (x ∷ seen) xs) x ≡ false
  unfolding contains
  fresh x seen xs = not_contains x (distinct_from (x ∷ seen) xs) (λ m.
      let none_seen = unseen x (x ∷ seen) xs m in
      let first = or-false (x == x) (contains seen x) none_seen in cc (eq_self x, first.0))

  has_duplicates-distinct_from : (seen xs : List A) → has_duplicates (distinct_from seen xs) ≡ false
  unfolding distinct_from has_duplicates
  has_duplicates-distinct_from seen [] = refl
  has_duplicates-distinct_from seen (x ∷ xs) = elim (Bool-cases (contains seen x)) [
    | inl t ↦ rw t (has_duplicates-distinct_from seen xs)
    | inr f ↦ rw f (false-or _ _ (fresh x seen xs) (has_duplicates-distinct_from (x ∷ seen) xs))
  ]

  pub has_duplicates-distinct : (xs : List A) → has_duplicates (distinct xs) ≡ false
  unfolding distinct
  has_duplicates-distinct xs = has_duplicates-distinct_from [] xs

  pub has_duplicates-filter :
      (p : A → Bool) (xs : List A)
      → has_duplicates xs ≡ false
      → has_duplicates (filter p xs) ≡ false
  unfolding has_duplicates filter
  has_duplicates-filter p [] h = refl
  has_duplicates-filter p (x ∷ xs) h =
      let (n, rest) = or-false (contains xs x) (has_duplicates xs) h in
      elim (Bool-cases (p x)) [
        | inl t ↦ rw t (
            false-or _ _
              (not_contains x (filter p xs) (λ m. not_mem x xs n (mem_of_mem-filter p x xs m)))
              (has_duplicates-filter p xs rest))
        | inr f ↦ rw f (has_duplicates-filter p xs rest)
      ]
