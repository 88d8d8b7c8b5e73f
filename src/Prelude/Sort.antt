-- ===== src/Prelude/Sort.antt =====
-- Python's `sorted`: a stable sort by a strict test `lt` on keys. It rearranges, and its head is least.
use mathlib.Core.Path.{◌≡◌, sym, subst}
use mathlib.Core.Logic.{inl, inr}
use mathlib.Core.Bool.{Bool, true, false}
use mathlib.Core.List.Memᴰ
use mathlib.Core.List.{List, [], ◌∷◌, Memᴰ}
use plataforma_saa_s_de_auto.Prelude.Tests.{if◌then◌else◌, Bool-cases}
use plataforma_saa_s_de_auto.Prelude.Lists.{All, All-mem}

module _ {ℓ} {A : Type ℓ} where
  unfoldable pub insert_by : (A → A → Bool) → A → List A → List A
  insert_by lt x [] = x ∷ []
  insert_by lt x (y ∷ ys) =
      let later = y ∷ insert_by lt x ys in if lt y x then later else x ∷ y ∷ ys

  unfoldable pub sort_by : (A → A → Bool) → List A → List A
  unfolding insert_by
  sort_by lt [] = []
  sort_by lt (x ∷ xs) = insert_by lt x (sort_by lt xs)

  -- A test that orders by a key, where several values may share one.
  pub record IsWeakOrder (lt : A → A → Bool) : Type ℓ where
    pub asymm : (a b : A) → lt a b ≡ true → lt b a ≡ false
    pub not_trans : (a b c : A) → lt a b ≡ false → lt b c ≡ false → lt a c ≡ false

  -- No later element is before an earlier one.
  abbrev pub IsSorted : (A → A → Bool) → List A → Type ℓ
  IsSorted lt [] = Unit
  IsSorted lt (x ∷ xs) = All (λ y. lt y x ≡ false) xs × IsSorted lt xs

module _ {ℓ} {A : Type ℓ} (lt : A → A → Bool) where
  mem_of_mem-insert_by : (a x : A) (ys : List A) → Memᴰ a (insert_by lt x ys) → Memᴰ a (x ∷ ys)
  unfolding insert_by
  mem_of_mem-insert_by a x [] m = m
  mem_of_mem-insert_by a x (y ∷ ys) m = elim (Bool-cases (lt y x)) [
    | inl t ↦ elim (Memᴰ.cases_cons (rw t at m)) [
      | inl e ↦ Memᴰ.tail (Memᴰ.head e)
      | inr r ↦ elim (Memᴰ.cases_cons (mem_of_mem-insert_by a x ys r)) [
        | inl e ↦ Memᴰ.head e
        | inr q ↦ Memᴰ.tail (Memᴰ.tail q)
      ]
    ]
    | inr f ↦ rw f at m
  ]

  mem-insert_by : (a x : A) (ys : List A) → Memᴰ a (x ∷ ys) → Memᴰ a (insert_by lt x ys)
  unfolding insert_by
  mem-insert_by a x [] m = m
  mem-insert_by a x (y ∷ ys) m = elim (Bool-cases (lt y x)) [
    | inl t ↦ elim (Memᴰ.cases_cons m) [
      | inl e ↦ rw t (Memᴰ.tail (mem-insert_by a x ys (Memᴰ.head e)))
      | inr r ↦ elim (Memᴰ.cases_cons r) [
        | inl e ↦ rw t (Memᴰ.head e)
        | inr q ↦ rw t (Memᴰ.tail (mem-insert_by a x ys (Memᴰ.tail q)))
      ]
    ]
    | inr f ↦ rw f m
  ]

  pub mem_of_mem-sort_by : (a : A) (xs : List A) → Memᴰ a (sort_by lt xs) → Memᴰ a xs
  unfolding sort_by
  mem_of_mem-sort_by a [] m = m
  mem_of_mem-sort_by a (x ∷ xs) m =
      elim (Memᴰ.cases_cons (mem_of_mem-insert_by a x (sort_by lt xs) m)) [
        | inl e ↦ Memᴰ.head e
        | inr r ↦ Memᴰ.tail (mem_of_mem-sort_by a xs r)
      ]

  pub mem-sort_by : (a : A) (xs : List A) → Memᴰ a xs → Memᴰ a (sort_by lt xs)
  unfolding sort_by
  mem-sort_by a [] m = m
  mem-sort_by a (x ∷ xs) m = elim (Memᴰ.cases_cons m) [
    | inl e ↦ mem-insert_by a x (sort_by lt xs) (Memᴰ.head e)
    | inr r ↦ mem-insert_by a x (sort_by lt xs) (Memᴰ.tail (mem-sort_by a xs r))
  ]

  pub All-insert_by {κ} :
      (P : A → Type κ) (x : A) (ys : List A) → P x → All P ys → All P (insert_by lt x ys)
  unfolding insert_by
  All-insert_by P x [] p h = (p, tt)
  All-insert_by P x (y ∷ ys) p h = elim (Bool-cases (lt y x)) [
    | inl t ↦ rw t (h.0, All-insert_by P x ys p h.1)
    | inr f ↦ rw f (p, h)
  ]

  pub All-sort_by {κ} : (P : A → Type κ) (xs : List A) → All P xs → All P (sort_by lt xs)
  unfolding sort_by
  All-sort_by P [] h = tt
  All-sort_by P (x ∷ xs) h = All-insert_by P x (sort_by lt xs) h.0 (All-sort_by P xs h.1)

module _ {ℓ} {A : Type ℓ} (lt : A → A → Bool) (w : IsWeakOrder lt) where
  All-below :
      (x y : A) (ys : List A)
      → lt y x ≡ false
      → All (λ z. lt z y ≡ false) ys
      → All (λ z. lt z x ≡ false) ys
  All-below x y [] f h = tt
  All-below x y (z ∷ zs) f h = (w.not_trans z y x h.0 f, All-below x y zs f h.1)

  insert_by-IsSorted : (x : A) (ys : List A) → IsSorted lt ys → IsSorted lt (insert_by lt x ys)
  unfolding insert_by
  insert_by-IsSorted x [] h = (tt, tt)
  insert_by-IsSorted x (y ∷ ys) h = elim (Bool-cases (lt y x)) [
    | inl t ↦ rw t (
      All-insert_by lt (λ z. lt z y ≡ false) x ys (w.asymm y x t) h.0,
      insert_by-IsSorted x ys h.1,
    )
    | inr f ↦ rw f ((f, All-below x y ys f h.0), h)
  ]

  pub sort_by-IsSorted : (xs : List A) → IsSorted lt (sort_by lt xs)
  unfolding sort_by
  sort_by-IsSorted [] = tt
  sort_by-IsSorted (x ∷ xs) = insert_by-IsSorted x (sort_by lt xs) (sort_by-IsSorted xs)

  irrefl : (a : A) → lt a a ≡ false
  irrefl a = elim (Bool-cases (lt a a)) [ inl t ↦ w.asymm a a t | inr f ↦ f ]

  -- No element comes before the head of the sorted list.
  pub sort_by_head_least :
      (xs : List A) (y : A) (ys : List A) (a : A)
      → sort_by lt xs ≡ y ∷ ys
      → Memᴰ a xs
      → lt a y ≡ false
  sort_by_head_least xs y ys a e m =
      let sorted : IsSorted lt (y ∷ ys) = subst (IsSorted lt) e (sort_by-IsSorted xs) in
      let there : Memᴰ a (y ∷ ys) = subst (λ l. Memᴰ a l) e (mem-sort_by lt a xs m) in
      elim (Memᴰ.cases_cons there) [
        | inl p ↦ subst (λ b. lt b y ≡ false) (sym p) (irrefl y)
        | inr r ↦ All-mem (λ z. lt z y ≡ false) a ys sorted.0 r
      ]
