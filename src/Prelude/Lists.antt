-- ===== src/Prelude/Lists.antt =====
-- Lists: Python's comprehensions, `any`, `all`, `in` and `len`, with what the proofs need of them.
use Prim.Native.Nat.{ℕ, suc}
use mathlib.Core.Path.{◌≡◌, refl, sym, ap, ◌∙◌, subst}
use mathlib.Core.Logic.{inl, inr}
use mathlib.Core.Bool.{Bool, true, false, ◌&&◌, ◌||◌}
use mathlib.Core.Option.{Option, none, some}
use mathlib.Core.List.Memᴰ
use mathlib.Core.List.{List, [], ◌∷◌, ◌++◌, map, Memᴰ}
use native.Mathlib.Omega.{arith}
use plataforma_saa_s_de_auto.Prelude.Tests.{if◌then◌else◌, Bool-cases, and-true}
use plataforma_saa_s_de_auto.Prelude.Equality.{Eq, ◌==◌, eq_of_true}

module _ {ℓ} {A : Type ℓ} where
  abbrev pub length : List A → ℕ
  length [] = 0
  length (x ∷ xs) = suc (length xs)

  -- `[x for x in xs if p(x)]`
  unfoldable pub filter : (A → Bool) → List A → List A
  filter p [] = []
  filter p (x ∷ xs) = let rest = filter p xs in if p x then x ∷ rest else rest

  unfoldable pub any : (A → Bool) → List A → Bool
  any p [] = false
  any p (x ∷ xs) = p x || any p xs

  unfoldable pub all : (A → Bool) → List A → Bool
  all p [] = true
  all p (x ∷ xs) = p x && all p xs

  -- `next((x for x in xs if p(x)), None)`
  unfoldable pub find : (A → Bool) → List A → Option A
  find p [] = none
  find p (x ∷ xs) = let rest = find p xs in if p x then some x else rest

  -- Every element satisfies `P`.
  abbrev pub All {κ} : (A → Type κ) → List A → Type κ
  All P [] = Unit
  All P (x ∷ xs) = P x × All P xs

module _ {ℓ} {A : Type ℓ} where
  pub filter_sound : (p : A → Bool) (x : A) (xs : List A) → Memᴰ x (filter p xs) → p x ≡ true
  unfolding filter
  filter_sound p x [] m = elim m [ ]
  filter_sound p x (y ∷ ys) m = elim (Bool-cases (p y)) [
    | inl yes_y ↦ elim (Memᴰ.cases_cons (rw yes_y at m)) [
      | inl e ↦ rw e yes_y
      | inr r ↦ filter_sound p x ys r
    ]
    | inr no_y ↦ filter_sound p x ys (rw no_y at m)
  ]

  pub mem_of_mem-filter : (p : A → Bool) (x : A) (xs : List A) → Memᴰ x (filter p xs) → Memᴰ x xs
  unfolding filter
  mem_of_mem-filter p x [] m = elim m [ ]
  mem_of_mem-filter p x (y ∷ ys) m = elim (Bool-cases (p y)) [
    | inl yes_y ↦ elim (Memᴰ.cases_cons (rw yes_y at m)) [
      | inl e ↦ Memᴰ.head e
      | inr r ↦ Memᴰ.tail (mem_of_mem-filter p x ys r)
    ]
    | inr no_y ↦ Memᴰ.tail (mem_of_mem-filter p x ys (rw no_y at m))
  ]

  pub mem-filter_of_mem :
      (p : A → Bool) (x : A) (xs : List A) → Memᴰ x xs → p x ≡ true → Memᴰ x (filter p xs)
  unfolding filter
  mem-filter_of_mem p x [] m h = elim m [ ]
  mem-filter_of_mem p x (y ∷ ys) (Memᴰ.head e) h = rw (ap p (sym e) ∙ h) (Memᴰ.head e)
  mem-filter_of_mem p x (y ∷ ys) (Memᴰ.tail m) h = elim (Bool-cases (p y)) [
    | inl yes_y ↦ rw yes_y (Memᴰ.tail (mem-filter_of_mem p x ys m h))
    | inr no_y ↦ rw no_y (mem-filter_of_mem p x ys m h)
  ]

  pub any_of_mem : (p : A → Bool) (x : A) (xs : List A) → Memᴰ x xs → p x ≡ true → any p xs ≡ true
  unfolding any
  any_of_mem p x [] m h = elim m [ ]
  any_of_mem p x (y ∷ ys) (Memᴰ.head e) h = let k : p y ≡ true = ap p (sym e) ∙ h in ground arith
  any_of_mem p x (y ∷ ys) (Memᴰ.tail m) h = ground (arith, any_of_mem p x ys m h)

  pub mem_of_any :
      (p : A → Bool) (xs : List A) → any p xs ≡ true → (x : A) × Memᴰ x xs × (p x ≡ true)
  unfolding any
  mem_of_any p [] h = cc
  mem_of_any p (y ∷ ys) h = elim (Bool-cases (p y)) [
    | inl t ↦ (y, Memᴰ.head refl, t)
    | inr f ↦ let (x, m, k) = mem_of_any p ys (ground arith) in (x, Memᴰ.tail m, k)
  ]

  pub all_of_mem : (p : A → Bool) (x : A) (xs : List A) → all p xs ≡ true → Memᴰ x xs → p x ≡ true
  unfolding all
  all_of_mem p x [] h m = elim m [ ]
  all_of_mem p x (y ∷ ys) h (Memᴰ.head e) = ap p e ∙ (and-true _ _ h).0
  all_of_mem p x (y ∷ ys) h (Memᴰ.tail m) = all_of_mem p x ys (and-true _ _ h).1 m

  pub find_sound :
      (p : A → Bool) (xs : List A) (x : A) → find p xs ≡ some x → Memᴰ x xs × (p x ≡ true)
  unfolding find
  find_sound p [] x h = cc
  find_sound p (y ∷ ys) x h = elim (Bool-cases (p y)) [
    | inl t ↦ let e : y ≡ x = cc (rw t at h) in (Memᴰ.head (sym e), ap p (sym e) ∙ t)
    | inr f ↦ let (m, k) = find_sound p ys x (rw f at h) in (Memᴰ.tail m, k)
  ]

  pub find-some :
      (p : A → Bool) (x : A) (xs : List A) → Memᴰ x xs → p x ≡ true → (y : A) × (find p xs ≡ some y)
  unfolding find
  find-some p x [] m h = elim m [ ]
  find-some p x (y ∷ ys) (Memᴰ.head e) h = (y, rw (ap p (sym e) ∙ h))
  find-some p x (y ∷ ys) (Memᴰ.tail m) h = elim (Bool-cases (p y)) [
    | inl t ↦ (y, rw t)
    | inr f ↦ let (z, g) = find-some p x ys m h in (z, rw f g)
  ]

  pub All-mem {κ} : (P : A → Type κ) (x : A) (xs : List A) → All P xs → Memᴰ x xs → P x
  All-mem P x [] h m = elim m [ ]
  All-mem P x (y ∷ ys) h (Memᴰ.head e) = subst P (sym e) h.0
  All-mem P x (y ∷ ys) h (Memᴰ.tail m) = All-mem P x ys h.1 m

  pub All-intro {κ} : (P : A → Type κ) (xs : List A) → ((x : A) → Memᴰ x xs → P x) → All P xs
  All-intro P [] f = tt
  All-intro P (x ∷ xs) f = (f x (Memᴰ.head refl), All-intro P xs (λ y m. f y (Memᴰ.tail m)))

module _ {ℓ} {A : Type ℓ} where
  pub All-append {κ} : (P : A → Type κ) (xs ys : List A) → All P xs → All P ys → All P (xs ++ ys)
  All-append P [] ys h k = k
  All-append P (x ∷ xs) ys h k = (h.0, All-append P xs ys h.1 k)

  pub All-map {κ μ} :
      {B : Type μ} (P : B → Type κ) (f : A → B) (xs : List A)
      → All (λ x. P (f x)) xs
      → All P (map f xs)
  All-map P f [] h = tt
  All-map P f (x ∷ xs) h = (h.0, All-map P f xs h.1)

  pub All-filter {κ} :
      (P : A → Type κ) (p : A → Bool) (xs : List A) → All P xs → All P (filter p xs)
  All-filter P p xs h =
      All-intro P (filter p xs) (λ x m. All-mem P x xs h (mem_of_mem-filter p x xs m))

module _ {ℓ} {A : Type ℓ} ⦃e : Eq A⦄ where
  -- `a in xs`
  unfoldable pub contains : List A → A → Bool
  contains [] a = false
  contains (x ∷ xs) a = a == x || contains xs a

  -- `xs <= ys` of two sets
  unfoldable pub subset : List A → List A → Bool
  subset [] ys = true
  subset (x ∷ xs) ys = contains ys x && subset xs ys

  -- `xs & ys` is not empty
  unfoldable pub intersects : List A → List A → Bool
  intersects [] ys = false
  intersects (x ∷ xs) ys = contains ys x || intersects xs ys

  -- The distinct elements, each where it stands first: `set` and `dict.fromkeys`.
  unfoldable pub distinct_from : List A → List A → List A
  distinct_from seen [] = []
  distinct_from seen (x ∷ xs) =
      let old = distinct_from seen xs in
      let new = x ∷ distinct_from (x ∷ seen) xs in if contains seen x then old else new

  unfoldable pub distinct : List A → List A
  unfolding distinct_from contains
  distinct xs = distinct_from [] xs

  -- `len(set(xs)) == len(xs)`
  unfoldable pub has_duplicates : List A → Bool
  has_duplicates [] = false
  has_duplicates (x ∷ xs) = contains xs x || has_duplicates xs

module _ {ℓ} {A : Type ℓ} ⦃e : Eq A⦄ where
  pub contains_of_mem : (a : A) (xs : List A) → Memᴰ a xs → contains xs a ≡ true
  unfolding contains
  contains_of_mem a [] m = elim m [ ]
  contains_of_mem a (x ∷ xs) (Memᴰ.head p) = rw ((e.same_iff a x).1 p)
  contains_of_mem a (x ∷ xs) (Memᴰ.tail m) = ground (arith, contains_of_mem a xs m)

  pub mem_of_contains : (a : A) (xs : List A) → contains xs a ≡ true → Memᴰ a xs
  unfolding contains
  mem_of_contains a [] h = cc
  mem_of_contains a (x ∷ xs) h = elim (Bool-cases (a == x)) [
    | inl t ↦ Memᴰ.head (eq_of_true a x t)
    | inr f ↦ Memᴰ.tail (mem_of_contains a xs (ground arith))
  ]

  pub subset-contains :
      (a : A) (xs ys : List A) → subset xs ys ≡ true → Memᴰ a xs → contains ys a ≡ true
  unfolding subset
  subset-contains a [] ys h m = elim m [ ]
  subset-contains a (x ∷ xs) ys h (Memᴰ.head p) = rw p (and-true _ _ h).0
  subset-contains a (x ∷ xs) ys h (Memᴰ.tail m) = subset-contains a xs ys (and-true _ _ h).1 m

  pub mem_of_distinct_from : (a : A) (seen xs : List A) → Memᴰ a (distinct_from seen xs) → Memᴰ a xs
  unfolding distinct_from
  mem_of_distinct_from a seen [] m = elim m [ ]
  mem_of_distinct_from a seen (x ∷ xs) m = elim (Bool-cases (contains seen x)) [
    | inl t ↦ Memᴰ.tail (mem_of_distinct_from a seen xs (rw t at m))
    | inr f ↦ elim (Memᴰ.cases_cons (rw f at m)) [
      | inl p ↦ Memᴰ.head p
      | inr r ↦ Memᴰ.tail (mem_of_distinct_from a (x ∷ seen) xs r)
    ]
  ]

  pub mem-distinct_from :
      (a : A) (seen xs : List A)
      → Memᴰ a xs
      → contains seen a ≡ false
      → Memᴰ a (distinct_from seen xs)
  unfolding distinct_from contains
  mem-distinct_from a seen [] m h = elim m [ ]
  mem-distinct_from a seen (x ∷ xs) (Memᴰ.head p) h =
      rw (subst (λ y. contains seen y ≡ false) p h) (Memᴰ.head p)
  mem-distinct_from a seen (x ∷ xs) (Memᴰ.tail m) h = elim (Bool-cases (contains seen x)) [
    | inl t ↦ rw t (mem-distinct_from a seen xs m h)
    | inr f ↦ elim (Bool-cases (a == x)) [
      | inl same ↦ rw f (Memᴰ.head (eq_of_true a x same))
      | inr differ ↦ rw f (Memᴰ.tail (mem-distinct_from a (x ∷ seen) xs m (ground arith)))
    ]
  ]

  pub mem_of_distinct : (a : A) (xs : List A) → Memᴰ a (distinct xs) → Memᴰ a xs
  unfolding distinct
  mem_of_distinct a xs m = mem_of_distinct_from a [] xs m

  pub mem-distinct : (a : A) (xs : List A) → Memᴰ a xs → Memᴰ a (distinct xs)
  unfolding distinct
  mem-distinct a xs m = mem-distinct_from a [] xs m refl
