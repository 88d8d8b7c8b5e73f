-- ===== src/Prelude/Dict.antt =====
-- A Python dict in insertion order, with an equality test on the keys.
use mathlib.Core.Path.{◌≡◌, sym, subst, ap}
use mathlib.Core.Logic.{inl, inr}
use mathlib.Core.Bool.{false}
use mathlib.Core.Option.{Option, none, some}
use mathlib.Core.List.Memᴰ
use mathlib.Core.List.{List, [], ◌∷◌, Memᴰ, map}
use plataforma_saa_s_de_auto.Prelude.Tests.{if◌then◌else◌, Bool-cases}
use plataforma_saa_s_de_auto.Prelude.Equality.{
  Eq, ◌==◌, eq_self, eq_of_true, false_of_ne, ne_of_false,
}
use plataforma_saa_s_de_auto.Prelude.Lists.{All, All-mem}

abbrev pub Dict : Type 0 → Type 0 → Type 0
Dict K V = List (K × V)

module _ {K V : Type 0} ⦃e : Eq K⦄ where
  -- `d.get(k)`
  unfoldable pub get : K → Dict K V → Option V
  get k [] = none
  get k ((j, v) ∷ d) = if k == j then some v else get k d

  -- `d[k] = v`: a known key keeps its place.
  unfoldable pub put : K → V → Dict K V → Dict K V
  put k v [] = (k, v) ∷ []
  put k v ((j, w) ∷ d) = if k == j then (j, v) ∷ d else (j, w) ∷ put k v d

  pub get-put_self : (k : K) (v : V) (d : Dict K V) → get k (put k v d) ≡ some v
  unfolding get put
  get-put_self k v [] = rw (eq_self k)
  get-put_self k v ((j, w) ∷ d) = elim (Bool-cases (k == j)) [
    | inl t ↦ rw t (rw t)
    | inr f ↦ rw f (rw f (get-put_self k v d))
  ]

  pub get-put_ne : (i k : K) (v : V) (d : Dict K V) → (i == k) ≡ false → get i (put k v d) ≡ get i d
  unfolding get put
  get-put_ne i k v [] n = rw n
  get-put_ne i k v ((j, w) ∷ d) n = elim (Bool-cases (k == j)) [
    | inl t ↦
        let p = eq_of_true k j t in
        let n' : (i == j) ≡ false = subst (λ x. (i == x) ≡ false) p n in rw t (rw n')
    | inr f ↦ elim (Bool-cases (i == j)) [
      | inl s ↦ rw f (rw s)
      | inr g ↦ rw f (rw g (get-put_ne i k v d n))
    ]
  ]

  -- A property of entries that the new entry has survives an assignment.
  pub All-put {κ} :
      (P : K × V → Type κ) (k : K) (v : V) (d : Dict K V) → P (k, v) → All P d → All P (put k v d)
  unfolding put
  All-put P k v [] p h = (p, tt)
  All-put P k v ((j, w) ∷ d) p h = elim (Bool-cases (k == j)) [
    | inl t ↦ rw t (subst (λ x. P (x, v)) (eq_of_true k j t) p, h.1)
    | inr f ↦ rw f (h.0, All-put P k v d p h.1)
  ]

  pub All-get {κ} :
      (P : K × V → Type κ) (k : K) (v : V) (d : Dict K V) → All P d → get k d ≡ some v → P (k, v)
  unfolding get
  All-get P k v [] h g = cc
  All-get P k v ((j, w) ∷ d) h g = elim (Bool-cases (k == j)) [
    | inl t ↦
        let same : w ≡ v = cc (rw t at g) in
        subst (λ x. P (x, v)) (sym (eq_of_true k j t)) (subst (λ y. P (j, y)) same h.0)
    | inr f ↦ All-get P k v d h.1 (rw f at g)
  ]

  -- `set(d)`, the keys.
  unfoldable pub keys : Dict K V → List K
  keys [] = []
  keys ((k, v) ∷ d) = k ∷ keys d

  pub mem-keys : (k : K) (v : V) (d : Dict K V) → get k d ≡ some v → Memᴰ k (keys d)
  unfolding get keys
  mem-keys k v [] g = cc
  mem-keys k v ((j, w) ∷ d) g = elim (Bool-cases (k == j)) [
    | inl t ↦ Memᴰ.head (eq_of_true k j t)
    | inr f ↦ Memᴰ.tail (mem-keys k v d (rw f at g))
  ]

  pub get_of_mem-keys : (k : K) (d : Dict K V) → Memᴰ k (keys d) → (v : V) × (get k d ≡ some v)
  unfolding get keys
  get_of_mem-keys k [] m = elim m [ ]
  get_of_mem-keys k ((j, w) ∷ d) m = elim (Bool-cases (k == j)) [
    | inl t ↦ (w, rw t)
    | inr f ↦ elim (Memᴰ.cases_cons m) [
      | inl p ↦ cc (eq_self k, subst (λ x. (k == x) ≡ false) (sym p) f)
      | inr r ↦ let (v, g) = get_of_mem-keys k d r in (v, rw f g)
    ]
  ]

  -- No key stands twice.
  abbrev pub NoRepeat : Dict K V → Type 0
  NoRepeat [] = Unit
  NoRepeat ((k, v) ∷ d) = All (λ (x : K × V). (k == x.0) ≡ false) d × NoRepeat d

  pub put-NoRepeat : (k : K) (v : V) (d : Dict K V) → NoRepeat d → NoRepeat (put k v d)
  unfolding put
  put-NoRepeat k v [] h = (tt, tt)
  put-NoRepeat k v ((j, w) ∷ d) h = elim (Bool-cases (k == j)) [
    | inl t ↦ rw t h
    | inr f ↦ rw f (
      All-put (λ (x : K × V). (j == x.0) ≡ false) k v d
          (false_of_ne j k (λ p. ne_of_false k j f (sym p))) h.0,
      put-NoRepeat k v d h.1,
    )
  ]

  -- An entry of a dict is what its key gives.
  pub get_of_mem : (k : K) (v : V) (d : Dict K V) → NoRepeat d → Memᴰ (k, v) d → get k d ≡ some v
  unfolding get
  get_of_mem k v [] h m = elim m [ ]
  get_of_mem k v ((j, w) ∷ d) h (Memᴰ.head p) =
      let same : k ≡ j = cc p in
      let value : v ≡ w = cc p in rw (same, eq_self j) (ap some (sym value))
  get_of_mem k v ((j, w) ∷ d) h (Memᴰ.tail m) =
      let other = All-mem (λ (x : K × V). (j == x.0) ≡ false) (k, v) d h.0 m in
      rw (false_of_ne k j (λ p. ne_of_false j k other (sym p))) (get_of_mem k v d h.1 m)

  pub mem_of_get : (k : K) (v : V) (d : Dict K V) → get k d ≡ some v → Memᴰ (k, v) d
  unfolding get
  mem_of_get k v [] g = cc
  mem_of_get k v ((j, w) ∷ d) g = elim (Bool-cases (k == j)) [
    | inl t ↦
        let same = eq_of_true k j t in
        let value : w ≡ v = cc (rw t at g) in Memᴰ.head (cc (same, value))
    | inr f ↦ Memᴰ.tail (mem_of_get k v d (rw f at g))
  ]

  -- `d.values()` has the value of every entry, and no other.
  pub mem-values :
      (k : K) (v : V) (d : Dict K V) → Memᴰ (k, v) d → Memᴰ v (map (λ (x : K × V). x.1) d)
  mem-values k v [] m = elim m [ ]
  mem-values k v (x ∷ d) (Memᴰ.head e) = Memᴰ.head (ap (λ (y : K × V). y.1) e)
  mem-values k v (x ∷ d) (Memᴰ.tail m) = Memᴰ.tail (mem-values k v d m)

  pub mem_of_mem-values :
      (v : V) (d : Dict K V) → Memᴰ v (map (λ (x : K × V). x.1) d) → (k : K) × Memᴰ (k, v) d
  mem_of_mem-values v [] m = elim m [ ]
  mem_of_mem-values v ((k, w) ∷ d) (Memᴰ.head e) = (k, Memᴰ.head (cc e))
  mem_of_mem-values v (x ∷ d) (Memᴰ.tail m) =
      let (k, there) = mem_of_mem-values v d m in (k, Memᴰ.tail there)
