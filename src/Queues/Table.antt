-- ===== src/Queues/Table.antt =====
-- Statements of SQL on the rows of a table: `UPDATE … WHERE` with its row count, and `SELECT … WHERE`
-- with `ORDER BY`, `FOR UPDATE SKIP LOCKED` and `LIMIT`. A statement that raises leaves its transaction
-- without effect.
use mathlib.Core.List.Memᴰ
use plataforma_saa_s_de_auto.Prelude.{
  ℕ, zero, suc, ◌+◌, ◌≤◌, Bool, true, false, not, ◌&&◌, ◌≡◌, refl, sym, ap, inl, inr, List, [], ◌∷◌,
  Memᴰ, All, All-filter, filter, if◌then◌else◌, Bool-cases, arith, mem_of_mem-filter, filter_sound,
  and-true,
}
use plataforma_saa_s_de_auto.Prelude.Sort.{
  insert_by, sort_by, All-insert_by, All-sort_by, mem_of_mem-sort_by,
}

module _ {A : Type 0} where
  -- `LIMIT n`
  unfoldable pub take : ℕ → List A → List A
  take zero xs = []
  take (suc n) [] = []
  take (suc n) (x ∷ xs) = x ∷ take n xs

  -- `UPDATE … SET … WHERE p`
  unfoldable pub update_where : (A → Bool) → (A → A) → List A → List A
  update_where p set [] = []
  update_where p set (x ∷ xs) = (if p x then set x else x) ∷ update_where p set xs

  -- `rowcount` of an update, before it is made
  unfoldable pub row_count : (A → Bool) → List A → ℕ
  row_count p [] = 0
  row_count p (x ∷ xs) = (if p x then 1 else 0) + row_count p xs

  -- Rows that another transaction has locked are skipped, and do not count for the limit.
  unfoldable pub select_for_update : (A → Bool) → (A → A → Bool) → (A → Bool) → ℕ → List A → List A
  select_for_update p before locked limit rows =
      take limit (sort_by before (filter (λ r. p r && not (locked r)) rows))

module _ {A : Type 0} where
  mem_of_mem-take : (n : ℕ) (x : A) (xs : List A) → Memᴰ x (take n xs) → Memᴰ x xs
  unfolding take
  mem_of_mem-take zero x xs m = elim m [ ]
  mem_of_mem-take (suc n) x [] m = elim m [ ]
  mem_of_mem-take (suc n) x (y ∷ ys) m = elim (Memᴰ.cases_cons m) [
    | inl e ↦ Memᴰ.head e
    | inr r ↦ Memᴰ.tail (mem_of_mem-take n x ys r)
  ]

  -- A selected row is one of the table that satisfies the condition.
  pub selected_sound :
      (p : A → Bool) (before : A → A → Bool) (locked : A → Bool) (limit : ℕ) (rows : List A) (x : A)
      → Memᴰ x (select_for_update p before locked limit rows)
      → Memᴰ x rows × (p x ≡ true)
  unfolding select_for_update
  selected_sound p before locked limit rows x m =
      let free = λ (r : A). p r && not (locked r) in
      let chosen =
        mem_of_mem-sort_by before x (filter free rows)
          (mem_of_mem-take limit x (sort_by before (filter free rows)) m) in
      (mem_of_mem-filter free x rows chosen, (and-true _ _ (filter_sound free x rows chosen)).0)

  -- A property of rows that the new values have survives an update.
  pub All-update_where {κ} :
      (P : A → Type κ) (p : A → Bool) (set : A → A) (rows : List A)
      → ((r : A) → p r ≡ true → P r → P (set r))
      → All P rows
      → All P (update_where p set rows)
  unfolding update_where
  All-update_where P p set [] keep h = tt
  All-update_where P p set (r ∷ rows) keep h = elim (Bool-cases (p r)) [
    | inl t ↦ rw t (keep r t h.0, All-update_where P p set rows keep h.1)
    | inr f ↦ rw f (h.0, All-update_where P p set rows keep h.1)
  ]

  -- An update that leaves a test of the rows alone leaves their number alone.
  pub row_count-update_where :
      (q p : A → Bool) (set : A → A) (rows : List A)
      → ((r : A) → q (set r) ≡ q r)
      → row_count q (update_where p set rows) ≡ row_count q rows
  unfolding update_where row_count
  row_count-update_where q p set [] keep = refl
  row_count-update_where q p set (r ∷ rows) keep = elim (Bool-cases (p r)) [
    | inl t ↦ rw t (rw (keep r) (rw (row_count-update_where q p set rows keep)))
    | inr f ↦ rw f (rw (row_count-update_where q p set rows keep))
  ]

  -- Two tests that agree on the rows count the same rows.
  pub row_count_agree :
      (p q : A → Bool) (rows : List A)
      → All (λ r. p r ≡ q r) rows
      → row_count p rows ≡ row_count q rows
  unfolding row_count
  row_count_agree p q [] h = refl
  row_count_agree p q (r ∷ rows) h = rw (h.0) (rw (row_count_agree p q rows h.1))

  pub row_count_none :
      (p : A → Bool) (rows : List A) → All (λ r. p r ≡ false) rows → row_count p rows ≡ 0
  unfolding row_count
  row_count_none p [] h = refl
  row_count_none p (r ∷ rows) h = rw (h.0) (omega (arith, row_count_none p rows h.1))

  pub row_count_of_mem :
      (p : A → Bool) (x : A) (rows : List A) → Memᴰ x rows → p x ≡ true → 1 ≤ row_count p rows
  unfolding row_count
  row_count_of_mem p x [] m h = elim m [ ]
  row_count_of_mem p x (r ∷ rows) (Memᴰ.head e) h = rw (ap p (sym e)) (rw h (omega arith))
  row_count_of_mem p x (r ∷ rows) (Memᴰ.tail m) h = omega (arith, row_count_of_mem p x rows m h)

  pub All-implies {κ μ} :
      (P : A → Type κ) (Q : A → Type μ) (rows : List A)
      → ((r : A) → Memᴰ r rows → P r → Q r)
      → All P rows
      → All Q rows
  All-implies P Q [] f h = tt
  All-implies P Q (r ∷ rows) f h =
      (f r (Memᴰ.head refl) h.0, All-implies P Q rows (λ x m. f x (Memᴰ.tail m)) h.1)

module _ {A : Type 0} (same : A → A → Bool) where
  -- No two elements are the same.
  abbrev pub Apart : List A → Type 0
  Apart [] = Unit
  Apart (x ∷ xs) = All (λ y. same x y ≡ false) xs × Apart xs

  Apart-filter : (p : A → Bool) (xs : List A) → Apart xs → Apart (filter p xs)
  unfolding filter
  Apart-filter p [] h = tt
  Apart-filter p (x ∷ xs) h = elim (Bool-cases (p x)) [
    | inl t ↦ rw t (All-filter (λ y. same x y ≡ false) p xs h.0, Apart-filter p xs h.1)
    | inr f ↦ rw f (Apart-filter p xs h.1)
  ]

  All-take {κ} : (P : A → Type κ) (n : ℕ) (xs : List A) → All P xs → All P (take n xs)
  unfolding take
  All-take P zero xs h = tt
  All-take P (suc n) [] h = tt
  All-take P (suc n) (x ∷ xs) h = (h.0, All-take P n xs h.1)

  Apart-take : (n : ℕ) (xs : List A) → Apart xs → Apart (take n xs)
  unfolding take
  Apart-take zero xs h = tt
  Apart-take (suc n) [] h = tt
  Apart-take (suc n) (x ∷ xs) h = (All-take (λ y. same x y ≡ false) n xs h.0, Apart-take n xs h.1)

module _ {A : Type 0} (same : A → A → Bool) (symm : (a b : A) → same a b ≡ false → same b a ≡ false)
    (before : A → A → Bool) where
  Apart-insert_by :
      (x : A) (ys : List A)
      → All (λ y. same x y ≡ false) ys
      → Apart same ys
      → Apart same (insert_by before x ys)
  unfolding insert_by
  Apart-insert_by x [] h k = (tt, tt)
  Apart-insert_by x (y ∷ ys) h k = elim (Bool-cases (before y x)) [
    | inl t ↦ rw t (
      All-insert_by before (λ z. same y z ≡ false) x ys (symm x y h.0) k.0,
      Apart-insert_by x ys h.1 k.1,
    )
    | inr f ↦ rw f (h, k)
  ]

  Apart-sort_by : (xs : List A) → Apart same xs → Apart same (sort_by before xs)
  unfolding sort_by
  Apart-sort_by [] h = tt
  Apart-sort_by (x ∷ xs) h =
      Apart-insert_by x (sort_by before xs) (All-sort_by before (λ y. same x y ≡ false) xs h.0)
        (Apart-sort_by xs h.1)

  -- A selection from a table without duplicates has none.
  pub Apart-select :
      (p locked : A → Bool) (limit : ℕ) (rows : List A)
      → Apart same rows
      → Apart same (select_for_update p before locked limit rows)
  unfolding select_for_update
  Apart-select p locked limit rows h =
      let free = λ (r : A). p r && not (locked r) in
      Apart-take same limit (sort_by before (filter free rows))
        (Apart-sort_by (filter free rows) (Apart-filter same free rows h))
