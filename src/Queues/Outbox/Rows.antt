-- ===== src/Queues/Outbox/Rows.antt =====
-- One row of the outbox, followed through updates, claims and insertions.
use plataforma_saa_s_de_auto.Prelude.{
  ℕ, suc, Bool, true, false, ◌≡◌, refl, sym, ap, ◌∙◌, inl, inr, List, [], ◌∷◌, Memᴰ, All, All-mem,
  nat_eq, Bool-cases, arith, subst, eq_self, eq_of_iff,
}
use plataforma_saa_s_de_auto.Foundation.{Uuid, TenantId}
use plataforma_saa_s_de_auto.Queues.Table.{
  update_where, row_count, All-update_where, row_count-update_where, row_count_none, Apart,
  row_count_agree, All-implies,
}
use plataforma_saa_s_de_auto.Queues.Outbox.{Instant, OutboxRow, is_row, leased, claim_rows}

-- The table has one row of this key, and it is `r`.
pub record HasRow (tenant_id : TenantId) (id : Uuid) (r : OutboxRow) (rows : List OutboxRow)
    : Type 0 where
  pub single : row_count (is_row tenant_id id) rows ≡ 1
  pub whole : All (λ x. is_row tenant_id id x ≡ true → x ≡ r) rows

pub is_row_self : (r : OutboxRow) → is_row r.tenant_id r.id r ≡ true
unfolding is_row
is_row_self r = rw (eq_self r.tenant_id) (rw (eq_self r.id))

pub is_row_symm :
    (a b : OutboxRow) → is_row a.tenant_id a.id b ≡ false → is_row b.tenant_id b.id a ≡ false
unfolding is_row
is_row_symm a b h = ground arith

module _ (tenant_id : TenantId) (id : Uuid) where
  abbrev Keeps : (OutboxRow → OutboxRow) → Type 0
  Keeps set = (x : OutboxRow) → is_row tenant_id id (set x) ≡ is_row tenant_id id x

  -- An update that does not meet the row.
  pub update_miss :
      (r : OutboxRow) (p : OutboxRow → Bool) (set : OutboxRow → OutboxRow) (rows : List OutboxRow)
      → Keeps set
      → p r ≡ false
      → HasRow tenant_id id r rows
      → HasRow tenant_id id r (update_where p set rows)
  update_miss r p set rows keys miss h = record {
    single = row_count-update_where (is_row tenant_id id) p set rows keys ∙ h.single;
    whole =
        All-update_where (λ x. is_row tenant_id id x ≡ true → x ≡ r) p set rows
          (λ x met same key. absurd (cc (met, miss, ap p (same (sym (keys x) ∙ key))))) h.whole;
  }

  whole_set :
      (r : OutboxRow) (p : OutboxRow → Bool) (set : OutboxRow → OutboxRow) (rows : List OutboxRow)
      → Keeps set
      → p r ≡ true
      → All (λ x. is_row tenant_id id x ≡ true → x ≡ r) rows
      → All (λ x. is_row tenant_id id x ≡ true → x ≡ set r) (update_where p set rows)
  unfolding update_where
  whole_set r p set [] keys met h = tt
  whole_set r p set (x ∷ rows) keys met h = elim (Bool-cases (p x)) [
    | inl t ↦ rw t (λ key. ap set (h.0 (sym (keys x) ∙ key)), whole_set r p set rows keys met h.1)
    | inr f ↦
        rw f (λ key. absurd (cc (f, met, ap p (h.0 key))), whole_set r p set rows keys met h.1)
  ]

  -- An update that meets the row.
  pub update_hit :
      (r : OutboxRow) (p : OutboxRow → Bool) (set : OutboxRow → OutboxRow) (rows : List OutboxRow)
      → Keeps set
      → p r ≡ true
      → HasRow tenant_id id r rows
      → HasRow tenant_id id (set r) (update_where p set rows)
  update_hit r p set rows keys met h = record {
    single = row_count-update_where (is_row tenant_id id) p set rows keys ∙ h.single;
    whole = whole_set r p set rows keys met h.whole;
  }

  -- A test that implies the key is met by one row or none.
  pub count_hit :
      (r : OutboxRow) (p : OutboxRow → Bool) (rows : List OutboxRow)
      → ((x : OutboxRow) → p x ≡ true → is_row tenant_id id x ≡ true)
      → p r ≡ true
      → HasRow tenant_id id r rows
      → row_count p rows ≡ 1
  count_hit r p rows implies met h =
      row_count_agree p (is_row tenant_id id) rows (
        All-implies (λ x. is_row tenant_id id x ≡ true → x ≡ r) _ rows
          (λ x m same.
            eq_of_iff (p x) (is_row tenant_id id x) (implies x) (λ key. ap p (same key) ∙ met))
          h.whole)
      ∙ h.single

  pub count_miss :
      (r : OutboxRow) (p : OutboxRow → Bool) (rows : List OutboxRow)
      → ((x : OutboxRow) → p x ≡ true → is_row tenant_id id x ≡ true)
      → p r ≡ false
      → HasRow tenant_id id r rows
      → row_count p rows ≡ 0
  count_miss r p rows implies miss h = row_count_none p rows (
      All-implies (λ x. is_row tenant_id id x ≡ true → x ≡ r) _ rows
        (λ x m same. elim (Bool-cases (p x)) [
          | inl t ↦ absurd (cc (t, miss, ap p (same (implies x t))))
          | inr f ↦ f
        ])
        h.whole)

row_key :
    (p : OutboxRow → Bool) (r : OutboxRow) (rows : List OutboxRow)
    → row_count p rows ≡ 1
    → All (λ x. p x ≡ true → x ≡ r) rows
    → p r ≡ true
unfolding row_count
row_key p r [] one h = absurd (omega (arith, one))
row_key p r (x ∷ rows) one h = elim (Bool-cases (p x)) [
  | inl t ↦ ap p (sym (h.0 t)) ∙ t
  | inr f ↦ let later = rw f at one in row_key p r rows (omega (arith, later)) h.1
]

-- The row has the key that it is found by.
pub HasRow-key :
    (tenant_id : TenantId) (id : Uuid) (r : OutboxRow) (rows : List OutboxRow)
    → HasRow tenant_id id r rows
    → is_row tenant_id id r ≡ true
HasRow-key tenant_id id r rows h = row_key (is_row tenant_id id) r rows h.single h.whole

pub is_row_trans :
    (tenant_id : TenantId) (id : Uuid) (c r : OutboxRow)
    → is_row tenant_id id r ≡ true
    → is_row c.tenant_id c.id r ≡ true
    → is_row tenant_id id c ≡ true
unfolding is_row
is_row_trans tenant_id id c r h k = ground arith

-- A row of another key joins the table.
pub HasRow-cons :
    (tenant_id : TenantId) (id : Uuid) (r x : OutboxRow) (rows : List OutboxRow)
    → is_row tenant_id id x ≡ false
    → HasRow tenant_id id r rows
    → HasRow tenant_id id r (x ∷ rows)
unfolding row_count
HasRow-cons tenant_id id r x rows other h = record {
  single = rw other (omega (arith, h.single));
  whole = (λ key. absurd (cc (other, key)), h.whole);
}

-- The loop of a claim does not meet the row when no selected row has its key.
pub claim_miss :
    (tenant_id : TenantId) (id : Uuid) (ids : ℕ → Uuid) (until : Instant) (r : OutboxRow)
    (cs : List OutboxRow) (n : ℕ) (rows : List OutboxRow)
    → All (λ c. is_row c.tenant_id c.id r ≡ false) cs
    → HasRow tenant_id id r rows
    → HasRow tenant_id id r (claim_rows ids until cs n rows).1
unfolding claim_rows is_row leased
claim_miss tenant_id id ids until r [] n rows apart h = h
claim_miss tenant_id id ids until r (c ∷ cs) n rows apart h =
    claim_miss tenant_id id ids until r cs (suc n) _ apart.1 (
      update_miss tenant_id id r (is_row c.tenant_id c.id) (leased c (ids n) until) rows (λ x. refl)
        apart.0 h)

head_row :
    (x : OutboxRow) (rows : List OutboxRow)
    → All (λ y. is_row x.tenant_id x.id y ≡ false) rows
    → HasRow x.tenant_id x.id x (x ∷ rows)
unfolding row_count
head_row x rows apart = record {
  single = rw (is_row_self x) (rw (row_count_none (is_row x.tenant_id x.id) rows apart));
  whole = (
    λ key. refl,
    All-implies (λ y. is_row x.tenant_id x.id y ≡ false) _ rows
        (λ y m other key. absurd (cc (other, key))) apart,
  );
}

-- A table without duplicates has each of its rows.
pub HasRow-of_mem :
    (r : OutboxRow) (rows : List OutboxRow)
    → Apart (λ a b. is_row a.tenant_id a.id b) rows
    → Memᴰ r rows
    → HasRow r.tenant_id r.id r rows
HasRow-of_mem r [] apart m = elim m [ ]
HasRow-of_mem r (x ∷ rows) apart (Memᴰ.head e) =
    subst (λ (y : OutboxRow). HasRow y.tenant_id y.id y (x ∷ rows)) (sym e)
      (head_row x rows apart.0)
HasRow-of_mem r (x ∷ rows) apart (Memᴰ.tail m) =
    HasRow-cons r.tenant_id r.id r x rows
      (is_row_symm x r (All-mem (λ y. is_row x.tenant_id x.id y ≡ false) r rows apart.0 m))
      (HasRow-of_mem r rows apart.1 m)
