-- ===== src/Queues/Outbox/Claimed.antt =====
-- What a claim of the outbox leaves: each claimed event under its own lease.
use plataforma_saa_s_de_auto.Prelude.{
  ℕ, suc, Bool, false, ◌&&◌, ◌≡◌, refl, List, [], ◌∷◌, Memᴰ, All, All-mem, All-intro, ◌==◌, nat_eq,
  arith,
}
use plataforma_saa_s_de_auto.Foundation.{Uuid}
use plataforma_saa_s_de_auto.Queues.Table.{
  Apart, Apart-select, selected_sound, select_for_update, update_where,
}
use plataforma_saa_s_de_auto.Queues.Outbox.{
  Instant, OutboxRow, ClaimedOutboxEvent, Database, is_row, is_claimable, is_before, leased,
  claimed_event, claim_rows, claim, after_seconds,
}
use plataforma_saa_s_de_auto.Queues.Outbox.Rows.{
  HasRow, is_row_self, is_row_symm, HasRow-of_mem, update_hit, update_miss, claim_miss,
}
use plataforma_saa_s_de_auto.Queues.Outbox.Held.{IsLeased}

-- The primary key of the table.
abbrev pub HasUniqueKeys : List OutboxRow → Type 0
HasUniqueKeys rows = Apart (λ a b. is_row a.tenant_id a.id b) rows

-- The event's row is in the table, leased under the event's token.
abbrev pub Holds : Instant → List OutboxRow → ClaimedOutboxEvent → Type 0
Holds until rows e =
    (r : OutboxRow) × HasRow e.tenant_id e.id r rows × IsLeased e.lease_token until r

unfoldable pub same_event : ClaimedOutboxEvent → ClaimedOutboxEvent → Bool
same_event e f = e.tenant_id == f.tenant_id && e.id == f.id

-- Keys that differ do so in either order.
pub eq_flip : (a b i j : ℕ) → (b == a && j == i) ≡ false → (a == b && i == j) ≡ false
eq_flip a b i j h = ground arith

module _ (ids : ℕ → Uuid) (until : Instant) where
  claim_rows-Holds :
      (cs : List OutboxRow) (n : ℕ) (rows : List OutboxRow)
      → HasUniqueKeys cs
      → All (λ c. HasRow c.tenant_id c.id c rows) cs
      → All (Holds until (claim_rows ids until cs n rows).1) (claim_rows ids until cs n rows).0
  unfolding claim_rows claimed_event is_row leased
  claim_rows-Holds [] n rows apart there = tt
  claim_rows-Holds (c ∷ cs) n rows apart there =
      let rows' = update_where (is_row c.tenant_id c.id) (leased c (ids n) until) rows in
      let mine =
        update_hit c.tenant_id c.id c (is_row c.tenant_id c.id) (leased c (ids n) until) rows
          (λ x. refl) (is_row_self c) there.0 in
      let other = λ (d : OutboxRow) (m : Memᴰ d cs).
        All-mem (λ x. is_row c.tenant_id c.id x ≡ false) d cs apart.0 m in
      (
        (
          leased c (ids n) until c,
          claim_miss c.tenant_id c.id ids until (leased c (ids n) until c) cs (suc n) rows'
              (All-intro (λ d. is_row d.tenant_id d.id (leased c (ids n) until c) ≡ false) cs
                (λ d m. is_row_symm c d (other d m)))
              mine,
          record { is_publishing = refl; has_token = refl; has_until = refl },
        ),
        claim_rows-Holds cs (suc n) rows' apart.1 (
            All-intro (λ d. HasRow d.tenant_id d.id d rows') cs
              (λ d m.
                update_miss d.tenant_id d.id d (is_row c.tenant_id c.id) (leased c (ids n) until)
                  rows (λ x. refl) (other d m)
                  (All-mem (λ x. HasRow x.tenant_id x.id x rows) d cs there.1 m))),
      )

  other_events :
      (c : OutboxRow) (token : Uuid) (cs : List OutboxRow) (n : ℕ) (rows : List OutboxRow)
      → All (λ d. is_row c.tenant_id c.id d ≡ false) cs
      → All (λ f. same_event (claimed_event c token) f ≡ false) (claim_rows ids until cs n rows).0
  unfolding claim_rows claimed_event same_event is_row
  other_events c token [] n rows h = tt
  other_events c token (d ∷ cs) n rows h =
      (eq_flip c.tenant_id d.tenant_id c.id d.id h.0, other_events c token cs (suc n) _ h.1)

  claim_rows-Apart :
      (cs : List OutboxRow) (n : ℕ) (rows : List OutboxRow)
      → HasUniqueKeys cs
      → Apart same_event (claim_rows ids until cs n rows).0
  unfolding claim_rows
  claim_rows-Apart [] n rows apart = tt
  claim_rows-Apart (c ∷ cs) n rows apart =
      (other_events c (ids n) cs (suc n) _ apart.0, claim_rows-Apart cs (suc n) _ apart.1)

module _ (ids : ℕ → Uuid) (now : Instant) (lease_seconds : ℕ) (locked : OutboxRow → Bool)
    (limit : ℕ) (db : Database) (unique : HasUniqueKeys db.events) where
  selection : List OutboxRow
  selection = select_for_update (is_claimable now) is_before locked limit db.events

  selection-HasUniqueKeys : HasUniqueKeys selection
  unfolding selection
  selection-HasUniqueKeys =
      Apart-select (λ a b. is_row a.tenant_id a.id b) is_row_symm is_before (is_claimable now)
        locked limit db.events unique

  -- Every claimed event is in the table, leased under its token until the lease ends.
  pub claim-Holds :
      let (claimed, after) = claim ids now lease_seconds locked limit db in
      All (Holds (after_seconds now lease_seconds) after.events) claimed
  unfolding claim selection
  claim-Holds =
      claim_rows-Holds ids (after_seconds now lease_seconds) selection 0 db.events
        selection-HasUniqueKeys
        (All-intro (λ c. HasRow c.tenant_id c.id c db.events) selection
          (λ c m.
            HasRow-of_mem c db.events unique
              (selected_sound (is_claimable now) is_before locked limit db.events c m).0))

  -- No event is claimed twice.
  pub claim-Apart : Apart same_event (claim ids now lease_seconds locked limit db).0
  unfolding claim selection
  claim-Apart =
      claim_rows-Apart ids (after_seconds now lease_seconds) selection 0 db.events
        selection-HasUniqueKeys
