-- ===== src/Queues/Outbox/Actions.antt =====
-- What any number of workers and use cases do to the outbox, one transaction after the other, in any
-- order.
use plataforma_saa_s_de_auto.Prelude.{
  ℕ, Bool, true, false, not, ◌&&◌, ◌≡◌, refl, ap, inl, inr, String, Option, some, none, List, [],
  ◌∷◌, All, All-mem, All-intro, eq_of_true, ◌==◌, nat_eq, string_eq, find, eqb_iff, Bool-cases,
  arith, and-true,
}
use plataforma_saa_s_de_auto.Errors.{keep_or}
use plataforma_saa_s_de_auto.Foundation.{Uuid, TenantId}
use plataforma_saa_s_de_auto.Queues.Table.{row_count, selected_sound, select_for_update}
use plataforma_saa_s_de_auto.Queues.Outbox.{
  Instant, OutboxRow, ClaimedOutboxEvent, Database, is_row, is_claimable, is_before, claim,
  holds_lease, complete, completed, fail, failed, as_published, as_failed, after_seconds,
}
use plataforma_saa_s_de_auto.Queues.Outbox.Add.{
  OutboxEventData, new_row, add, add_unless, insert_event, known_event, has_key,
}
use plataforma_saa_s_de_auto.Queues.Outbox.Rows.{
  HasRow, HasRow-key, is_row_trans, HasRow-cons, update_miss, claim_miss,
}

-- One transaction. A completion or a failure may come from any worker and be for any event.
pub data Action : Type 0 where
  claiming :
      (ids : ℕ → Uuid) (now : Instant) (lease_seconds : ℕ) (locked : OutboxRow → Bool) (limit : ℕ)
      → Action
  completing : (now : Instant) (audit_id : Uuid) (e : ClaimedOutboxEvent) → Action
  failing :
      (now : Instant) (audit_id : Uuid) (e : ClaimedOutboxEvent) (type_name : String)
      (is_dead : Bool)
      → Action
  adding : (tenant_id : TenantId) (e : OutboxEventData) (event_id : Uuid) (now : Instant) → Action

-- Whether the transaction leaves the row alone.
unfoldable pub spares : OutboxRow → Action → Bool
spares r (claiming ids now lease_seconds locked limit) = not (is_claimable now r)
spares r (completing now audit_id e) = not (holds_lease e r)
spares r (failing now audit_id e type_name is_dead) = not (holds_lease e r)
spares r (adding tenant_id e event_id now) = true

module _ (tenant_id : TenantId) (id : Uuid) where
  pub complete_miss :
      (now : Instant) (audit_id : Uuid) (e : ClaimedOutboxEvent) (r : OutboxRow) (db : Database)
      → holds_lease e r ≡ false
      → HasRow tenant_id id r db.events
      → HasRow tenant_id id r (keep_or db (complete now audit_id e db)).events
  unfolding complete completed as_published is_row
  complete_miss now audit_id e r db miss h =
      elim (Bool-cases (row_count (holds_lease e) db.events == 1)) [
        | inl t ↦ rw t (
            update_miss tenant_id id r (holds_lease e) (as_published now) db.events (λ x. refl) miss
              h)
        | inr f ↦ rw f h
      ]

  pub fail_miss :
      (now : Instant) (audit_id : Uuid) (e : ClaimedOutboxEvent) (type_name : String)
      (is_dead : Bool) (r : OutboxRow) (db : Database)
      → holds_lease e r ≡ false
      → HasRow tenant_id id r db.events
      → HasRow tenant_id id r (keep_or db (fail now audit_id e type_name is_dead db)).events
  unfolding fail failed as_failed is_row
  fail_miss now audit_id e type_name is_dead r db miss h =
      elim (Bool-cases (row_count (holds_lease e) db.events == 1)) [
        | inl t ↦ rw t (
            update_miss tenant_id id r (holds_lease e) (as_failed now e type_name is_dead) db.events
              (λ x. refl) miss h)
        | inr f ↦ rw f h
      ]

  pub claim_spares :
      (ids : ℕ → Uuid) (now : Instant) (lease_seconds : ℕ) (locked : OutboxRow → Bool) (limit : ℕ)
      (r : OutboxRow) (db : Database)
      → is_claimable now r ≡ false
      → HasRow tenant_id id r db.events
      → HasRow tenant_id id r (claim ids now lease_seconds locked limit db).1.events
  unfolding claim
  claim_spares ids now lease_seconds locked limit r db idle h =
      let selected = select_for_update (is_claimable now) is_before locked limit db.events in
      claim_miss tenant_id id ids (after_seconds now lease_seconds) r selected 0 db.events
        (All-intro (λ c. is_row c.tenant_id c.id r ≡ false) selected
          (λ c m.
            let (there, due) =
              selected_sound (is_claimable now) is_before locked limit db.events c m in
            elim (Bool-cases (is_row c.tenant_id c.id r)) [
              | inl t ↦
                  let key =
                    is_row_trans tenant_id id c r (HasRow-key tenant_id id r db.events h) t in
                  let same =
                    All-mem (λ x. is_row tenant_id id x ≡ true → x ≡ r) c db.events h.whole there
                      key in
                  absurd (cc (idle, due, ap (is_claimable now) same))
              | inr f ↦ f
            ]))
        h

  new_key :
      (tenant : TenantId) (event_id : Uuid) (r : OutboxRow) (rows : List OutboxRow)
      → HasRow tenant_id id r rows
      → row_count (is_row tenant event_id) rows ≡ 0
      → (tenant == tenant_id && event_id == id) ≡ false
  new_key tenant event_id r rows h none_yet =
      elim (Bool-cases (tenant == tenant_id && event_id == id)) [
        | inl t ↦
            let (p, q) = and-true (tenant == tenant_id) (event_id == id) t in
            let same : row_count (is_row tenant event_id) rows
                ≡ row_count (is_row tenant_id id) rows =
              cc (eq_of_true tenant tenant_id p, eq_of_true event_id id q) in
            absurd (omega (arith, h.single, none_yet, same))
        | inr f ↦ f
      ]

module _ (canonical_hash : String → String) where
  -- A transaction that raises is rolled back.
  unfoldable pub step : Action → Database → Database
  step (claiming ids now lease_seconds locked limit) db =
      (claim ids now lease_seconds locked limit db).1
  step (completing now audit_id e) db = keep_or db (complete now audit_id e db)
  step (failing now audit_id e type_name is_dead) db =
      keep_or db (fail now audit_id e type_name is_dead db)
  step (adding tenant_id e event_id now) db =
      (keep_or (false, db) (add canonical_hash tenant_id e event_id now db)).1

  unfoldable pub run : List Action → Database → Database
  run [] db = db
  run (a ∷ actions) db = run actions (step a db)

  module _ (tenant_id : TenantId) (id : Uuid) (r : OutboxRow) where
    insert_spares :
        (tenant : TenantId) (e : OutboxEventData) (event_id : Uuid) (now : Instant) (db : Database)
        → HasRow tenant_id id r db.events
        → HasRow tenant_id id r
            (keep_or (false, db) (insert_event canonical_hash tenant e event_id now db)).1.events
    unfolding insert_event new_row is_row
    insert_spares tenant e event_id now db h =
        elim (Bool-cases (row_count (is_row tenant event_id) db.events == 0)) [
          | inl t ↦ rw t (
              HasRow-cons tenant_id id r (new_row canonical_hash tenant e event_id now) db.events
                (new_key tenant_id id tenant event_id r db.events h ((eqb_iff _ 0).0 t)) h)
          | inr f ↦ rw f h
        ]

    known_spares :
        (e : OutboxEventData) (q : OutboxRow) (db : Database)
        → HasRow tenant_id id r db.events
        → HasRow tenant_id id r (keep_or (false, db) (known_event canonical_hash e q db)).1.events
    unfolding known_event
    known_spares e q db h = elim (Bool-cases (q.payload_hash == canonical_hash e.payload)) [
      | inl t ↦ rw t h
      | inr f ↦ rw f h
    ]

    unless_spares :
        (o : Option OutboxRow) (tenant : TenantId) (e : OutboxEventData) (event_id : Uuid)
        (now : Instant) (db : Database)
        → HasRow tenant_id id r db.events
        → HasRow tenant_id id r
            (keep_or (false, db) (add_unless canonical_hash o tenant e event_id now db)).1.events
    unfolding add_unless
    unless_spares none tenant e event_id now db h = insert_spares tenant e event_id now db h
    unless_spares (some q) tenant e event_id now db h = known_spares e q db h

    add_spares :
        (tenant : TenantId) (e : OutboxEventData) (event_id : Uuid) (now : Instant) (db : Database)
        → HasRow tenant_id id r db.events
        → HasRow tenant_id id r (step (adding tenant e event_id now) db).events
    unfolding step add
    add_spares tenant e event_id now db h =
        unless_spares (find (has_key tenant e.event_key) db.events) tenant e event_id now db h

    step-spares :
        (a : Action) (db : Database)
        → spares r a ≡ true
        → HasRow tenant_id id r db.events
        → HasRow tenant_id id r (step a db).events
    unfolding step spares
    step-spares (claiming ids now lease_seconds locked limit) db free h =
        claim_spares tenant_id id ids now lease_seconds locked limit r db (ground arith) h
    step-spares (completing now audit_id e) db free h =
        complete_miss tenant_id id now audit_id e r db (ground arith) h
    step-spares (failing now audit_id e type_name is_dead) db free h =
        fail_miss tenant_id id now audit_id e type_name is_dead r db (ground arith) h
    step-spares (adding tenant e event_id now) db free h = add_spares tenant e event_id now db h

    -- A run of transactions that all leave the row alone.
    pub run-spares :
        (actions : List Action) (db : Database)
        → All (λ a. spares r a ≡ true) actions
        → HasRow tenant_id id r db.events
        → HasRow tenant_id id r (run actions db).events
    unfolding run
    run-spares [] db free h = h
    run-spares (a ∷ actions) db free h =
        run-spares actions (step a db) free.1 (step-spares a db free.0 h)
