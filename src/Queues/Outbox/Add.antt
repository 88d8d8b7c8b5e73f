-- ===== src/Queues/Outbox/Add.antt =====
-- `PostgresOutboxRepository.add` of telecom_conversations/postgres.py (src/saas_platform/modules):
-- an event enters the outbox once for each key.
use plataforma_saa_s_de_auto.Prelude.{
  ℕ, ◌≡◌, inl, inr, Bool, true, false, not, ◌&&◌, String, Option, none, some, ◌∷◌, ◌==◌, string_eq,
  nat_eq, find, Bool-cases, Option-cases, eq_self, eq_of_true, subst,
}
use plataforma_saa_s_de_auto.Errors.{
  Result, ok, ◌>>◌, raise_if, idempotency_conflict_error, integrity_error,
}
use plataforma_saa_s_de_auto.Foundation.{Uuid, TenantId}
use plataforma_saa_s_de_auto.Queues.Table.{row_count}
use plataforma_saa_s_de_auto.Queues.Outbox.{Instant, OutboxStatus, OutboxRow, Database, is_row}

pub record OutboxEventData : Type 0 where
  pub event_key : String
  pub event_type : String
  pub aggregate_type : String
  pub aggregate_id : Uuid
  pub payload : String
  pub correlation_id : Uuid
  pub causation_id : Uuid
  pub payload_version : ℕ

-- The unique constraint of the table.
unfoldable pub has_key : TenantId → String → OutboxRow → Bool
has_key tenant_id event_key r = r.tenant_id == tenant_id && r.event_key == event_key

-- `canonical_hash` is SHA-256 of the canonical JSON of the payload.
module _ (canonical_hash : String → String) where
  unfoldable pub new_row : TenantId → OutboxEventData → Uuid → Instant → OutboxRow
  new_row tenant_id e event_id now = record {
    tenant_id = tenant_id;
    id = event_id;
    event_key = e.event_key;
    event_type = e.event_type;
    aggregate_type = e.aggregate_type;
    aggregate_id = e.aggregate_id;
    payload = e.payload;
    payload_hash = canonical_hash e.payload;
    payload_version = e.payload_version;
    occurred_at = now;
    correlation_id = e.correlation_id;
    causation_id = e.causation_id;
    status = OutboxStatus.pending;
    attempts = 0;
    next_attempt_at = now;
    lease_token = none;
    lease_until = none;
    last_error = none;
    published_at = none;
    created_at = now;
  }

  -- An event whose key is there already.
  unfoldable pub known_event : OutboxEventData → OutboxRow → Database → Result (Bool × Database)
  known_event e r db =
      raise_if (not (r.payload_hash == canonical_hash e.payload))
        (idempotency_conflict_error "outbox event key was reused with a different payload")
      >> ok (false, db)

  -- An insert that the primary key refuses raises.
  unfoldable pub insert_event :
      TenantId → OutboxEventData → Uuid → Instant → Database → Result (Bool × Database)
  unfolding new_row
  insert_event tenant_id e event_id now db =
      raise_if (not (row_count (is_row tenant_id event_id) db.events == 0))
        (integrity_error "duplicate key value violates unique constraint")
      >> ok (true, record db { events = new_row tenant_id e event_id now ∷ db.events })

  unfoldable pub add_unless :
      Option OutboxRow
      → TenantId
      → OutboxEventData
      → Uuid
      → Instant
      → Database
      → Result (Bool × Database)
  unfolding known_event insert_event
  add_unless none tenant_id e event_id now db = insert_event tenant_id e event_id now db
  add_unless (some r) tenant_id e event_id now db = known_event e r db

  unfoldable pub add :
      TenantId → OutboxEventData → Uuid → Instant → Database → Result (Bool × Database)
  unfolding add_unless
  add tenant_id e event_id now db =
      add_unless (find (has_key tenant_id e.event_key) db.events) tenant_id e event_id now db

  known_event_found :
      (tenant_id : TenantId) (e : OutboxEventData) (r : OutboxRow) (db db' : Database) (b : Bool)
      → find (has_key tenant_id e.event_key) db.events ≡ some r
      → known_event e r db ≡ ok (b, db')
      → (q : OutboxRow) × (find (has_key tenant_id e.event_key) db'.events ≡ some q)
        × ((q.payload_hash == canonical_hash e.payload) ≡ true)
  unfolding known_event
  known_event_found tenant_id e r db db' b there h =
      elim (Bool-cases (r.payload_hash == canonical_hash e.payload)) [
        | inl t ↦
            let same : db ≡ db' = cc (rw t at h) in
            (r, subst (λ x. find (has_key tenant_id e.event_key) x.events ≡ some r) same there, t)
        | inr f ↦ cc (rw f at h)
      ]

  insert_event_found :
      (tenant_id : TenantId) (e : OutboxEventData) (event_id : Uuid) (now : Instant)
      (db db' : Database) (b : Bool)
      → insert_event tenant_id e event_id now db ≡ ok (b, db')
      → (q : OutboxRow) × (find (has_key tenant_id e.event_key) db'.events ≡ some q)
        × ((q.payload_hash == canonical_hash e.payload) ≡ true)
  unfolding insert_event new_row find has_key
  insert_event_found tenant_id e event_id now db db' b h =
      let row = new_row tenant_id e event_id now in
      elim (Bool-cases (not (row_count (is_row tenant_id event_id) db.events == 0))) [
        | inl t ↦ cc (rw t at h)
        | inr f ↦
            let same : record db { events = row ∷ db.events } ≡ db' = cc (rw f at h) in
            (
              row,
              subst (λ x. find (has_key tenant_id e.event_key) x.events ≡ some row) same
                  (rw (eq_self tenant_id) (rw (eq_self e.event_key))),
              eq_self (canonical_hash e.payload),
            )
      ]

  add_found :
      (tenant_id : TenantId) (e : OutboxEventData) (event_id : Uuid) (now : Instant)
      (db db' : Database) (b : Bool)
      → add tenant_id e event_id now db ≡ ok (b, db')
      → (q : OutboxRow) × (find (has_key tenant_id e.event_key) db'.events ≡ some q)
        × ((q.payload_hash == canonical_hash e.payload) ≡ true)
  unfolding add add_unless
  add_found tenant_id e event_id now db db' b h =
      elim (Option-cases (find (has_key tenant_id e.event_key) db.events)) [
        | inl new ↦ insert_event_found tenant_id e event_id now db db' b (rw new at h)
        | inr (r, old) ↦ known_event_found tenant_id e r db db' b old (rw old at h)
      ]

  -- After an event was added, the outbox has an event of its key with its payload's hash, and
  -- adding it again, under any identifier and at any time, reports false and changes nothing.
  pub add_once :
      (tenant_id : TenantId) (e : OutboxEventData) (event_id later_id : Uuid) (now later : Instant)
      (db db' : Database) (b : Bool)
      → add tenant_id e event_id now db ≡ ok (b, db')
      → ((q : OutboxRow) × (find (has_key tenant_id e.event_key) db'.events ≡ some q)
          × (q.payload_hash ≡ canonical_hash e.payload))
        × (add tenant_id e later_id later db' ≡ ok (false, db'))
  unfolding add add_unless known_event
  add_once tenant_id e event_id later_id now later db db' b h =
      let (q, there, same) = add_found tenant_id e event_id now db db' b h in
      ((q, there, eq_of_true _ _ same), rw there (rw same))
