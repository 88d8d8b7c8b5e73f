-- ===== src/Queues/Outbox.antt =====
-- `PostgresConversationOutboxPublisher` of telecom_conversations/postgres_jobs.py
-- (src/saas_platform/modules): events of conversations that wait to be published. A claim takes a
-- lease under a new token; the worker that publishes an event completes or fails it under that token.
pub mod Add
pub mod Rows
pub mod Actions
pub mod Held
pub mod Batch
pub mod Claimed
pub mod Leases
pub mod Ends
pub mod Tallies
pub mod Counts
use plataforma_saa_s_de_auto.Prelude.{
  ℕ, zero, suc, ◌+◌, ◌*◌, ◌^◌, ltb, leb, Bool, true, false, not, ◌&&◌, ◌||◌, String, Option, none,
  some, List, [], ◌∷◌, ◌++◌, Eq, eq_of_discrete, ◌==◌, option_eq, string_eq, nat_eq, if◌then◌else◌,
}
use plataforma_saa_s_de_auto.Prelude.Dict.{Dict}
use plataforma_saa_s_de_auto.Prelude.Text.{take_text}
use plataforma_saa_s_de_auto.Errors.{
  Result, ok, err, ◌>>◌, ◌>>=◌, raise_if, outbox_publication_error,
}
use plataforma_saa_s_de_auto.Foundation.{Uuid, TenantId}
pub use plataforma_saa_s_de_auto.Conversations.Statuses.{OutboxStatus}
unfoldable pub use plataforma_saa_s_de_auto.Conversations.Statuses.{
  OutboxStatus-discrete, outbox_status_eq,
}
use plataforma_saa_s_de_auto.Queues.Table.{update_where, row_count, select_for_update}

-- A column with a timezone holds an instant, in microseconds.
abbrev pub Instant : Type 0
Instant = ℕ

-- `now + timedelta(seconds=seconds)`
abbrev pub after_seconds : Instant → ℕ → Instant
after_seconds now seconds = now + seconds * 10 ^ 6

-- A row of `conversation_outbox_events`, its JSON payload as text.
pub record OutboxRow : Type 0 where
  pub tenant_id : TenantId
  pub id : Uuid
  pub event_key : String
  pub event_type : String
  pub aggregate_type : String
  pub aggregate_id : Uuid
  pub payload : String
  pub payload_hash : String
  pub payload_version : ℕ
  pub occurred_at : Instant
  pub correlation_id : Uuid
  pub causation_id : Uuid
  pub status : OutboxStatus
  pub attempts : ℕ
  pub next_attempt_at : Instant
  pub lease_token : Option Uuid
  pub lease_until : Option Instant
  pub last_error : Option String
  pub published_at : Option Instant
  pub created_at : Instant

pub record ClaimedOutboxEvent : Type 0 where
  pub tenant_id : TenantId
  pub id : Uuid
  pub event_key : String
  pub event_type : String
  pub aggregate_type : String
  pub aggregate_id : Uuid
  pub payload : String
  pub payload_hash : String
  pub payload_version : ℕ
  pub correlation_id : Uuid
  pub causation_id : Uuid
  pub lease_token : Uuid
  pub attempts : ℕ

-- A value of an audit event's metadata.
pub data MetadataValue : Type 0 where
  text : String → MetadataValue
  number : ℕ → MetadataValue
  flag : Bool → MetadataValue

-- What a row of `audit_events` says of an outbox event; its other columns are the same in all.
pub record AuditEvent : Type 0 where
  pub tenant_id : TenantId
  pub id : Uuid
  pub action : String
  pub target_id : Uuid
  pub correlation_id : Uuid
  pub causation_id : Uuid
  pub metadata : Dict String MetadataValue
  pub created_at : Instant

pub record Database : Type 0 where
  pub events : List OutboxRow
  pub audit : List AuditEvent

-- An exception that publishing may raise: whether it is a `PermanentError`, and its class's name.
pub record Failure : Type 0 where
  pub is_permanent : Bool
  pub type_name : String

-- The primary key.
unfoldable pub is_row : TenantId → Uuid → OutboxRow → Bool
is_row tenant_id id r = r.tenant_id == tenant_id && r.id == id

-- `lease_until <= now`, which no null satisfies.
unfoldable pub is_over : Option Instant → Instant → Bool
is_over none now = false
is_over (some until) now = leb until now

unfoldable pub is_claimable : Instant → OutboxRow → Bool
unfolding is_over
is_claimable now r =
    leb r.next_attempt_at now
    && (r.status == OutboxStatus.pending
        || r.status == OutboxStatus.retry
        || (r.status == OutboxStatus.publishing && is_over r.lease_until now))

unfoldable pub is_before : OutboxRow → OutboxRow → Bool
is_before a b =
    ltb a.next_attempt_at b.next_attempt_at
    || (a.next_attempt_at == b.next_attempt_at && ltb a.id b.id)

unfoldable pub claimed_event : OutboxRow → Uuid → ClaimedOutboxEvent
claimed_event r token = record {
  tenant_id = r.tenant_id;
  id = r.id;
  event_key = r.event_key;
  event_type = r.event_type;
  aggregate_type = r.aggregate_type;
  aggregate_id = r.aggregate_id;
  payload = r.payload;
  payload_hash = r.payload_hash;
  payload_version = r.payload_version;
  correlation_id = r.correlation_id;
  causation_id = r.causation_id;
  lease_token = token;
  attempts = r.attempts + 1;
}

-- The lease that the claim of the selected row `c` writes.
unfoldable pub leased : OutboxRow → Uuid → Instant → OutboxRow → OutboxRow
leased c token lease_until r = record r {
  status = OutboxStatus.publishing;
  attempts = c.attempts + 1;
  lease_token = some token;
  lease_until = some lease_until;
  last_error = none;
}

-- The loop of `_claim`; `ids` gives the identifiers that are drawn, in order.
unfoldable pub claim_rows :
    (ℕ → Uuid)
    → Instant
    → List OutboxRow
    → ℕ
    → List OutboxRow
    → List ClaimedOutboxEvent × List OutboxRow
unfolding leased claimed_event
claim_rows ids lease_until [] drawn rows = ([], rows)
claim_rows ids lease_until (c ∷ cs) drawn rows =
    let (claimed, updated) =
      claim_rows ids lease_until cs (suc drawn)
        (update_where (is_row c.tenant_id c.id) (leased c (ids drawn) lease_until) rows) in
    (claimed_event c (ids drawn) ∷ claimed, updated)

-- `_claim`
unfoldable pub claim :
    (ℕ → Uuid)
    → Instant
    → ℕ
    → (OutboxRow → Bool)
    → ℕ
    → Database
    → List ClaimedOutboxEvent × Database
claim ids now lease_seconds locked limit db =
    let rows = select_for_update (is_claimable now) is_before locked limit db.events in
    let (claimed, updated) = claim_rows ids (after_seconds now lease_seconds) rows 0 db.events in
    (claimed, record db { events = updated })

-- The condition under which a worker may finish an event.
unfoldable pub holds_lease : ClaimedOutboxEvent → OutboxRow → Bool
unfolding is_row
holds_lease e r =
    is_row e.tenant_id e.id r
    && (r.status == OutboxStatus.publishing && r.lease_token == some e.lease_token)

unfoldable pub audit_event :
    String → ClaimedOutboxEvent → Dict String MetadataValue → Uuid → Instant → AuditEvent
audit_event action e metadata audit_id now = record {
  tenant_id = e.tenant_id;
  id = audit_id;
  action = action;
  target_id = e.id;
  correlation_id = e.correlation_id;
  causation_id = e.causation_id;
  metadata = metadata;
  created_at = now;
}

unfoldable pub as_published : Instant → OutboxRow → OutboxRow
as_published now r = record r {
  status = OutboxStatus.published;
  lease_token = none;
  lease_until = none;
  published_at = some now;
}

unfoldable pub completed : Instant → Uuid → ClaimedOutboxEvent → Database → Database
completed now audit_id e db = record {
  events = update_where (holds_lease e) (as_published now) db.events;
  audit =
      audit_event "conversation_outbox.published" e
        (("event_type", text e.event_type) ∷ ("attempts", number e.attempts) ∷ []) audit_id now
      ∷ db.audit;
}

-- `_complete`
unfoldable pub complete : Instant → Uuid → ClaimedOutboxEvent → Database → Result Database
complete now audit_id e db = do
  raise_if (not (row_count (holds_lease e) db.events == 1))
      (outbox_publication_error "outbox publication lease was lost")
  ok (completed now audit_id e db)

-- `min(300, 2**attempts)`
unfoldable pub backoff_seconds : ℕ → ℕ
backoff_seconds attempts = if ltb (2 ^ attempts) 300 then 2 ^ attempts else 300

unfoldable pub as_failed : Instant → ClaimedOutboxEvent → String → Bool → OutboxRow → OutboxRow
unfolding backoff_seconds take_text
as_failed now e type_name is_dead r = record r {
  status = if is_dead then OutboxStatus.dead else OutboxStatus.retry;
  next_attempt_at = after_seconds now (backoff_seconds e.attempts);
  lease_token = none;
  lease_until = none;
  last_error = some (take_text 300 type_name);
}

unfoldable pub failed : Instant → Uuid → ClaimedOutboxEvent → String → Bool → Database → Database
failed now audit_id e type_name is_dead db = record {
  events = update_where (holds_lease e) (as_failed now e type_name is_dead) db.events;
  audit =
      audit_event "conversation_outbox.failed" e
        (("event_type", text e.event_type)
          ∷ ("attempts", number e.attempts)
          ∷ ("error_type", text type_name)
          ∷ ("terminal", flag is_dead)
          ∷ [])
        audit_id now
      ∷ db.audit;
}

-- `_fail`
unfoldable pub fail :
    Instant → Uuid → ClaimedOutboxEvent → String → Bool → Database → Result Database
fail now audit_id e type_name is_dead db = do
  raise_if (not (row_count (holds_lease e) db.events == 1))
      (outbox_publication_error "outbox failure lease was lost")
  ok (failed now audit_id e type_name is_dead db)
