-- ===== src/Queues/Outbox/Batch.antt =====
-- `publish_batch` of `PostgresConversationOutboxPublisher` in telecom_conversations/postgres_jobs.py
-- (src/saas_platform/modules): a worker claims events and publishes them one by one.
use plataforma_saa_s_de_auto.Prelude.{
  ℕ, ◌+◌, leb, Bool, false, ◌||◌, String, Option, some, none, List, [], ◌∷◌, if◌then◌else◌,
}
use plataforma_saa_s_de_auto.Errors.{Result, ok, err, ◌>>=◌}
use plataforma_saa_s_de_auto.Foundation.{Uuid}
use plataforma_saa_s_de_auto.Queues.Outbox.{
  Instant, OutboxRow, ClaimedOutboxEvent, Database, Failure, claim, complete, fail,
}
use plataforma_saa_s_de_auto.Queues.Outbox.Actions.{Action, run}

pub record OutboxPublishResult : Type 0 where
  pub published : ℕ
  pub retried : ℕ
  pub dead : ℕ

pub data Outcome : Type 0 where
  published retried dead : Outcome

unfoldable pub counted : Outcome → OutboxPublishResult → OutboxPublishResult
counted Outcome.published c = record c { published = c.published + 1 }
counted Outcome.retried c = record c { retried = c.retried + 1 }
counted Outcome.dead c = record c { dead = c.dead + 1 }

-- What surrounds a batch: the sink, with the exception that it raises for an event; the clock and
-- the new identifiers when the event is completed or failed; and what other transactions do since
-- the event before.
pub record Surroundings : Type 0 where
  pub canonical_hash : String → String
  pub publish : ClaimedOutboxEvent → Option Failure
  pub complete_at : ClaimedOutboxEvent → Instant
  pub fail_at : ClaimedOutboxEvent → Instant
  pub audit_id : ClaimedOutboxEvent → Uuid
  pub meanwhile : ClaimedOutboxEvent → List Action

module _ (s : Surroundings) (max_attempts : ℕ) where
  unfoldable pub is_terminal_failure : Failure → ClaimedOutboxEvent → Bool
  is_terminal_failure f e = f.is_permanent || leb max_attempts e.attempts

  -- The `except` branch.
  unfoldable pub record_failure :
      Failure → ClaimedOutboxEvent → Database → Result (Outcome × Database)
  record_failure f e db = do
    failed ← fail (s.fail_at e) (s.audit_id e) e f.type_name (is_terminal_failure f e) db
    ok (if is_terminal_failure f e then Outcome.dead else Outcome.retried, failed)

  -- The completion after the sink has returned; its own exception is handled like the sink's.
  unfoldable pub after_completion :
      Result Database → ClaimedOutboxEvent → Database → Result (Outcome × Database)
  after_completion (ok completed) e db = ok (Outcome.published, completed)
  after_completion (err lost) e db =
      record_failure (record { is_permanent = false; type_name = "OutboxPublicationError" }) e db

  unfoldable pub after_publication :
      Option Failure → ClaimedOutboxEvent → Database → Result (Outcome × Database)
  after_publication none e db =
      after_completion (complete (s.complete_at e) (s.audit_id e) e db) e db
  after_publication (some f) e db = record_failure f e db

  -- The body of the loop of `publish_batch`.
  unfoldable pub publish_event : ClaimedOutboxEvent → Database → Result (Outcome × Database)
  publish_event e db = after_publication (s.publish e) e db

  unfoldable pub publish_events :
      List ClaimedOutboxEvent
      → OutboxPublishResult
      → Database
      → Result (OutboxPublishResult × Database)
  publish_events [] counts db = ok (counts, db)
  publish_events (e ∷ es) counts db = do
    handled ← publish_event e (run s.canonical_hash (s.meanwhile e) db)
    publish_events es (counted handled.0 counts) handled.1

  unfoldable pub publish_batch :
      (ℕ → Uuid)
      → Instant
      → ℕ
      → (OutboxRow → Bool)
      → ℕ
      → Database
      → Result (OutboxPublishResult × Database)
  publish_batch ids now lease_seconds locked limit db =
      let (claimed, leased) = claim ids now lease_seconds locked limit db in
      publish_events claimed (record { published = 0; retried = 0; dead = 0 }) leased
