-- ===== src/Conversations/Statuses.antt =====
-- Enumerations of telecom_conversations/domain.py (src/saas_platform/modules): contents and statuses.
use plataforma_saa_s_de_auto.Prelude.{String, Eq, eq_of_discrete}

pub data MessageContentType : Type 0 where
  text : MessageContentType

unfoldable pub MessageContentType-discrete : Discrete MessageContentType
MessageContentType-discrete = hlevel

instance abbrev pub message_content_type_eq : Eq MessageContentType
message_content_type_eq = eq_of_discrete MessageContentType-discrete

unfoldable pub message_content_type_value : MessageContentType → String
message_content_type_value MessageContentType.text = "text"

pub data MessageProcessingStatus : Type 0 where
  pending processing completed completed_degraded blocked_do_not_contact blocked_handoff
        retryable_failure permanent_failure invalid_extraction :
      MessageProcessingStatus

unfoldable pub MessageProcessingStatus-discrete : Discrete MessageProcessingStatus
MessageProcessingStatus-discrete = hlevel

instance abbrev pub message_processing_status_eq : Eq MessageProcessingStatus
message_processing_status_eq = eq_of_discrete MessageProcessingStatus-discrete

unfoldable pub message_processing_status_value : MessageProcessingStatus → String
message_processing_status_value MessageProcessingStatus.pending = "pending"
message_processing_status_value MessageProcessingStatus.processing = "processing"
message_processing_status_value MessageProcessingStatus.completed = "completed"
message_processing_status_value MessageProcessingStatus.completed_degraded = "completed_degraded"
message_processing_status_value MessageProcessingStatus.blocked_do_not_contact =
    "blocked_do_not_contact"
message_processing_status_value MessageProcessingStatus.blocked_handoff = "blocked_handoff"
message_processing_status_value MessageProcessingStatus.retryable_failure = "retryable_failure"
message_processing_status_value MessageProcessingStatus.permanent_failure = "permanent_failure"
message_processing_status_value MessageProcessingStatus.invalid_extraction = "invalid_extraction"

pub data ProcessingOutcome : Type 0 where
  completed completed_degraded duplicate blocked_do_not_contact blocked_handoff retryable_failure
        permanent_failure concurrency_conflict invalid_extraction :
      ProcessingOutcome

unfoldable pub ProcessingOutcome-discrete : Discrete ProcessingOutcome
ProcessingOutcome-discrete = hlevel

instance abbrev pub processing_outcome_eq : Eq ProcessingOutcome
processing_outcome_eq = eq_of_discrete ProcessingOutcome-discrete

unfoldable pub processing_outcome_value : ProcessingOutcome → String
processing_outcome_value ProcessingOutcome.completed = "completed"
processing_outcome_value ProcessingOutcome.completed_degraded = "completed_degraded"
processing_outcome_value ProcessingOutcome.duplicate = "duplicate"
processing_outcome_value ProcessingOutcome.blocked_do_not_contact = "blocked_do_not_contact"
processing_outcome_value ProcessingOutcome.blocked_handoff = "blocked_handoff"
processing_outcome_value ProcessingOutcome.retryable_failure = "retryable_failure"
processing_outcome_value ProcessingOutcome.permanent_failure = "permanent_failure"
processing_outcome_value ProcessingOutcome.concurrency_conflict = "concurrency_conflict"
processing_outcome_value ProcessingOutcome.invalid_extraction = "invalid_extraction"

pub data PendingQuestionStatus : Type 0 where
  pending consumed cancelled : PendingQuestionStatus

unfoldable pub PendingQuestionStatus-discrete : Discrete PendingQuestionStatus
PendingQuestionStatus-discrete = hlevel

instance abbrev pub pending_question_status_eq : Eq PendingQuestionStatus
pending_question_status_eq = eq_of_discrete PendingQuestionStatus-discrete

unfoldable pub pending_question_status_value : PendingQuestionStatus → String
pending_question_status_value PendingQuestionStatus.pending = "pending"
pending_question_status_value PendingQuestionStatus.consumed = "consumed"
pending_question_status_value PendingQuestionStatus.cancelled = "cancelled"

pub data OutboxStatus : Type 0 where
  pending publishing retry published dead : OutboxStatus

unfoldable pub OutboxStatus-discrete : Discrete OutboxStatus
OutboxStatus-discrete = hlevel

instance abbrev pub outbox_status_eq : Eq OutboxStatus
outbox_status_eq = eq_of_discrete OutboxStatus-discrete

unfoldable pub outbox_status_value : OutboxStatus → String
outbox_status_value OutboxStatus.pending = "pending"
outbox_status_value OutboxStatus.publishing = "publishing"
outbox_status_value OutboxStatus.retry = "retry"
outbox_status_value OutboxStatus.published = "published"
outbox_status_value OutboxStatus.dead = "dead"
