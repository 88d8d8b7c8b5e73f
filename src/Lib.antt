-- ===== src/Lib.antt =====
-- A verification library of the platform's backend: the extraction of commercial facts from
-- conversations, the qualification of telecom leads, the state machines of conversations, and the
-- outbox of their events.
--
-- A message of a customer becomes, through an extraction, facts and signals of a lead's profile: the
-- newest messages are sent to a provider, patterns find controls such as a request for no more
-- messages, what the provider answers is weighed, reconciled with the profile, accepted in part, and
-- mapped to a proposed profile and a request to evaluate it.
-- The scoring engine evaluates the signals against the tenant's published policy: it keeps the best
-- evidence of each code, adds the points of the matching criteria by dimension, applies penalties,
-- classifies the score, and recommends an action, a state of the lead and perhaps a handoff to an
-- advisor. The facts join the profile by a plan that weighs each one against the fact that is
-- there. Conversation, lead and handoff each move only along their state machine.
--
-- Where the parts are (paths from src/saas_platform):
--   LeadQualification/Vocabulary, Policy, Profile, Request: modules/lead_qualification/domain.py. An
--     Enum is a data type with its `value` as a function, a dataclass is a record, and its
--     `__post_init__` is a function `…_post_init` that returns or raises. `IsConstructed` says that
--     a policy and all its parts passed theirs.
--   LeadQualification/Scoring: modules/lead_qualification/scoring.py, function for function, and
--     `EvaluateLeadQualification.execute` of application.py. Signals, Criteria, Decision and Engine
--     hold the code, the other files the theorems.
--   LeadQualification/DefaultPolicy: modules/lead_qualification/default_policy.py and
--     modules/telecom_conversations/policy.py.
--   Conversations: modules/telecom_conversations/domain.py: enumerations, records with their checks,
--     and state machines. The files named …Runs follow any sequence of requests; a refused request
--     raises and its caller keeps the state it had.
--   Conversations/Profile: modules/telecom_conversations/profile.py. Action, Decision and Plan hold the
--     code of `IncrementalLeadProfileApplier`, the other files the theorems. `decide_value` is its
--     `_decide`, `merge_opportunity` its `_opportunity`.
--   Conversations/Processing: of modules/telecom_conversations/application.py, the target states of
--     the lead and the conversation and the two transitions of `_finalize`; Processed and
--     Questions follow the messages of a conversation.
--   Extraction/Vocabulary, Domain, Command: modules/telecom_extraction/domain.py.
--   Extraction/Context: modules/telecom_extraction/context.py. Patterns, Selection, Controls and
--     Request hold the code, Newest, Loop, Fits and Found the theorems.
--   Extraction/Confidence, Resolve, Reconcile, Decisions, Mapper, Proposal: the classes of
--     modules/telecom_extraction/processing.py but the normalizer. Decisions/Accept is `accept`, and
--     Required, Question and Handoff its `_missing`, `_question` and `_handoff`; Mapper is `_signals` and
--     Proposal `apply`. Kept, Agreement, AcceptedControls, StopSignal, StopRequest and NoContact are
--     about them.
--   Extraction/Degraded: `_degraded` of modules/telecom_extraction/application.py.
--   Queues/Table: what the SQL statements do to the rows of a table.
--   Queues/Outbox: `PostgresConversationOutboxPublisher` of modules/telecom_conversations/postgres_jobs.py
--     (`_claim`, `_complete`, `_fail`, in Batch `publish_batch`), in Add `PostgresOutboxRepository.add` of
--     modules/telecom_conversations/postgres.py, over the table of infrastructure/schema.py. Each
--     transaction is one step on the rows and the audit events; Actions are the steps of any workers in
--     any order, and Leases, Claimed, Ends and Counts follow them; Tallies is about the counters. A row
--     that another transaction has locked is one that the argument `locked` says so of.
--   Errors: errors.py and modules/telecom_conversations/errors.py, exceptions as values of Result.
--   Foundation, Prelude: Python's own types: a dict in insertion order, `sorted` as a stable sort, a
--     Decimal as an integer number of units of 10^-28 (28 decimal places, where Python's context keeps
--     28 significant digits), a datetime as its instant with a flag for its timezone, integers without
--     bound. A time before the calendar's start, where Python raises OverflowError, is the start.
--
-- A frozenset is a list, read only through membership, inclusion and a sort of its values. No
-- definition uses fuel: all loops run over lists.
--
-- Parameters: the fingerprint of a policy (SHA-256 of its canonical JSON), the hash of a payload,
-- the digest of an idempotency key, `uuid5`, the text that `str` gives of a UUID, of a Decimal and of
-- a value, searching and replacing by a pattern (of a correction, a control, a sensitive question),
-- whether a text is in another when both are case-folded, the published policy that a repository
-- returns, the sink of published events, new identifiers and the current time. No hypothesis is made
-- about them; the theorems on leases say which steps of others they allow in between.
--
-- A JSON payload is its text, and an instant a number of microseconds.
--
-- Not modelled: persistence (SQL) but for the outbox, HTTP, the extraction service with its prompts
-- and the check of its payload, configuration, logging and metrics, and for now the normalizer and
-- the attempts of an extraction, the rest of the use cases of conversations, and the queue of jobs.
pub mod Prelude
pub mod Errors
pub mod Foundation
pub mod LeadQualification
pub mod Extraction
pub mod Conversations
pub mod Queues
