-- ===== src/Conversations/Vocabulary.antt =====
-- Enumerations of telecom_conversations/domain.py (src/saas_platform/modules).
use plataforma_saa_s_de_auto.Prelude.{String, Eq, eq_of_discrete}

pub data ContactKind : Type 0 where
  individual business : ContactKind

unfoldable pub ContactKind-discrete : Discrete ContactKind
ContactKind-discrete = hlevel

instance abbrev pub contact_kind_eq : Eq ContactKind
contact_kind_eq = eq_of_discrete ContactKind-discrete

unfoldable pub contact_kind_value : ContactKind → String
contact_kind_value ContactKind.individual = "individual"
contact_kind_value ContactKind.business = "business"

pub data ContactPreference : Type 0 where
  unspecified automated_allowed human_only do_not_contact : ContactPreference

unfoldable pub ContactPreference-discrete : Discrete ContactPreference
ContactPreference-discrete = hlevel

instance abbrev pub contact_preference_eq : Eq ContactPreference
contact_preference_eq = eq_of_discrete ContactPreference-discrete

unfoldable pub contact_preference_value : ContactPreference → String
contact_preference_value ContactPreference.unspecified = "unspecified"
contact_preference_value ContactPreference.automated_allowed = "automated_allowed"
contact_preference_value ContactPreference.human_only = "human_only"
contact_preference_value ContactPreference.do_not_contact = "do_not_contact"

pub data ConversationChannel : Type 0 where
  internal whatsapp sms webchat : ConversationChannel

unfoldable pub ConversationChannel-discrete : Discrete ConversationChannel
ConversationChannel-discrete = hlevel

instance abbrev pub conversation_channel_eq : Eq ConversationChannel
conversation_channel_eq = eq_of_discrete ConversationChannel-discrete

unfoldable pub conversation_channel_value : ConversationChannel → String
conversation_channel_value ConversationChannel.internal = "internal"
conversation_channel_value ConversationChannel.whatsapp = "whatsapp"
conversation_channel_value ConversationChannel.sms = "sms"
conversation_channel_value ConversationChannel.webchat = "webchat"

pub data MessageDirection : Type 0 where
  inbound outbound : MessageDirection

unfoldable pub MessageDirection-discrete : Discrete MessageDirection
MessageDirection-discrete = hlevel

instance abbrev pub message_direction_eq : Eq MessageDirection
message_direction_eq = eq_of_discrete MessageDirection-discrete

unfoldable pub message_direction_value : MessageDirection → String
message_direction_value MessageDirection.inbound = "inbound"
message_direction_value MessageDirection.outbound = "outbound"

pub data MessageAuthor : Type 0 where
  customer system human_advisor : MessageAuthor

unfoldable pub MessageAuthor-discrete : Discrete MessageAuthor
MessageAuthor-discrete = hlevel

instance abbrev pub message_author_eq : Eq MessageAuthor
message_author_eq = eq_of_discrete MessageAuthor-discrete

unfoldable pub message_author_value : MessageAuthor → String
message_author_value MessageAuthor.customer = "customer"
message_author_value MessageAuthor.system = "system"
message_author_value MessageAuthor.human_advisor = "human_advisor"

pub data ConversationState : Type 0 where
  opened qualifying waiting_customer waiting_human human_active automated_paused do_not_contact
        closed :
      ConversationState

unfoldable pub ConversationState-discrete : Discrete ConversationState
ConversationState-discrete = hlevel

instance abbrev pub conversation_state_eq : Eq ConversationState
conversation_state_eq = eq_of_discrete ConversationState-discrete

unfoldable pub conversation_state_value : ConversationState → String
conversation_state_value ConversationState.opened = "open"
conversation_state_value ConversationState.qualifying = "qualifying"
conversation_state_value ConversationState.waiting_customer = "waiting_customer"
conversation_state_value ConversationState.waiting_human = "waiting_human"
conversation_state_value ConversationState.human_active = "human_active"
conversation_state_value ConversationState.automated_paused = "automated_paused"
conversation_state_value ConversationState.do_not_contact = "do_not_contact"
conversation_state_value ConversationState.closed = "closed"

pub data TransitionActor : Type 0 where
  customer system worker human : TransitionActor

unfoldable pub TransitionActor-discrete : Discrete TransitionActor
TransitionActor-discrete = hlevel

instance abbrev pub transition_actor_eq : Eq TransitionActor
transition_actor_eq = eq_of_discrete TransitionActor-discrete

unfoldable pub transition_actor_value : TransitionActor → String
transition_actor_value TransitionActor.customer = "customer"
transition_actor_value TransitionActor.system = "system"
transition_actor_value TransitionActor.worker = "worker"
transition_actor_value TransitionActor.human = "human"

pub data HandoffType : Type 0 where
  general specialized : HandoffType

unfoldable pub HandoffType-discrete : Discrete HandoffType
HandoffType-discrete = hlevel

instance abbrev pub handoff_type_eq : Eq HandoffType
handoff_type_eq = eq_of_discrete HandoffType-discrete

unfoldable pub handoff_type_value : HandoffType → String
handoff_type_value HandoffType.general = "general"
handoff_type_value HandoffType.specialized = "specialized"

pub data HandoffStatus : Type 0 where
  requested queued assigned accepted resolved cancelled expired : HandoffStatus

unfoldable pub HandoffStatus-discrete : Discrete HandoffStatus
HandoffStatus-discrete = hlevel

instance abbrev pub handoff_status_eq : Eq HandoffStatus
handoff_status_eq = eq_of_discrete HandoffStatus-discrete

unfoldable pub handoff_status_value : HandoffStatus → String
handoff_status_value HandoffStatus.requested = "requested"
handoff_status_value HandoffStatus.queued = "queued"
handoff_status_value HandoffStatus.assigned = "assigned"
handoff_status_value HandoffStatus.accepted = "accepted"
handoff_status_value HandoffStatus.resolved = "resolved"
handoff_status_value HandoffStatus.cancelled = "cancelled"
handoff_status_value HandoffStatus.expired = "expired"
