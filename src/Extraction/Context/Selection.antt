-- ===== src/Extraction/Context/Selection.antt =====
-- Which messages `prepare` of telecom_extraction/context.py (src/saas_platform/modules) selects: the newest
-- ones that are not too old, as many as fit.
use plataforma_saa_s_de_auto.Prelude.{
  ℕ, zero, suc, ◌+◌, ◌-◌, ◌*◌, ltb, leb, Bool, String, Option, none, some, List, [], ◌∷◌, ◌++◌,
  filter, length, eqb, if◌then◌else◌,
}
use plataforma_saa_s_de_auto.Prelude.Sort.{sort_by}
use plataforma_saa_s_de_auto.Prelude.Text.{strip, drop_text, text_length}
use plataforma_saa_s_de_auto.Foundation.{DateTime}
use plataforma_saa_s_de_auto.Extraction.Command.{ConversationMessage, ContextLimits}

-- `items[-n:]`, where n is not 0
unfoldable pub drop : {A : Type 0} → ℕ → List A → List A
drop zero xs = xs
drop (suc n) [] = []
drop (suc n) (x ∷ xs) = drop n xs

unfoldable pub last_items : {A : Type 0} → ℕ → List A → List A
unfolding drop
last_items n xs = drop (length xs - n) xs

unfoldable pub last_text : ℕ → String → String
last_text n s = drop_text (text_length s - n) s

-- `items[::-1]`
unfoldable pub reversed : {A : Type 0} → List A → List A
reversed [] = []
reversed (x ∷ xs) = reversed xs ++ (x ∷ [])

unfoldable pub sent_before : ConversationMessage → ConversationMessage → Bool
sent_before a b = ltb a.sent_at.instant b.sent_at.instant

-- `timedelta(days=n)` in microseconds
abbrev days : ℕ → ℕ
days n = n * (86400 * 1000000)

unfoldable pub cutoff : DateTime → ContextLimits → ℕ
cutoff now limits = now.instant - days limits.max_age_days

-- The messages that are not too old, else the newest one, and of these the newest `max_messages`.
unfoldable pub or_newest :
    List ConversationMessage → List ConversationMessage → List ConversationMessage
unfolding last_items
or_newest chronological [] = last_items 1 chronological
or_newest chronological eligible = eligible

unfoldable pub eligible_messages :
    ContextLimits → DateTime → List ConversationMessage → List ConversationMessage
unfolding or_newest last_items sent_before cutoff
eligible_messages limits now messages =
    let chronological = sort_by sent_before messages in
    last_items limits.max_messages (
      or_newest chronological
        (filter (λ item. leb (cutoff now limits) item.sent_at.instant) chronological))

-- What the loop has so far: the messages with their texts, the newest first, and their characters.
pub record Selected : Type 0 where
  pub reversed_messages : List (ConversationMessage × String)
  pub consumed : ℕ

unfoldable pub add_message : ConversationMessage → String → Selected → Selected
add_message m content s = record {
  reversed_messages = s.reversed_messages ++ ((m, content) ∷ []);
  consumed = s.consumed + text_length content;
}

-- A message that is too long is cut when it is the first one, and skipped when it is not.
unfoldable pub add_long :
    List (ConversationMessage × String) → ℕ → ConversationMessage → String → Selected → Selected
unfolding add_message last_text
add_long [] remaining m redacted s = add_message m (last_text remaining redacted) s
add_long _ remaining m redacted s = s

-- The body of the loop: nothing where it breaks.
unfoldable pub select_message :
    (String → String) → ℕ → ConversationMessage → Selected → Option Selected
unfolding add_message add_long
select_message redacted_text max_characters m s =
    let redacted = redacted_text (strip m.content) in
    let remaining = max_characters - s.consumed in
    if eqb remaining 0
    then none
    else if ltb remaining (text_length redacted)
    then some (add_long s.reversed_messages remaining m redacted s)
    else some (add_message m redacted s)

unfoldable pub select_messages :
    (String → String) → ℕ → List ConversationMessage → Selected → Selected
unfolding select_message
select_messages redacted_text max_characters [] s = s
select_messages redacted_text max_characters (m ∷ ms) s =
    elim (select_message redacted_text max_characters m s) [
      | none ↦ s
      | some next ↦ select_messages redacted_text max_characters ms next
    ]

-- The selected messages with what they are to say, the oldest first.
unfoldable pub selected_messages :
    (String → String)
    → ContextLimits
    → DateTime
    → List ConversationMessage
    → List (ConversationMessage × String)
unfolding select_messages eligible_messages reversed
selected_messages redacted_text limits now messages =
    reversed
      (select_messages redacted_text limits.max_characters
        (reversed (eligible_messages limits now messages))
        (record { reversed_messages = []; consumed = 0 })).reversed_messages
