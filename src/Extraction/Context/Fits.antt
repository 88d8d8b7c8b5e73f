-- ===== src/Extraction/Context/Fits.antt =====
-- What `prepare` of telecom_extraction/context.py (src/saas_platform/modules) gives the provider stays
-- within the limits, and has the newest message.
use plataforma_saa_s_de_auto.Prelude.{
  ℕ, ◌+◌, ◌≤◌, eqb, false, ◌≡◌, refl, sym, ap, ◌∙◌, subst, String, Option, List, [], ◌∷◌, ◌++◌, map,
  Memᴰ, length, arith,
}
use plataforma_saa_s_de_auto.Prelude.Text.{text_length}
use plataforma_saa_s_de_auto.Errors.{ok, raise_if-ok, raise_if->>-ok, >>=-ok}
use plataforma_saa_s_de_auto.Foundation.{DateTime}
use plataforma_saa_s_de_auto.Extraction.Command.{
  ConversationMessage, TelecomExtractionCommand, ContextLimits, context_limits_post_init,
}
use plataforma_saa_s_de_auto.Extraction.Context.Patterns.{Pattern, redact}
use plataforma_saa_s_de_auto.Extraction.Context.Controls.{controls}
use plataforma_saa_s_de_auto.Extraction.Context.Selection.{
  reversed, select_messages, selected_messages, eligible_messages, sent_before,
}
use plataforma_saa_s_de_auto.Extraction.Context.Request.{
  PreparedMessage, PreparedExtractionContext, prepared_message, Rendering, prepare,
}
use plataforma_saa_s_de_auto.Extraction.Context.Loop.{
  texts, texts-append, starts, loop_step, loop_first,
}
use plataforma_saa_s_de_auto.Extraction.Context.Newest.{
  length-reversed, newest_first, eligible_messages-bounded,
}

-- The characters of some messages.
abbrev pub characters : List PreparedMessage → ℕ
characters [] = 0
characters (m ∷ ms) = text_length m.content + characters ms

texts-reversed : (xs : List (ConversationMessage × String)) → texts (reversed xs) ≡ texts xs
unfolding reversed
texts-reversed [] = refl
texts-reversed (x ∷ xs) = omega (arith, texts-append (reversed xs) (x ∷ []), texts-reversed xs)

characters-map :
    (xs : List (ConversationMessage × String)) → characters (map prepared_message xs) ≡ texts xs
unfolding prepared_message
characters-map [] = refl
characters-map (x ∷ xs) = omega (arith, characters-map xs)

length-map : {A B : Type 0} (f : A → B) (xs : List A) → length (map f xs) ≡ length xs
length-map f [] = refl
length-map f (x ∷ xs) = omega (arith, length-map f xs)

map-append_one :
    {A B : Type 0} (f : A → B) (xs : List A) (x : A)
    → map f (xs ++ (x ∷ [])) ≡ map f xs ++ (f x ∷ [])
map-append_one f [] x = refl
map-append_one f (y ∷ xs) x = ap (λ l. f y ∷ l) (map-append_one f xs x)

-- What is selected of some messages, by the lemmas on the loop.
selected_fits :
    (redacted_text : String → String) (limits : ContextLimits) (now : DateTime)
    (messages : List ConversationMessage)
    → eqb (length messages) 0 ≡ false
    → 1 ≤ limits.max_messages
    → 1 ≤ limits.max_characters
    → let selected = selected_messages redacted_text limits now messages in
      (length selected ≤ limits.max_messages)
      × (texts selected ≤ limits.max_characters)
      × ((z : ConversationMessage) × (content : String) × (before : List
            (ConversationMessage × String))
          × (selected ≡ before ++ ((z, content) ∷ []))
          × Memᴰ z messages
          × ((n : ConversationMessage) → Memᴰ n messages → sent_before z n ≡ false))
unfolding selected_messages starts
selected_fits redacted_text limits now [] nonempty some_messages some_characters = cc nonempty
selected_fits redacted_text limits now (m ∷ messages) nonempty some_messages some_characters =
    let eligible = eligible_messages limits now (m ∷ messages) in
    let limit = limits.max_characters in
    let done = select_messages redacted_text limit (reversed eligible) starts in
    let ((count, below), (added, grown, few)) =
      loop_step redacted_text limit (reversed eligible) starts (refl, omega arith) in
    let (z, rest, order, there, newest) = newest_first limits now m messages some_messages in
    let (content, more, first) = loop_first redacted_text limit z rest some_characters in
    let whole : done.reversed_messages ≡ (z, content) ∷ more =
      subst
        (λ l.
          (select_messages redacted_text limit l starts).reversed_messages ≡ (z, content) ∷ more)
        (sym order) first in
    (
      omega (
        arith,
        length-reversed done.reversed_messages,
        ap (λ l. length l) grown,
        few,
        length-reversed eligible,
        eligible_messages-bounded limits now (m ∷ messages),
      ),
      omega (arith, texts-reversed done.reversed_messages, count, below),
      (z, content, reversed more, ap (λ l. reversed l) whole, there, newest),
    )

limits_positive :
    (limits : ContextLimits)
    → context_limits_post_init limits ≡ ok tt
    → (1 ≤ limits.max_messages) × (1 ≤ limits.max_characters)
unfolding context_limits_post_init
limits_positive limits valid = let no = raise_if-ok _ _ valid in ground arith

-- What `prepare` returns, by its parts.
pub prepare_ok :
    (render : Rendering) (search : Pattern → String → Option String)
    (sub : Pattern → String → String → String) (limits : ContextLimits)
    (command : TelecomExtractionCommand) (now : DateTime) (p : PreparedExtractionContext)
    → prepare render search sub limits command now ≡ ok p
    → let selected = selected_messages (redact sub) limits now command.messages in
      (eqb (length command.messages) 0 ≡ false)
      × (p.request.messages ≡ map prepared_message selected)
      × (p.original_messages ≡ map (λ x. x.0) selected)
      × (controls search p.original_messages ≡ ok p.deterministic_controls)
unfolding prepare
prepare_ok render search sub limits command now p h =
    let (some_message, rest) = raise_if->>-ok (eqb (length command.messages) 0) _ _ h in
    let selected = selected_messages (redact sub) limits now command.messages in
    let (found, e, last) = >>=-ok (controls search (map (λ x. x.0) selected)) _ rest in
    let original : map (λ x. x.0) selected ≡ p.original_messages = cc last in
    let same : found ≡ p.deterministic_controls = cc last in
    (some_message, cc last, sym original, ap (controls search) (sym original) ∙ e ∙ ap ok same)

-- With context limits that are valid, a prepared request has at most the greatest number of messages
-- and at most the greatest number of characters in them, and the last of the original messages is one
-- of the command that no message of the command was sent after.
pub prepare_fits :
    (render : Rendering) (search : Pattern → String → Option String)
    (sub : Pattern → String → String → String) (limits : ContextLimits)
    (command : TelecomExtractionCommand) (now : DateTime) (p : PreparedExtractionContext)
    → context_limits_post_init limits ≡ ok tt
    → prepare render search sub limits command now ≡ ok p
    → (length p.request.messages ≤ limits.max_messages)
      × (characters p.request.messages ≤ limits.max_characters)
      × ((z : ConversationMessage) × (before : List ConversationMessage) × (p.original_messages
            ≡ before ++ (z ∷ []))
          × Memᴰ z command.messages
          × ((n : ConversationMessage) → Memᴰ n command.messages → sent_before z n ≡ false))
prepare_fits render search sub limits command now p valid h =
    let (nonempty, sent, original, found) = prepare_ok render search sub limits command now p h in
    let selected = selected_messages (redact sub) limits now command.messages in
    let (some_messages, some_characters) = limits_positive limits valid in
    let (few, short, (z, content, before, same, there, newest)) =
      selected_fits (redact sub) limits now command.messages nonempty some_messages
        some_characters in
    (
      omega (arith, ap (λ l. length l) sent, length-map prepared_message selected, few),
      omega (arith, ap (λ l. characters l) sent, characters-map selected, short),
      (
        z,
        map (λ x. x.0) before,
        original
            ∙ ap (map (λ x. x.0)) same
            ∙ map-append_one (λ (x : ConversationMessage × String). x.0) before (z, content),
        there,
        newest,
      ),
    )
