-- ===== src/Extraction/Context/Loop.antt =====
-- The selection of `prepare` of telecom_extraction/context.py (src/saas_platform/modules) is the loop over the
-- messages: it stays within the limit, and starts with the newest message.
use mathlib.Core.List.{append_assoc, append-nil}
use plataforma_saa_s_de_auto.Prelude.{
  ℕ, ◌+◌, ◌-◌, ◌≤◌, ltb, eqb, false, ◌≡◌, refl, sym, ap, ◌∙◌, subst, inl, inr, String, none, some,
  List, [], ◌∷◌, ◌++◌, length, Bool-cases, Option-cases, arith,
}
use plataforma_saa_s_de_auto.Prelude.Text.{strip, text_length, text_length-drop_text}
use plataforma_saa_s_de_auto.Extraction.Command.{ConversationMessage}
use plataforma_saa_s_de_auto.Extraction.Context.Selection.{
  Selected, last_text, add_message, add_long, select_message, select_messages,
}

abbrev pub texts : List (ConversationMessage × String) → ℕ
texts [] = 0
texts (x ∷ xs) = text_length x.1 + texts xs

abbrev pub Fits : ℕ → Selected → Type 0
Fits limit s = (texts s.reversed_messages ≡ s.consumed) × (s.consumed ≤ limit)

pub texts-append :
    (xs ys : List (ConversationMessage × String)) → texts (xs ++ ys) ≡ texts xs + texts ys
texts-append [] ys = omega arith
texts-append (x ∷ xs) ys = omega (arith, texts-append xs ys)

add-Fits :
    (limit : ℕ) (m : ConversationMessage) (content : String) (s : Selected)
    → text_length content ≤ limit - s.consumed
    → Fits limit s
    → Fits limit (add_message m content s)
unfolding add_message
add-Fits limit m content s h (count, below) = (
  omega (arith, count, texts-append s.reversed_messages ((m, content) ∷ [])),
  omega (arith, h, below),
)

last_text-short : (n : ℕ) (s : String) → text_length (last_text n s) ≤ n
unfolding last_text
last_text-short n s = omega (arith, text_length-drop_text (text_length s - n) s)

-- A step adds at most one message, at the end, and a first message is always added.
abbrev Grows : ConversationMessage → Selected → Selected → Type 0
Grows m s next =
    (added : List (ConversationMessage × String)) × (next.reversed_messages
      ≡ s.reversed_messages ++ added)
    × (length added ≤ 1)
    × (s.reversed_messages ≡ [] → (content : String) × (added ≡ (m, content) ∷ []))

add_long_step :
    (limit : ℕ) (m : ConversationMessage) (content : String) (s : Selected)
    (known : List (ConversationMessage × String))
    → s.reversed_messages ≡ known
    → Fits limit s
    → Fits limit (add_long known (limit - s.consumed) m content s)
      × Grows m s (add_long known (limit - s.consumed) m content s)
unfolding add_long
add_long_step limit m content s [] e h =
    let cut = last_text (limit - s.consumed) content in
    (
      add-Fits limit m cut s (last_text-short (limit - s.consumed) content) h,
      ((m, cut) ∷ [], refl, omega arith, λ first. (cut, refl)),
    )
add_long_step limit m content s (x ∷ xs) e h =
    (h, ([], sym (append-nil s.reversed_messages), omega arith, λ first. absurd (cc (e, first))))

message_step :
    (redacted_text : String → String) (limit : ℕ) (m : ConversationMessage) (s next : Selected)
    → select_message redacted_text limit m s ≡ some next
    → Fits limit s
    → Fits limit next × Grows m s next
unfolding select_message
message_step redacted_text limit m s next e h =
    let content = redacted_text (strip m.content) in
    elim (Bool-cases (eqb (limit - s.consumed) 0)) [
      | inl over ↦ absurd (cc (rw over at e))
      | inr room ↦ elim (Bool-cases (ltb (limit - s.consumed) (text_length content))) [
        | inl long ↦
            let same : add_long s.reversed_messages (limit - s.consumed) m content s ≡ next =
              cc (rw room at (rw long at e)) in
            subst (λ x. Fits limit x × Grows m s x) same
              (add_long_step limit m content s s.reversed_messages refl h)
        | inr short ↦
            let same : add_message m content s ≡ next = cc (rw room at (rw short at e)) in
            subst (λ x. Fits limit x × Grows m s x) same
              (
                add-Fits limit m content s (ground arith) h,
                ((m, content) ∷ [], refl, omega arith, λ first. (content, refl)),
              )
      ]
    ]

length-append : {A : Type 0} (xs ys : List A) → length (xs ++ ys) ≡ length xs + length ys
length-append [] ys = omega arith
length-append (x ∷ xs) ys = omega (arith, length-append xs ys)

goes_on :
    (redacted_text : String → String) (limit : ℕ) (m : ConversationMessage)
    (ms : List ConversationMessage) (s next : Selected)
    → select_message redacted_text limit m s ≡ some next
    → select_messages redacted_text limit (m ∷ ms) s ≡ select_messages redacted_text limit ms next
unfolding select_messages
goes_on redacted_text limit m ms s next e = rw (e, select_messages) refl

breaks :
    (redacted_text : String → String) (limit : ℕ) (m : ConversationMessage)
    (ms : List ConversationMessage) (s : Selected)
    → select_message redacted_text limit m s ≡ none
    → select_messages redacted_text limit (m ∷ ms) s ≡ s
unfolding select_messages
breaks redacted_text limit m ms s e = rw (e, select_messages) refl

-- The loop keeps what it has, and adds at most one message for each.
pub loop_step :
    (redacted_text : String → String) (limit : ℕ) (ms : List ConversationMessage) (s : Selected)
    → Fits limit s
    → let done = select_messages redacted_text limit ms s in
      Fits limit done
      × ((added : List (ConversationMessage × String)) × (done.reversed_messages
            ≡ s.reversed_messages ++ added)
          × (length added ≤ length ms))
unfolding select_messages
loop_step redacted_text limit [] s h = (h, ([], sym (append-nil s.reversed_messages), omega arith))
loop_step redacted_text limit (m ∷ ms) s h =
    elim (Option-cases (select_message redacted_text limit m s)) [
      | inl stop ↦
          rw (breaks redacted_text limit m ms s stop)
            (h, ([], sym (append-nil s.reversed_messages), omega arith))
      | inr (next, e) ↦
          let (fits, (one, grown, few, first)) = message_step redacted_text limit m s next e h in
          let (fits', (more, grown', few')) = loop_step redacted_text limit ms next fits in
          rw (goes_on redacted_text limit m ms s next e) (
            fits',
            (
              one ++ more,
              grown' ∙ ap (λ l. l ++ more) grown ∙ append_assoc s.reversed_messages one more,
              omega (arith, few, few', length-append one more),
            ),
          )
    ]

unfoldable pub starts : Selected
starts = record { reversed_messages = []; consumed = 0 }

some_room : (limit : ℕ) → 1 ≤ limit → eqb (limit - 0) 0 ≡ false
some_room limit h = ground arith

room_at_first :
    (redacted_text : String → String) (limit : ℕ) (m : ConversationMessage)
    → 1 ≤ limit
    → (next : Selected) × (select_message redacted_text limit m starts ≡ some next)
unfolding select_message starts add_long
room_at_first redacted_text limit m h =
    let content = redacted_text (strip m.content) in
    elim (Bool-cases (ltb (limit - 0) (text_length content))) [
      | inl long ↦
          (add_message m (last_text (limit - 0) content) starts, rw (some_room limit h, long) refl)
      | inr short ↦ (add_message m content starts, rw (some_room limit h, short) refl)
    ]

-- The newest message is the first that the loop selects.
pub loop_first :
    (redacted_text : String → String) (limit : ℕ) (m : ConversationMessage)
    (ms : List ConversationMessage)
    → 1 ≤ limit
    → (content : String) × (added : List (ConversationMessage × String)) × ((select_messages
          redacted_text limit
          (m ∷ ms)
          starts).reversed_messages
        ≡ (m, content) ∷ added)
unfolding select_messages starts
loop_first redacted_text limit m ms h =
    let (next, e) = room_at_first redacted_text limit m h in
    let (fits, (one, grown, few, first)) =
      message_step redacted_text limit m starts next e (refl, omega arith) in
    let (content, only) = first refl in
    let (fits', (more, grown', few')) = loop_step redacted_text limit ms next fits in
    rw (goes_on redacted_text limit m ms starts next e) (content, more, rw (grown', grown, only))
