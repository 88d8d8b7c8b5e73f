-- ===== src/Extraction/Context/Newest.antt =====
-- The newest message is the first that the selection of telecom_extraction/context.py
-- (src/saas_platform/modules) looks at.
use mathlib.Core.List.Memᴰ
use plataforma_saa_s_de_auto.Prelude.{
  ℕ, zero, suc, ◌+◌, ◌-◌, ◌≤◌, leb, Bool, true, false, ◌≡◌, refl, sym, ap, ◌∙◌, subst, inl, inr,
  ◌⊎◌, List, [], ◌∷◌, ◌++◌, Memᴰ, filter, length, All-mem, Bool-cases, arith,
}
use plataforma_saa_s_de_auto.Prelude.Sort.{
  sort_by, IsWeakOrder, IsSorted, sort_by-IsSorted, mem-sort_by, mem_of_mem-sort_by,
}
use plataforma_saa_s_de_auto.Foundation.{DateTime}
use plataforma_saa_s_de_auto.Extraction.Command.{ConversationMessage, ContextLimits}
use plataforma_saa_s_de_auto.Extraction.Context.Selection.{
  reversed, drop, last_items, sent_before, cutoff, or_newest, eligible_messages,
}

module _ {A : Type 0} where
  pub reversed-append_one : (xs : List A) (x : A) → reversed (xs ++ (x ∷ [])) ≡ x ∷ reversed xs
  unfolding reversed
  reversed-append_one [] x = refl
  reversed-append_one (y ∷ xs) x = ap (λ l. l ++ (y ∷ [])) (reversed-append_one xs x)

  last_of : (x : A) (xs : List A) → (ys : List A) × (z : A) × (x ∷ xs ≡ ys ++ (z ∷ []))
  last_of x [] = ([], x, refl)
  last_of x (y ∷ xs) = let (ys, z, e) = last_of y xs in (x ∷ ys, z, ap (λ l. x ∷ l) e)

  last_cases : (xs : List A) → (xs ≡ []) ⊎ ((ys : List A) × (z : A) × (xs ≡ ys ++ (z ∷ [])))
  last_cases [] = inl refl
  last_cases (x ∷ xs) = inr (last_of x xs)

  drop_few :
      (k : ℕ) (ys : List A) (z : A)
      → k ≤ length ys
      → drop k (ys ++ (z ∷ [])) ≡ drop k ys ++ (z ∷ [])
  unfolding drop
  drop_few zero ys z h = refl
  drop_few (suc k) [] z h = absurd (omega (arith, h))
  drop_few (suc k) (y ∷ ys) z h = drop_few k ys z (omega (arith, h))

  length_append_one : (ys : List A) (z : A) → length (ys ++ (z ∷ [])) ≡ length ys + 1
  length_append_one [] z = refl
  length_append_one (y ∷ ys) z = omega (arith, length_append_one ys z)

  last_items_keeps :
      (n : ℕ) (ys : List A) (z : A)
      → 1 ≤ n
      → (xs : List A) × (last_items n (ys ++ (z ∷ [])) ≡ xs ++ (z ∷ []))
  unfolding last_items
  last_items_keeps n ys z h =
      let k = length (ys ++ (z ∷ [])) - n in
      (drop k ys, drop_few k ys z (omega (arith, h, length_append_one ys z)))

  length-drop : (k : ℕ) (xs : List A) → length (drop k xs) ≡ length xs - k
  unfolding drop
  length-drop zero xs = omega arith
  length-drop (suc k) [] = omega arith
  length-drop (suc k) (x ∷ xs) = omega (arith, length-drop k xs)

  length-last_items : (n : ℕ) (xs : List A) → length (last_items n xs) ≤ n
  unfolding last_items
  length-last_items n xs = omega (arith, length-drop (length xs - n) xs)

  pub length-reversed : (xs : List A) → length (reversed xs) ≡ length xs
  unfolding reversed
  length-reversed [] = refl
  length-reversed (x ∷ xs) = omega (arith, length_append_one (reversed xs) x, length-reversed xs)

  mem_last : (ys : List A) (z : A) → Memᴰ z (ys ++ (z ∷ []))
  mem_last [] z = Memᴰ.head refl
  mem_last (y ∷ ys) z = Memᴰ.tail (mem_last ys z)

  -- In a sorted list nothing comes after the last element.
  sorted_last :
      (lt : A → A → Bool)
      → IsWeakOrder lt
      → (ys : List A) (z : A) (m : A) → IsSorted lt (ys ++ (z ∷ []))
      → Memᴰ m (ys ++ (z ∷ []))
      → lt z m ≡ false
  sorted_last lt w [] z m h mem = elim (Memᴰ.cases_cons mem) [
    | inl e ↦
        subst (λ x. lt z x ≡ false) (sym e)
          (elim (Bool-cases (lt z z)) [ inl t ↦ w.asymm z z t | inr f ↦ f ])
    | inr none_there ↦ elim none_there [ ]
  ]
  sorted_last lt w (y ∷ ys) z m h (Memᴰ.head e) =
      subst (λ x. lt z x ≡ false) (sym e)
        (All-mem (λ x. lt x y ≡ false) z (ys ++ (z ∷ [])) h.0 (mem_last ys z))
  sorted_last lt w (y ∷ ys) z m h (Memᴰ.tail there) = sorted_last lt w ys z m h.1 there

  filter_last :
      (p : A → Bool) (ys : List A) (z : A)
      → p z ≡ true
      → (xs : List A) × (filter p (ys ++ (z ∷ [])) ≡ xs ++ (z ∷ []))
  unfolding filter
  filter_last p [] z h = ([], rw h)
  filter_last p (y ∷ ys) z h =
      let (xs, e) = filter_last p ys z h in
      elim (Bool-cases (p y)) [ inl t ↦ (y ∷ xs, rw t (ap (λ l. y ∷ l) e)) | inr f ↦ (xs, rw f e) ]

  filter_none :
      (p : A → Bool) (xs : List A) → ((x : A) → Memᴰ x xs → p x ≡ false) → filter p xs ≡ []
  unfolding filter
  filter_none p [] h = refl
  filter_none p (x ∷ xs) h = rw (h x (Memᴰ.head refl)) (filter_none p xs (λ y m. h y (Memᴰ.tail m)))

sent_before-IsWeakOrder : IsWeakOrder sent_before
unfolding sent_before
sent_before-IsWeakOrder = record {
  asymm = λ a b h. ground arith;
  not_trans = λ a b c h k. ground arith;
}

or_newest-append_one :
    (chronological xs : List ConversationMessage) (z : ConversationMessage)
    → or_newest chronological (xs ++ (z ∷ [])) ≡ xs ++ (z ∷ [])
unfolding or_newest
or_newest-append_one chronological [] z = refl
or_newest-append_one chronological (x ∷ xs) z = refl

all_old :
    (limit : ℕ) (z m : ConversationMessage)
    → leb limit z.sent_at.instant ≡ false
    → sent_before z m ≡ false
    → leb limit m.sent_at.instant ≡ false
unfolding sent_before
all_old limit z m f n = ground arith

-- What is eligible of sorted messages ends with the last of them.
or_newest_last :
    (limit : ℕ) (ys : List ConversationMessage) (z : ConversationMessage)
    → ((m : ConversationMessage) → Memᴰ m (ys ++ (z ∷ [])) → sent_before z m ≡ false)
    → (xs : List ConversationMessage) × (or_newest
          (ys ++ (z ∷ []))
          (filter (λ item. leb limit item.sent_at.instant) (ys ++ (z ∷ [])))
        ≡ xs ++ (z ∷ []))
unfolding or_newest last_items
or_newest_last limit ys z newest =
    let recent = λ (item : ConversationMessage). leb limit item.sent_at.instant in
    elim (Bool-cases (recent z)) [
      | inl t ↦
          let (xs, e) = filter_last recent ys z t in
          (xs, ap (or_newest (ys ++ (z ∷ []))) e ∙ or_newest-append_one (ys ++ (z ∷ [])) xs z)
      | inr f ↦
          let old =
            filter_none recent (ys ++ (z ∷ [])) (λ m there. all_old limit z m f (newest m there)) in
          let (xs, e) = last_items_keeps 1 ys z (omega arith) in
          (xs, ap (or_newest (ys ++ (z ∷ []))) old ∙ e)
    ]

-- Of some messages, the selection looks first at one that none was sent after.
pub newest_first :
    (limits : ContextLimits) (now : DateTime) (m : ConversationMessage)
    (messages : List ConversationMessage)
    → 1 ≤ limits.max_messages
    → (z : ConversationMessage) × (rest : List ConversationMessage) × (reversed
          (eligible_messages limits now (m ∷ messages))
        ≡ z ∷ rest)
      × Memᴰ z (m ∷ messages)
      × ((n : ConversationMessage) → Memᴰ n (m ∷ messages) → sent_before z n ≡ false)
unfolding eligible_messages
newest_first limits now m messages some_allowed =
    let all = m ∷ messages in
    let sorted = sort_by sent_before all in
    elim (last_cases sorted) [
      | inl e ↦ elim (subst (λ l. Memᴰ m l) e (mem-sort_by sent_before m all (Memᴰ.head refl))) [ ]
      | inr (ys, z, e) ↦
          let latest = λ (n : ConversationMessage) (there : Memᴰ n (ys ++ (z ∷ []))).
            sorted_last sent_before sent_before-IsWeakOrder ys z n
              (subst (IsSorted sent_before) e
                (sort_by-IsSorted sent_before sent_before-IsWeakOrder all))
              there in
          let (xs, kept) = or_newest_last (cutoff now limits) ys z latest in
          let (ws, last) = last_items_keeps limits.max_messages xs z some_allowed in
          (
            z,
            reversed ws,
            rw (e, kept, last) (reversed-append_one ws z),
            mem_of_mem-sort_by sent_before z all (subst (λ l. Memᴰ z l) (sym e) (mem_last ys z)),
            λ n there. latest n (subst (λ l. Memᴰ n l) e (mem-sort_by sent_before n all there)),
          )
    ]

-- No more messages are eligible than the greatest number of messages.
pub eligible_messages-bounded :
    (limits : ContextLimits) (now : DateTime) (messages : List ConversationMessage)
    → length (eligible_messages limits now messages) ≤ limits.max_messages
unfolding eligible_messages
eligible_messages-bounded limits now messages = length-last_items limits.max_messages _
