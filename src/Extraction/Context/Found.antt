-- ===== src/Extraction/Context/Found.antt =====
-- A message that a pattern of telecom_extraction/context.py (src/saas_platform/modules) matches has a
-- deterministic control.
use mathlib.Core.List.Memᴰ
use plataforma_saa_s_de_auto.Prelude.{
  true, ◌≡◌, refl, sym, ap, ◌∙◌, subst, inl, inr, String, Option, none, some, List, [], ◌∷◌, ◌++◌,
  map, Memᴰ, All, All-mem, All-append, ◌==◌, eq_of_true, Bool-cases, Option-cases,
}
use plataforma_saa_s_de_auto.Prelude.Dict.{
  Dict, get, put, get-put_self, get-put_ne, All-put, mem_of_get, mem-values,
}
use plataforma_saa_s_de_auto.Errors.{ok, for_each, >>-ok}
use plataforma_saa_s_de_auto.Foundation.{hundredths}
use plataforma_saa_s_de_auto.Extraction.Vocabulary.{SpecialControl, special_control_eq}
use plataforma_saa_s_de_auto.Extraction.Domain.{
  SpecialControlFinding, special_control_finding_post_init,
}
use plataforma_saa_s_de_auto.Extraction.Command.{ConversationMessage}
use plataforma_saa_s_de_auto.Extraction.Context.Patterns.{Pattern}
use plataforma_saa_s_de_auto.Extraction.Context.Controls.{
  control_patterns, first_match, finding_of, message_findings, findings_of, by_control, controls,
}

-- A finding that stands for sure.
abbrev pub IsCertain : SpecialControlFinding → Type 0
IsCertain f = (f.deterministic ≡ true) × (f.confidence ≡ hundredths 100)

abbrev Table : Type 0
Table = Dict SpecialControl SpecialControlFinding

abbrev IsOwn : SpecialControl × SpecialControlFinding → Type 0
IsOwn x = (x.1.control ≡ x.0) × IsCertain x.1

-- The table has a finding of this control.
abbrev Has : SpecialControl → Table → Type 0
Has c d = (g : SpecialControlFinding) × (get c d ≡ some g)

mem_right : {A : Type 0} (x : A) (xs ys : List A) → Memᴰ x ys → Memᴰ x (xs ++ ys)
mem_right x [] ys m = m
mem_right x (y ∷ xs) ys m = Memᴰ.tail (mem_right x xs ys m)

mem_left : {A : Type 0} (x : A) (xs ys : List A) → Memᴰ x xs → Memᴰ x (xs ++ ys)
mem_left x [] ys m = elim m [ ]
mem_left x (y ∷ xs) ys (Memᴰ.head e) = Memᴰ.head e
mem_left x (y ∷ xs) ys (Memᴰ.tail m) = Memᴰ.tail (mem_left x xs ys m)

module _ (search : Pattern → String → Option String) where
  first_match_finds :
      (q : Pattern) (t : String) (ps : List Pattern) (content : String)
      → Memᴰ q ps
      → search q content ≡ some t
      → (found : String) × (first_match search ps content ≡ some found)
  unfolding first_match
  first_match_finds q t [] content m e = elim m [ ]
  first_match_finds q t (p ∷ ps) content m e = elim (Option-cases (search p content)) [
    | inr (u, here) ↦ (u, rw (here, first_match) refl)
    | inl none_here ↦ elim (Memᴰ.cases_cons m) [
      | inl same ↦ absurd (cc (e, none_here, ap (λ x. search x content) same))
      | inr later ↦
          let (found, there) = first_match_finds q t ps content later e in
          (found, rw (none_here, first_match) there)
    ]
  ]

  finding_of-IsCertain :
      (c : SpecialControl) (m : ConversationMessage) (o : Option String)
      → All IsCertain (finding_of search c m o)
  unfolding finding_of
  finding_of-IsCertain c m none = tt
  finding_of-IsCertain c m (some found) = ((refl, refl), tt)

  message_findings-IsCertain :
      (ps : List (SpecialControl × List Pattern)) (m : ConversationMessage)
      → All IsCertain (message_findings search ps m)
  unfolding message_findings
  message_findings-IsCertain [] m = tt
  message_findings-IsCertain ((c, es) ∷ ps) m =
      All-append IsCertain (finding_of search c m (first_match search es m.content))
        (message_findings search ps m) (finding_of-IsCertain c m (first_match search es m.content))
        (message_findings-IsCertain ps m)

  findings_of-IsCertain : (ms : List ConversationMessage) → All IsCertain (findings_of search ms)
  unfolding findings_of
  findings_of-IsCertain [] = tt
  findings_of-IsCertain (m ∷ ms) =
      All-append IsCertain (message_findings search control_patterns m) (findings_of search ms)
        (message_findings-IsCertain control_patterns m) (findings_of-IsCertain ms)

  -- A pattern of the control that matches the message.
  abbrev pub Matches : SpecialControl → ConversationMessage → Type 0
  Matches c m =
      (expressions : List Pattern) × (q : Pattern) × (t : String) × Memᴰ (c, expressions)
        control_patterns
      × Memᴰ q expressions
      × (search q m.content ≡ some t)

  message_finds :
      (ps : List (SpecialControl × List Pattern)) (c : SpecialControl) (es : List Pattern)
      (q : Pattern) (t : String) (m : ConversationMessage)
      → Memᴰ (c, es) ps
      → Memᴰ q es
      → search q m.content ≡ some t
      → (f : SpecialControlFinding) × Memᴰ f (message_findings search ps m) × (f.control ≡ c)
  unfolding message_findings finding_of
  message_finds [] c es q t m there inside e = elim there [ ]
  message_finds ((b, ds) ∷ ps) c es q t m (Memᴰ.head same) inside e =
      let (found, first) =
        first_match_finds q t ds m.content
          (subst (λ l. Memᴰ q l) (ap (λ (x : SpecialControl × List Pattern). x.1) same) inside) e in
      rw first (_, Memᴰ.head refl, sym (ap (λ (x : SpecialControl × List Pattern). x.0) same))
  message_finds ((b, ds) ∷ ps) c es q t m (Memᴰ.tail there) inside e =
      let (f, mem, own) = message_finds ps c es q t m there inside e in
      (f, mem_right f (finding_of search b m (first_match search ds m.content)) _ mem, own)

  findings_find :
      (c : SpecialControl) (m : ConversationMessage) (ms : List ConversationMessage)
      → Memᴰ m ms
      → Matches c m
      → (f : SpecialControlFinding) × Memᴰ f (findings_of search ms) × (f.control ≡ c)
  unfolding findings_of
  findings_find c m [] there h = elim there [ ]
  findings_find c m (n ∷ ms) (Memᴰ.head same) (es, q, t, listed, inside, e) =
      let (f, mem, own) =
        message_finds control_patterns c es q t n listed inside
          (subst (λ (x : ConversationMessage). search q x.content ≡ some t) same e) in
      (f, mem_left f (message_findings search control_patterns n) _ mem, own)
  findings_find c m (n ∷ ms) (Memᴰ.tail there) h =
      let (f, mem, own) = findings_find c m ms there h in
      (f, mem_right f (message_findings search control_patterns n) _ mem, own)

  by_control-IsOwn :
      (fs : List SpecialControlFinding) (d : Table)
      → All IsCertain fs
      → All IsOwn d
      → All IsOwn (by_control search fs d)
  unfolding by_control
  by_control-IsOwn [] d h k = k
  by_control-IsOwn (f ∷ fs) d h k =
      by_control-IsOwn fs (put f.control f d) h.1 (All-put IsOwn f.control f d (refl, h.0) k)

  by_control-Has :
      (c : SpecialControl) (fs : List SpecialControlFinding) (d : Table)
      → Has c d
      → Has c (by_control search fs d)
  unfolding by_control
  by_control-Has c [] d h = h
  by_control-Has c (f ∷ fs) d (g, e) =
      by_control-Has c fs (put f.control f d) (elim (Bool-cases (c == f.control)) [
        | inl t ↦ (
          f,
          subst (λ k. get k (put f.control f d) ≡ some f) (sym (eq_of_true c f.control t))
              (get-put_self f.control f d),
        )
        | inr n ↦ (g, get-put_ne c f.control f d n ∙ e)
      ])

  by_control_finds :
      (f : SpecialControlFinding) (fs : List SpecialControlFinding) (d : Table)
      → Memᴰ f fs
      → Has f.control (by_control search fs d)
  unfolding by_control
  by_control_finds f [] d m = elim m [ ]
  by_control_finds f (g ∷ fs) d (Memᴰ.head e) = by_control-Has f.control fs (put g.control g d) (
    g,
    subst (λ (x : SpecialControlFinding). get x.control (put g.control g d) ≡ some g) (sym e)
        (get-put_self g.control g d),
  )
  by_control_finds f (g ∷ fs) d (Memᴰ.tail m) = by_control_finds f fs (put g.control g d) m

  -- A message that a pattern of a control matches gives a certain finding of that control.
  pub controls_found :
      (c : SpecialControl) (m : ConversationMessage) (ms : List ConversationMessage)
      (found : List SpecialControlFinding)
      → controls search ms ≡ ok found
      → Memᴰ m ms
      → Matches c m
      → (f : SpecialControlFinding) × Memᴰ f found × (f.control ≡ c) × IsCertain f
  unfolding controls
  controls_found c m ms found h there match =
      let findings = findings_of search ms in
      let (valid, last) = >>-ok (for_each special_control_finding_post_init findings) _ h in
      let d = by_control search findings [] in
      let same : map (λ (x : SpecialControl × SpecialControlFinding). x.1) d ≡ found = cc last in
      let (f, mem, own) = findings_find c m ms there match in
      let (g, e) = by_control_finds f findings [] mem in
      let entry = mem_of_get f.control g d e in
      let (mine, certain) =
        All-mem IsOwn (f.control, g) d (by_control-IsOwn findings [] (findings_of-IsCertain ms) tt)
          entry in
      (g, subst (λ l. Memᴰ g l) same (mem-values f.control g d entry), mine ∙ own, certain)
