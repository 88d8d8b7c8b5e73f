-- ===== src/Extraction/AcceptedControls.antt =====
-- Which findings of a control count: `_accepted_controls` of telecom_extraction/processing.py
-- (src/saas_platform/modules) keeps for each control the one of most confidence.
use plataforma_saa_s_de_auto.Prelude.{
  true, false, ◌≡◌, refl, sym, ◌∙◌, subst, inl, inr, Option, none, some, List, [], ◌∷◌, Memᴰ, All,
  All-mem, filter, mem-filter_of_mem, ◌==◌, eq_of_true, Bool-cases, arith, ◌≤ℤ◌, ltb_ℤ→≤, ltb_ℤ→<,
}
use plataforma_saa_s_de_auto.Prelude.Dict.{
  get, put, get-put_self, get-put_ne, All-put, NoRepeat, put-NoRepeat, get_of_mem, mem_of_get,
  mem-values, mem_of_mem-values,
}
use plataforma_saa_s_de_auto.Foundation.{Decimal}
use plataforma_saa_s_de_auto.Extraction.Vocabulary.{SpecialControl, special_control_eq}
use plataforma_saa_s_de_auto.Extraction.Domain.{SpecialControlFinding}
use plataforma_saa_s_de_auto.Extraction.Confidence.{ConfidencePolicy}
use plataforma_saa_s_de_auto.Extraction.Decisions.Accept.{
  ByControl, is_accepted_control, outweighs, keep_control, keep_controls, accepted_controls,
}

-- The table of controls has each control once, under its own key.
record IsKeyed (d : ByControl) : Type 0 where
  once : NoRepeat d
  own : All (λ (x : SpecialControl × SpecialControlFinding). x.1.control ≡ x.0) d

-- The table has a finding of this control of at least this confidence.
abbrev Weighs : SpecialControl → Decimal → ByControl → Type 0
Weighs c x d = (g : SpecialControlFinding) × (get c d ≡ some g) × (x ≤ℤ g.confidence)

put-IsKeyed : (f : SpecialControlFinding) (d : ByControl) → IsKeyed d → IsKeyed (put f.control f d)
put-IsKeyed f d h = record {
  once = put-NoRepeat f.control f d h.once;
  own =
      All-put (λ (x : SpecialControl × SpecialControlFinding). x.1.control ≡ x.0) f.control f d refl
        h.own;
}

keep-IsKeyed : (f : SpecialControlFinding) (d : ByControl) → IsKeyed d → IsKeyed (keep_control f d)
unfolding keep_control
keep-IsKeyed f d h = elim (Bool-cases (outweighs f (get f.control d))) [
  | inl t ↦ rw t (put-IsKeyed f d h)
  | inr n ↦ rw n h
]

lighter :
    (f g : SpecialControlFinding) (o : Option SpecialControlFinding)
    → o ≡ some g
    → outweighs f o ≡ true
    → g.confidence ≤ℤ f.confidence
unfolding outweighs
lighter f g none e h = cc
lighter f g (some existing) e h =
    let same : existing ≡ g = cc e in
    subst (λ (x : SpecialControlFinding). x.confidence ≤ℤ f.confidence) same
      (ground (arith, ltb_ℤ→< existing.confidence f.confidence h))

keep-Weighs :
    (c : SpecialControl) (x : Decimal) (f : SpecialControlFinding) (d : ByControl)
    → Weighs c x d
    → Weighs c x (keep_control f d)
unfolding keep_control
keep-Weighs c x f d (g, there, enough) = elim (Bool-cases (outweighs f (get f.control d))) [
  | inl t ↦ rw t (elim (Bool-cases (c == f.control)) [
    | inl same ↦
        let p = eq_of_true c f.control same in
        let least = lighter f g (get f.control d) (subst (λ k. get k d ≡ some g) p there) t in
        (
          f,
          subst (λ k. get k (put f.control f d) ≡ some f) (sym p) (get-put_self f.control f d),
          omega (arith, enough, least),
        )
    | inr other ↦ (g, get-put_ne c f.control f d other ∙ there, enough)
  ])
  | inr n ↦ rw n (g, there, enough)
]

step-Weighs :
    (f : SpecialControlFinding) (d : ByControl) → Weighs f.control f.confidence (keep_control f d)
unfolding keep_control
step-Weighs f d = elim (Bool-cases (outweighs f (get f.control d))) [
  | inl t ↦ rw t (f, get-put_self f.control f d, omega arith)
  | inr n ↦ rw n (heavier f (get f.control d) refl n)
]
  where
    heavier :
        (f : SpecialControlFinding) (o : Option SpecialControlFinding)
        → get f.control d ≡ o
        → outweighs f o ≡ false
        → Weighs f.control f.confidence d
    heavier f none e h = cc
    heavier f (some g) e h = (g, e, ltb_ℤ→≤ g.confidence f.confidence h)

loop-IsKeyed :
    (fs : List SpecialControlFinding) (d : ByControl) → IsKeyed d → IsKeyed (keep_controls fs d)
unfolding keep_controls
loop-IsKeyed [] d h = h
loop-IsKeyed (f ∷ fs) d h = loop-IsKeyed fs (keep_control f d) (keep-IsKeyed f d h)

loop-Weighs :
    (c : SpecialControl) (x : Decimal) (fs : List SpecialControlFinding) (d : ByControl)
    → Weighs c x d
    → Weighs c x (keep_controls fs d)
unfolding keep_controls
loop-Weighs c x [] d w = w
loop-Weighs c x (f ∷ fs) d w = loop-Weighs c x fs (keep_control f d) (keep-Weighs c x f d w)

loop_finds :
    (f : SpecialControlFinding) (fs : List SpecialControlFinding) (d : ByControl)
    → Memᴰ f fs
    → Weighs f.control f.confidence (keep_controls fs d)
unfolding keep_controls
loop_finds f [] d m = elim m [ ]
loop_finds f (g ∷ fs) d (Memᴰ.head e) =
    loop-Weighs f.control f.confidence fs (keep_control g d)
      (subst (λ x. Weighs f.control f.confidence (keep_control x d)) e (step-Weighs f d))
loop_finds f (g ∷ fs) d (Memᴰ.tail m) = loop_finds f fs (keep_control g d) m

-- A deterministic finding, or one of enough confidence, has its control among the accepted ones,
-- and every accepted finding of the control has at least its confidence.
pub accepted_controls_heaviest :
    (p : ConfidencePolicy) (controls : List SpecialControlFinding) (f : SpecialControlFinding)
    → Memᴰ f controls
    → is_accepted_control p f ≡ true
    → ((g : SpecialControlFinding) × Memᴰ g (accepted_controls p controls)
        × (g.control ≡ f.control))
      × ((g : SpecialControlFinding)
          → Memᴰ g (accepted_controls p controls)
          → g.control ≡ f.control
          → f.confidence ≤ℤ g.confidence)
unfolding accepted_controls
accepted_controls_heaviest p controls f m fit =
    let eligible = filter (is_accepted_control p) controls in
    let d = keep_controls eligible [] in
    let keyed = loop-IsKeyed eligible [] (record { once = tt; own = tt }) in
    let (g, there, enough) =
      loop_finds f eligible [] (mem-filter_of_mem (is_accepted_control p) f controls m fit) in
    let entry = mem_of_get f.control g d there in
    let Own = λ (x : SpecialControl × SpecialControlFinding). x.1.control ≡ x.0 in
    (
      (g, mem-values f.control g d entry, All-mem Own (f.control, g) d keyed.own entry),
      λ h n same.
          let (c, e) = mem_of_mem-values h d n in
          let own = All-mem Own (c, h) d keyed.own e in
          let found = get_of_mem c h d keyed.once e in
          let one : h ≡ g = cc (there, subst (λ k. get k d ≡ some h) (sym own ∙ same) found) in
          subst (λ (x : SpecialControlFinding). f.confidence ≤ℤ x.confidence) (sym one) enough,
    )
