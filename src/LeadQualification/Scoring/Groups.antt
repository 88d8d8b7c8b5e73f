-- ===== src/LeadQualification/Scoring/Groups.antt =====
-- The lists of `groups` in `_select_criteria` of lead_qualification/scoring.py.
use mathlib.Core.List.Memᴰ
use plataforma_saa_s_de_auto.Prelude.{
  Bool, true, false, ◌&&◌, ◌≡◌, refl, sym, ◌∙◌, ap, subst, inl, inr, String, Option, none, some,
  List, [], ◌∷◌, ◌++◌, Memᴰ, All, All-append, Bool-cases, and-true, true-and, ◌==◌, eq_of_true,
  eq_self, string_eq, option_eq, eq_symm,
}
use plataforma_saa_s_de_auto.LeadQualification.Vocabulary.{ScoreDimension, score_dimension_eq}
use plataforma_saa_s_de_auto.LeadQualification.Policy.{ScoringCriterion}
use plataforma_saa_s_de_auto.LeadQualification.Scoring.Criteria.{
  GroupKey, in_group, add_to_group, group_criteria,
}

abbrev pub Group : Type 0
Group = GroupKey × List ScoringCriterion

unfoldable pub same_key : GroupKey → GroupKey → Bool
same_key (d, g) (e, h) = d == e && g == h

-- The members of a group carry its dimension and its name.
abbrev pub MembersFit : List Group → Type 0
MembersFit = All (λ e. All (λ c. in_group e.0.0 e.0.1 c ≡ true) e.1)

-- No two groups have one key.
abbrev pub KeysDiffer : List Group → Type 0
KeysDiffer [] = Unit
KeysDiffer (e ∷ gs) = All (λ f. same_key e.0 f.0 ≡ false) gs × KeysDiffer gs

-- A group with this dimension and name has the criterion.
abbrev pub Holds : ScoringCriterion → String → List Group → Type 0
Holds c g gs = (e : Group) × Memᴰ e gs × Memᴰ c e.1 × (same_key (c.dimension, g) e.0 ≡ true)

in_own_group :
    (c : ScoringCriterion) (g : String)
    → c.exclusive_group ≡ some g
    → in_group c.dimension g c ≡ true
unfolding in_group
in_own_group c g e = rw (e, eq_self c.dimension) (eq_self (some g))

in_same_group :
    (c : ScoringCriterion) (g : String) (d : ScoreDimension) (h : String)
    → c.exclusive_group ≡ some g
    → (c.dimension == d && g == h) ≡ true
    → in_group d h c ≡ true
in_same_group c g d h e t =
    let (p, q) = and-true _ _ t in
    subst (λ x. in_group x h c ≡ true) (eq_of_true c.dimension d p)
      (in_own_group c h (e ∙ ap some (eq_of_true g h q)))

add_to_group-MembersFit :
    (c : ScoringCriterion) (g : String) (gs : List Group)
    → c.exclusive_group ≡ some g
    → MembersFit gs
    → MembersFit (add_to_group c (some g) gs)
unfolding add_to_group
add_to_group-MembersFit c g [] e h = ((in_own_group c g e, tt), tt)
add_to_group-MembersFit c g (((d, k), values) ∷ gs) e h =
    elim (Bool-cases (c.dimension == d && g == k)) [
      | inl t ↦ rw t (
        All-append (λ x. in_group d k x ≡ true) values (c ∷ []) h.0 (in_same_group c g d k e t, tt),
        h.1,
      )
      | inr f ↦ rw f (h.0, add_to_group-MembersFit c g gs e h.1)
    ]

add_keeps_apart :
    (key : GroupKey) (c : ScoringCriterion) (g : String) (gs : List Group)
    → same_key key (c.dimension, g) ≡ false
    → All (λ f. same_key key f.0 ≡ false) gs
    → All (λ f. same_key key f.0 ≡ false) (add_to_group c (some g) gs)
unfolding add_to_group
add_keeps_apart key c g [] n h = (n, tt)
add_keeps_apart key c g (((d, k), values) ∷ gs) n h =
    elim (Bool-cases (c.dimension == d && g == k)) [
      | inl t ↦ rw t h
      | inr f ↦ rw f (h.0, add_keeps_apart key c g gs n h.1)
    ]

same_key_symm : (a b : GroupKey) → same_key a b ≡ false → same_key b a ≡ false
unfolding same_key
same_key_symm (d, g) (e, h) n = elim (Bool-cases (e == d && h == g)) [
  | inl t ↦
      let (p, q) = and-true (e == d) (h == g) t in cc (true-and _ _ (eq_symm e d p) (eq_symm h g q))
  | inr f ↦ f
]

add_to_group-KeysDiffer :
    (c : ScoringCriterion) (g : String) (gs : List Group)
    → KeysDiffer gs
    → KeysDiffer (add_to_group c (some g) gs)
unfolding add_to_group same_key
add_to_group-KeysDiffer c g [] h = (tt, tt)
add_to_group-KeysDiffer c g (((d, k), values) ∷ gs) h =
    elim (Bool-cases (c.dimension == d && g == k)) [
      | inl t ↦ rw t h
      | inr f ↦ rw f (
        add_keeps_apart (d, k) c g gs (same_key_symm (c.dimension, g) (d, k) f) h.0,
        add_to_group-KeysDiffer c g gs h.1,
      )
    ]

add_to_group-Holds :
    (c : ScoringCriterion) (g : String) (gs : List Group) → Holds c g (add_to_group c (some g) gs)
unfolding add_to_group same_key
add_to_group-Holds c g [] = (
  ((c.dimension, g), c ∷ []),
  Memᴰ.head refl,
  Memᴰ.head refl,
  true-and _ _ (eq_self c.dimension) (eq_self g),
)
add_to_group-Holds c g (((d, k), values) ∷ gs) = elim (Bool-cases (c.dimension == d && g == k)) [
  | inl t ↦
      rw t
        (((d, k), values ++ (c ∷ [])), Memᴰ.head refl, Memᴰ.append_right values (Memᴰ.head refl), t)
  | inr f ↦ let (e, m, n, same) = add_to_group-Holds c g gs in rw f (e, Memᴰ.tail m, n, same)
]

add_to_group_keeps :
    (c : ScoringCriterion) (g : String) (o : Option String) (x : ScoringCriterion) (gs : List Group)
    → Holds x g gs
    → Holds x g (add_to_group c o gs)
unfolding add_to_group
add_to_group_keeps c g none x gs h = h
add_to_group_keeps c g (some j) x [] (e, m, n, same) = elim m [ ]
add_to_group_keeps c g (some j) x (((d, k), values) ∷ gs) (e, m, n, same) =
    elim (Bool-cases (c.dimension == d && j == k)) [
      | inl t ↦ elim (Memᴰ.cases_cons m) [
        | inl p ↦ rw t (
          ((d, k), values ++ (c ∷ [])),
          Memᴰ.head refl,
          Memᴰ.append_left (c ∷ []) (subst (λ (f : Group). Memᴰ x f.1) p n),
          subst (λ (f : Group). same_key (x.dimension, g) f.0 ≡ true) p same,
        )
        | inr r ↦ rw t (e, Memᴰ.tail r, n, same)
      ]
      | inr f ↦ elim (Memᴰ.cases_cons m) [
        | inl p ↦ rw f (
          ((d, k), values),
          Memᴰ.head refl,
          subst (λ (h : Group). Memᴰ x h.1) p n,
          subst (λ (h : Group). same_key (x.dimension, g) h.0 ≡ true) p same,
        )
        | inr r ↦
            let (e', m', n', same') = add_to_group_keeps c g (some j) x gs (e, r, n, same) in
            rw f (e', Memᴰ.tail m', n', same')
      ]
    ]

module _ (c : ScoringCriterion) (gs : List Group) where
  next_fit :
      (o : Option String) → c.exclusive_group ≡ o → MembersFit gs → MembersFit (add_to_group c o gs)
  unfolding add_to_group
  next_fit none e h = h
  next_fit (some g) e h = add_to_group-MembersFit c g gs e h

  next_differ : (o : Option String) → KeysDiffer gs → KeysDiffer (add_to_group c o gs)
  unfolding add_to_group
  next_differ none h = h
  next_differ (some g) h = add_to_group-KeysDiffer c g gs h

pub group_criteria-MembersFit :
    (cs : List ScoringCriterion) (gs : List Group)
    → MembersFit gs
    → MembersFit (group_criteria cs gs)
unfolding group_criteria
group_criteria-MembersFit [] gs h = h
group_criteria-MembersFit (c ∷ cs) gs h =
    group_criteria-MembersFit cs (add_to_group c c.exclusive_group gs)
      (next_fit c gs c.exclusive_group refl h)

pub group_criteria-KeysDiffer :
    (cs : List ScoringCriterion) (gs : List Group)
    → KeysDiffer gs
    → KeysDiffer (group_criteria cs gs)
unfolding group_criteria
group_criteria-KeysDiffer [] gs h = h
group_criteria-KeysDiffer (c ∷ cs) gs h =
    group_criteria-KeysDiffer cs (add_to_group c c.exclusive_group gs)
      (next_differ c gs c.exclusive_group h)

group_criteria_keeps :
    (cs : List ScoringCriterion) (gs : List Group) (x : ScoringCriterion) (g : String)
    → Holds x g gs
    → Holds x g (group_criteria cs gs)
unfolding group_criteria
group_criteria_keeps [] gs x g h = h
group_criteria_keeps (c ∷ cs) gs x g h =
    group_criteria_keeps cs (add_to_group c c.exclusive_group gs) x g
      (add_to_group_keeps c g c.exclusive_group x gs h)

pub group_criteria-Holds :
    (cs : List ScoringCriterion) (gs : List Group) (x : ScoringCriterion) (g : String)
    → Memᴰ x cs
    → x.exclusive_group ≡ some g
    → Holds x g (group_criteria cs gs)
unfolding group_criteria
group_criteria-Holds [] gs x g m e = elim m [ ]
group_criteria-Holds (c ∷ cs) gs x g (Memᴰ.head p) e =
    group_criteria_keeps cs (add_to_group c c.exclusive_group gs) x g (
      subst (λ y. Holds x g (add_to_group y y.exclusive_group gs)) p
        (subst (λ o. Holds x g (add_to_group x o gs)) (sym e) (add_to_group-Holds x g gs)))
group_criteria-Holds (c ∷ cs) gs x g (Memᴰ.tail m) e =
    group_criteria-Holds cs (add_to_group c c.exclusive_group gs) x g m e
