-- ===== src/LeadQualification/Scoring/Exclusive.antt =====
-- Exclusive groups and ungrouped criteria in `_select_criteria` of lead_qualification/scoring.py.
use mathlib.Core.List.Memᴰ
use plataforma_saa_s_de_auto.Prelude.{
  true, false, ◌≡◌, ◌↔◌, refl, sym, ◌∙◌, ap, subst, inl, inr, String, Option, none, some, List, [],
  ◌∷◌, ◌++◌, Memᴰ, All-mem, and-true, true-and, ◌==◌, eq_of_true, eq_self, string_eq, option_eq,
  filter, filter_sound, mem-filter_of_mem, ◌≤ℤ◌, lex_ℤ_asymm, lex_ℤ_not_trans, lex_ℤ→≤, eq_symm,
}
use plataforma_saa_s_de_auto.Prelude.Sort.{
  IsWeakOrder, sort_by, mem-sort_by, mem_of_mem-sort_by, sort_by_head_least,
}
use plataforma_saa_s_de_auto.Prelude.Text.{text_lt-IsWeakOrder}
use plataforma_saa_s_de_auto.LeadQualification.Vocabulary.{
  SignalCode, ScoreDimension, score_dimension_eq,
}
use plataforma_saa_s_de_auto.LeadQualification.Policy.{ScoringCriterion}
use plataforma_saa_s_de_auto.LeadQualification.Scoring.Criteria.{
  criterion_matches, is_ungrouped, points_lt, in_group, group_criteria, head_of, best_of_groups,
  dimension_code_lt, select_criteria,
}
use plataforma_saa_s_de_auto.LeadQualification.Scoring.Selection.{select_criteria_sound}
use plataforma_saa_s_de_auto.LeadQualification.Scoring.Groups.{
  Group, same_key, KeysDiffer, group_criteria-MembersFit, group_criteria-KeysDiffer,
  group_criteria-Holds,
}

points_lt-IsWeakOrder : IsWeakOrder points_lt
unfolding points_lt
points_lt-IsWeakOrder = record {
  asymm = λ a b. lex_ℤ_asymm _ _ _ _ (text_lt-IsWeakOrder.asymm a.code b.code);
  not_trans = λ a b c h k.
      lex_ℤ_not_trans c.points b.points a.points _ _ _
        (λ q r. text_lt-IsWeakOrder.not_trans a.code b.code c.code r q) k h;
}

-- The criterion is the first of the group's members by points and code.
abbrev LeadsGroup : ScoringCriterion → Group → Type 0
LeadsGroup x e = (rest : List ScoringCriterion) × (sort_by points_lt e.1 ≡ x ∷ rest)

leads_head :
    (x : ScoringCriterion) (vs : List ScoringCriterion)
    → Memᴰ x (head_of vs)
    → (rest : List ScoringCriterion) × (vs ≡ x ∷ rest)
unfolding head_of
leads_head x [] m = elim m [ ]
leads_head x (v ∷ vs) m = (vs, ap (λ y. y ∷ vs) (sym (Memᴰ.eq_of_singleton m)))

best_of_groups_sound :
    (x : ScoringCriterion) (gs : List Group)
    → Memᴰ x (best_of_groups gs)
    → (e : Group) × Memᴰ e gs × LeadsGroup x e
unfolding best_of_groups
best_of_groups_sound x [] m = elim m [ ]
best_of_groups_sound x ((key, vs) ∷ gs) m =
    elim (Memᴰ.append_cases (head_of (sort_by points_lt vs)) m) [
      | inl h ↦ ((key, vs), Memᴰ.head refl, leads_head x (sort_by points_lt vs) h)
      | inr r ↦ let (e, n, l) = best_of_groups_sound x gs r in (e, Memᴰ.tail n, l)
    ]

head_of_some :
    (c : ScoringCriterion) (vs : List ScoringCriterion)
    → Memᴰ c vs
    → (x : ScoringCriterion) × Memᴰ x (head_of vs)
unfolding head_of
head_of_some c [] m = elim m [ ]
head_of_some c (v ∷ vs) m = (v, Memᴰ.head refl)

best_of_groups_complete :
    (e : Group) (c : ScoringCriterion) (gs : List Group)
    → Memᴰ e gs
    → Memᴰ c e.1
    → (x : ScoringCriterion) × Memᴰ x (best_of_groups gs) × Memᴰ x e.1
unfolding best_of_groups
best_of_groups_complete e c [] m n = elim m [ ]
best_of_groups_complete e c ((key, vs) ∷ gs) (Memᴰ.head p) n =
    let n' : Memᴰ c vs = subst (λ (f : Group). Memᴰ c f.1) p n in
    let (x, h) = head_of_some c (sort_by points_lt vs) (mem-sort_by points_lt c vs n') in
    let (rest, q) = leads_head x (sort_by points_lt vs) h in
    let inside : Memᴰ x (sort_by points_lt vs) = subst (λ l. Memᴰ x l) (sym q) (Memᴰ.head refl) in
    (
      x,
      Memᴰ.append_left (best_of_groups gs) h,
      subst (λ (f : Group). Memᴰ x f.1) (sym p) (mem_of_mem-sort_by points_lt x vs inside),
    )
best_of_groups_complete e c ((key, vs) ∷ gs) (Memᴰ.tail m) n =
    let (x, h, k) = best_of_groups_complete e c gs m n in
    (x, Memᴰ.append_right (head_of (sort_by points_lt vs)) h, k)

same_entry :
    (a b : Group) (gs : List Group)
    → KeysDiffer gs
    → Memᴰ a gs
    → Memᴰ b gs
    → same_key a.0 b.0 ≡ true
    → same_key b.0 a.0 ≡ true
    → a ≡ b
same_entry a b [] k m n s t = elim m [ ]
same_entry a b (e ∷ gs) k (Memᴰ.head p) (Memᴰ.head q) s t = p ∙ sym q
same_entry a b (e ∷ gs) k (Memᴰ.head p) (Memᴰ.tail n) s t =
    let apart : same_key e.0 b.0 ≡ false = All-mem _ b gs k.0 n in
    cc (subst (λ (f : Group). same_key f.0 b.0 ≡ true) p s)
same_entry a b (e ∷ gs) k (Memᴰ.tail m) (Memᴰ.head q) s t =
    let apart : same_key e.0 a.0 ≡ false = All-mem _ a gs k.0 m in
    cc (subst (λ (f : Group). same_key f.0 a.0 ≡ true) q t)
same_entry a b (e ∷ gs) k (Memᴰ.tail m) (Memᴰ.tail n) s t = same_entry a b gs k.1 m n s t

key_of_in_group :
    (e : Group) (c : ScoringCriterion) (g : String)
    → in_group e.0.0 e.0.1 c ≡ true
    → c.exclusive_group ≡ some g
    → same_key e.0 (c.dimension, g) ≡ true
unfolding in_group same_key
key_of_in_group e c g h p =
    let (d, o) = and-true (c.dimension == e.0.0) _ h in
    let q : some g ≡ some e.0.1 = cc (p, eq_of_true c.exclusive_group (some e.0.1) o) in
    let name : e.0.1 ≡ g = cc q in true-and _ _ (eq_symm c.dimension e.0.0 d) (rw name (eq_self g))

key_symm :
    (d : ScoreDimension) (g : String) (e : Group)
    → same_key (d, g) e.0 ≡ true
    → same_key e.0 (d, g) ≡ true
unfolding same_key
key_symm d g e h =
    let (p, q) = and-true (d == e.0.0) (g == e.0.1) h in
    true-and _ _ (eq_symm d e.0.0 p) (eq_symm g e.0.1 q)

module _ (cs : List ScoringCriterion) (signals : List SignalCode) where
  abbrev matched : List ScoringCriterion
  matched = filter (criterion_matches signals) cs

  abbrev groups : List Group
  groups = group_criteria matched []

  -- A selected criterion with a group leads one of the groups.
  selected_leads :
      (x : ScoringCriterion) (g : String)
      → Memᴰ x (select_criteria cs signals)
      → x.exclusive_group ≡ some g
      → (e : Group) × Memᴰ e groups × LeadsGroup x e
  unfolding select_criteria is_ungrouped
  selected_leads x g m o =
      elim (Memᴰ.append_cases (filter is_ungrouped matched) (
        mem_of_mem-sort_by dimension_code_lt x
          (filter is_ungrouped matched ++ best_of_groups groups) m)) [
            | inl u ↦
                let e = eq_of_true x.exclusive_group none (filter_sound is_ungrouped x matched u) in
                cc (o, e)
            | inr b ↦ best_of_groups_sound x groups b
          ]

  leader_in_group :
      (x : ScoringCriterion) (g : String) (e : Group)
      → Memᴰ e groups
      → LeadsGroup x e
      → x.exclusive_group ≡ some g
      → same_key e.0 (x.dimension, g) ≡ true
  leader_in_group x g e m (rest, q) o =
      let inside : Memᴰ x (sort_by points_lt e.1) =
        subst (λ l. Memᴰ x l) (sym q) (Memᴰ.head refl) in
      let fits = All-mem _ e groups (group_criteria-MembersFit matched [] tt) m in
      key_of_in_group e x g (All-mem _ x e.1 fits (mem_of_mem-sort_by points_lt x e.1 inside)) o

  same_key_trans :
      (d : ScoreDimension) (g : String) (a b : Group)
      → same_key a.0 (d, g) ≡ true
      → same_key b.0 (d, g) ≡ true
      → same_key a.0 b.0 ≡ true
  unfolding same_key
  same_key_trans d g a b h k =
      let (p, q) = and-true (a.0.0 == d) (a.0.1 == g) h in
      let (r, s) = and-true (b.0.0 == d) (b.0.1 == g) k in
      true-and _ _ (subst (λ x. (a.0.0 == x) ≡ true) (sym (eq_of_true b.0.0 d r)) p)
        (subst (λ x. (a.0.1 == x) ≡ true) (sym (eq_of_true b.0.1 g s)) q)

  one_group :
      (d : ScoreDimension) (g : String) (a b : Group)
      → Memᴰ a groups
      → Memᴰ b groups
      → same_key a.0 (d, g) ≡ true
      → same_key b.0 (d, g) ≡ true
      → a ≡ b
  one_group d g a b m n h k =
      same_entry a b groups (group_criteria-KeysDiffer matched [] tt) m n
        (same_key_trans d g a b h k) (same_key_trans d g b a k h)

  -- Of two selected criteria of one dimension and one exclusive group, both are the same.
  pub exclusive_unique :
      (x y : ScoringCriterion) (g : String)
      → Memᴰ x (select_criteria cs signals)
      → Memᴰ y (select_criteria cs signals)
      → x.exclusive_group ≡ some g
      → y.exclusive_group ≡ some g
      → x.dimension ≡ y.dimension
      → x ≡ y
  exclusive_unique x y g m n o p same =
      let (a, in_a, lead_a) = selected_leads x g m o in
      let (b, in_b, lead_b) = selected_leads y g n p in
      let at_y : same_key b.0 (x.dimension, g) ≡ true =
        subst (λ d. same_key b.0 (d, g) ≡ true) (sym same) (leader_in_group y g b in_b lead_b p) in
      let one = one_group x.dimension g a b in_a in_b (leader_in_group x g a in_a lead_a o) at_y in
      let lists : x ∷ lead_a.0 ≡ y ∷ lead_b.0 =
        sym lead_a.1 ∙ (ap (λ (e : Group). sort_by points_lt e.1) one ∙ lead_b.1) in
      cc lists

  -- A selected criterion has at least the points of every matched one of its dimension and group.
  pub exclusive_best :
      (x c : ScoringCriterion) (g : String)
      → Memᴰ x (select_criteria cs signals)
      → x.exclusive_group ≡ some g
      → Memᴰ c cs
      → criterion_matches signals c ≡ true
      → c.exclusive_group ≡ some g
      → c.dimension ≡ x.dimension
      → c.points ≤ℤ x.points
  unfolding points_lt
  exclusive_best x c g m o n h p same =
      let (a, in_a, lead) = selected_leads x g m o in
      let (b, in_b, c_in, key_c) =
        group_criteria-Holds matched [] c g (mem-filter_of_mem (criterion_matches signals) c cs n h)
          p in
      let at_c : same_key b.0 (x.dimension, g) ≡ true =
        subst (λ d. same_key b.0 (d, g) ≡ true) same (key_symm c.dimension g b key_c) in
      let one = one_group x.dimension g a b in_a in_b (leader_in_group x g a in_a lead o) at_c in
      let c_in' : Memᴰ c a.1 = subst (λ (e : Group). Memᴰ c e.1) (sym one) c_in in
      lex_ℤ→≤ x.points c.points _
        (sort_by_head_least points_lt points_lt-IsWeakOrder a.1 x lead.0 c lead.1 c_in')

  -- A matched criterion with a group is represented by a selected one.
  pub represented :
      (c : ScoringCriterion) (g : String)
      → Memᴰ c cs
      → criterion_matches signals c ≡ true
      → c.exclusive_group ≡ some g
      → (x : ScoringCriterion) × Memᴰ x (select_criteria cs signals)
        × (x.exclusive_group ≡ some g)
        × (x.dimension ≡ c.dimension)
  unfolding select_criteria same_key in_group
  represented c g n h o =
      let (b, in_b, c_in, key_c) =
        group_criteria-Holds matched [] c g (mem-filter_of_mem (criterion_matches signals) c cs n h)
          o in
      let (x, best, member) = best_of_groups_complete b c groups in_b c_in in
      let fits =
        All-mem _ x b.1 (All-mem _ b groups (group_criteria-MembersFit matched [] tt) in_b)
          member in
      let (d, k) = and-true (c.dimension == b.0.0) (g == b.0.1) key_c in
      let (d', k') = and-true (x.dimension == b.0.0) (x.exclusive_group == some b.0.1) fits in
      (
        x,
        mem-sort_by dimension_code_lt x (filter is_ungrouped matched ++ best_of_groups groups)
            (Memᴰ.append_right (filter is_ungrouped matched) best),
        eq_of_true x.exclusive_group (some b.0.1) k' ∙ ap some (sym (eq_of_true g b.0.1 k)),
        eq_of_true x.dimension b.0.0 d' ∙ sym (eq_of_true c.dimension b.0.0 d),
      )

  -- A criterion without a group is selected exactly when it is one of the policy's and matches.
  pub ungrouped_iff :
      (c : ScoringCriterion)
      → c.exclusive_group ≡ none
      → Memᴰ c (select_criteria cs signals) ↔ (Memᴰ c cs × (criterion_matches signals c ≡ true))
  unfolding select_criteria is_ungrouped
  ungrouped_iff c o = (
    (λ m. All-mem _ c (select_criteria cs signals) (select_criteria_sound cs signals) m),
    (λ w. mem-sort_by dimension_code_lt c (filter is_ungrouped matched ++ best_of_groups groups) (
        Memᴰ.append_left (best_of_groups groups) (
          mem-filter_of_mem is_ungrouped c matched
            (mem-filter_of_mem (criterion_matches signals) c cs w.0 w.1)
            (rw o (eq_self {A = Option String} none))))),
  )

  -- Each matched criterion with an exclusive group has one selected criterion of its dimension and
  -- group, with at least its points, and no other selected criterion has that dimension and group.
  pub group_champion :
      (c : ScoringCriterion) (g : String)
      → Memᴰ c cs
      → criterion_matches signals c ≡ true
      → c.exclusive_group ≡ some g
      → (x : ScoringCriterion) × Memᴰ x (select_criteria cs signals)
        × (x.exclusive_group ≡ some g)
        × (x.dimension ≡ c.dimension)
        × (c.points ≤ℤ x.points)
        × ((y : ScoringCriterion)
            → Memᴰ y (select_criteria cs signals)
            → y.exclusive_group ≡ some g
            → y.dimension ≡ c.dimension
            → y ≡ x)
  group_champion c g n h o =
      let (x, m, p, d) = represented c g n h o in
      (
        x,
        m,
        p,
        d,
        exclusive_best x c g m p n h o (sym d),
        (λ y k q e. exclusive_unique y x g k m q p (e ∙ sym d)),
      )
