-- ===== src/LeadQualification/Policy/Bands.antt =====
-- The classification bands of a constructed policy of lead_qualification/domain.py.
use mathlib.Core.List.Memᴰ
use plataforma_saa_s_de_auto.Prelude.{
  true, ◌≡◌, inl, inr, ℤ, pos, ◌+ℤ◌, ◌≤ℤ◌, ◌<ℤ◌, leb_ℤ, int_laws, beq_ℤ→eq, leb_ℤ→≤, leb_ℤ→<, arith,
  List, [], ◌∷◌, Memᴰ, All, All-mem, All-intro, Bool-cases, and-true, sym, refl, ◌∙◌, subst,
}
use plataforma_saa_s_de_auto.Prelude.Sort.{sort_by, All-sort_by, mem_of_mem-sort_by, mem-sort_by}
use plataforma_saa_s_de_auto.LeadQualification.Policy.{
  ScoringPolicy, IsConstructed, covers, ends_at_100, contiguous, is_contiguous, band_lt,
  ClassificationBand,
}
use plataforma_saa_s_de_auto.LeadQualification.Policy.Facts.{policy_facts, band_bounds}

abbrev IsOrdered : ClassificationBand → Type 0
IsOrdered b = b.minimum ≤ℤ b.maximum

-- The score lies between the ends of the band.
abbrev pub InBand : ℤ → ClassificationBand → Type 0
InBand s b = (b.minimum ≤ℤ s) × (s ≤ℤ b.maximum)

next_minimum :
    (b c : ClassificationBand) (cs : List ClassificationBand)
    → contiguous b (c ∷ cs) ≡ true
    → (c.minimum ≡ b.maximum +ℤ pos 1) × (contiguous c cs ≡ true)
unfolding contiguous
next_minimum b c cs h = let (e, rest) = and-true _ _ h in (beq_ℤ→eq _ _ e, rest)

module _ (s : ℤ) where
  some_band :
      (b : ClassificationBand) (cs : List ClassificationBand)
      → contiguous b cs ≡ true
      → ends_at_100 b cs ≡ true
      → b.minimum ≤ℤ s
      → s ≤ℤ pos 100
      → (x : ClassificationBand) × Memᴰ x (b ∷ cs) × InBand s x
  unfolding ends_at_100
  some_band b [] h e low high =
      let top = beq_ℤ→eq b.maximum (pos 100) e in (b, Memᴰ.head refl, (low, rw top high))
  some_band b (c ∷ cs) h e low high = elim (Bool-cases (leb_ℤ s b.maximum)) [
    | inl here ↦ (b, Memᴰ.head refl, (low, leb_ℤ→≤ s b.maximum here))
    | inr above ↦
        let (start, rest) = next_minimum b c cs h in
        let over = leb_ℤ→< s b.maximum above in
        let (x, m, within) = some_band c cs rest e (rw start (omega (int_laws, over))) high in
        (x, Memᴰ.tail m, within)
  ]

  later_starts_above :
      (b : ClassificationBand) (cs : List ClassificationBand) (x : ClassificationBand)
      → contiguous b cs ≡ true
      → All IsOrdered (b ∷ cs)
      → Memᴰ x cs
      → b.maximum <ℤ x.minimum
  later_starts_above b [] x h o m = elim m [ ]
  later_starts_above b (c ∷ cs) x h o m =
      let (start, rest) = next_minimum b c cs h in
      let step : b.maximum <ℤ c.minimum = rw start (omega int_laws) in
      elim (Memᴰ.cases_cons m) [
        | inl e ↦ rw e step
        | inr r ↦ omega (arith, step, o.1.0, later_starts_above c cs x rest o.1 r)
      ]

  -- Of a run of bands one contains the score, and no two do.
  same_band :
      (b : ClassificationBand) (cs : List ClassificationBand) (x y : ClassificationBand)
      → contiguous b cs ≡ true
      → All IsOrdered (b ∷ cs)
      → Memᴰ x (b ∷ cs)
      → Memᴰ y (b ∷ cs)
      → InBand s x
      → InBand s y
      → x ≡ y
  same_band b [] x y h o m n inx iny = Memᴰ.eq_of_singleton m ∙ sym (Memᴰ.eq_of_singleton n)
  same_band b (c ∷ cs) x y h o m n inx iny = elim (Memᴰ.cases_cons m) [
    | inl e ↦ elim (Memᴰ.cases_cons n) [
      | inl f ↦ e ∙ sym f
      | inr r ↦
          let far = later_starts_above b (c ∷ cs) y h o r in
          let within : InBand s b = subst (InBand s) e inx in
          absurd (omega (arith, far, within, iny))
    ]
    | inr q ↦ elim (Memᴰ.cases_cons n) [
      | inl f ↦
          let far = later_starts_above b (c ∷ cs) x h o q in
          let within : InBand s b = subst (InBand s) f iny in
          absurd (omega (arith, far, within, inx))
      | inr r ↦ same_band c cs x y (next_minimum b c cs h).1 o.1 q r inx iny
    ]
  ]

module _ (p : ScoringPolicy) (made : IsConstructed p) (s : ℤ) where
  sorted-IsOrdered : All IsOrdered (sort_by band_lt p.classification_bands)
  sorted-IsOrdered = All-sort_by band_lt IsOrdered p.classification_bands (
      All-intro IsOrdered p.classification_bands
        (λ b m. (band_bounds b (All-mem _ b p.classification_bands made.bands_ok m)).1))

  starts_and_covers :
      (l : List ClassificationBand)
      → covers l ≡ true
      → is_contiguous l ≡ true
      → pos 0 ≤ℤ s
      → s ≤ℤ pos 100
      → (x : ClassificationBand) × Memᴰ x l × InBand s x
  unfolding covers is_contiguous
  starts_and_covers [] c g low high = cc
  starts_and_covers (b ∷ bs) c g low high =
      let (start, top) = and-true _ _ c in
      let zero_start = beq_ℤ→eq b.minimum (pos 0) start in
      some_band s b bs g top (rw zero_start low) high

  only_one :
      (l : List ClassificationBand) (x y : ClassificationBand)
      → is_contiguous l ≡ true
      → All IsOrdered l
      → Memᴰ x l
      → Memᴰ y l
      → InBand s x
      → InBand s y
      → x ≡ y
  unfolding is_contiguous
  only_one [] x y g o m n inx iny = elim m [ ]
  only_one (b ∷ bs) x y g o m n inx iny = same_band s b bs x y g o m n inx iny

  -- Every score of 0 to 100 lies in a band of a constructed policy.
  pub band_exists :
      pos 0 ≤ℤ s
      → s ≤ℤ pos 100
      → (x : ClassificationBand) × Memᴰ x p.classification_bands × InBand s x
  band_exists low high =
      let facts = policy_facts p made.policy_ok in
      let (x, m, within) =
        starts_and_covers (sort_by band_lt p.classification_bands) facts.bands_cover
          facts.bands_contiguous low high in
      (x, mem_of_mem-sort_by band_lt x p.classification_bands m, within)

  -- No score lies in two bands of a constructed policy.
  pub band_unique :
      (x y : ClassificationBand)
      → Memᴰ x p.classification_bands
      → Memᴰ y p.classification_bands
      → InBand s x
      → InBand s y
      → x ≡ y
  band_unique x y m n =
      only_one (sort_by band_lt p.classification_bands) x y
        (policy_facts p made.policy_ok).bands_contiguous sorted-IsOrdered
        (mem-sort_by band_lt x p.classification_bands m)
        (mem-sort_by band_lt y p.classification_bands n)
