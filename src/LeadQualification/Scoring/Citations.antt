-- ===== src/LeadQualification/Scoring/Citations.antt =====
-- `signals_used` of a result of lead_qualification/scoring.py and the signals of the request.
use plataforma_saa_s_de_auto.Prelude.{
  true, ◌≡◌, sym, subst, List, [], ◌∷◌, ◌++◌, map, Memᴰ, All, All-mem, All-intro, All-append,
  All-map, and-true, filter_sound, contains, subset, subset-contains, mem_of_contains,
  mem_of_distinct, distinct, String,
}
use plataforma_saa_s_de_auto.Prelude.Sort.{sort_by, mem_of_mem-sort_by, All-sort_by}
use plataforma_saa_s_de_auto.Prelude.Dict.{keys, get_of_mem-keys}
use plataforma_saa_s_de_auto.Errors.{ok}
use plataforma_saa_s_de_auto.Foundation.{Uuid, DateTime}
use plataforma_saa_s_de_auto.LeadQualification.Vocabulary.{SignalCode, signal_code_eq}
use plataforma_saa_s_de_auto.LeadQualification.Policy.{
  ScoringPolicy, ScoringCriterion, DecisionRule,
}
use plataforma_saa_s_de_auto.LeadQualification.Request.{
  QualificationRequest, QualificationResult, CommercialSignal, is_usable, ScoreContribution,
  AppliedPenalty,
}
use plataforma_saa_s_de_auto.LeadQualification.Scoring.Signals.{usable_signals}
use plataforma_saa_s_de_auto.LeadQualification.Scoring.Criteria.{
  criterion_matches, select_criteria, contribution_of, signal_lt,
}
use plataforma_saa_s_de_auto.LeadQualification.Scoring.Selection.{select_criteria_sound}
use plataforma_saa_s_de_auto.LeadQualification.Scoring.Evidence.{usable_signals_best}
use plataforma_saa_s_de_auto.LeadQualification.Scoring.Decision.{
  matched_penalties, matched_decisions, applied_penalty, signals_used, all_codes, penalty_lt,
  decision_lt,
}
use plataforma_saa_s_de_auto.LeadQualification.Scoring.Engine.{
  evaluate, result_of, contributions_of, penalties_of,
}
use plataforma_saa_s_de_auto.LeadQualification.Scoring.Total.{evaluate_ok}

All-all_codes :
    (P : SignalCode → Type 0) (xss : List (List SignalCode))
    → All (λ xs. All P xs) xss
    → All P (all_codes xss)
unfolding all_codes
All-all_codes P [] h = tt
All-all_codes P (xs ∷ xss) h = All-append P xs (all_codes xss) h.0 (All-all_codes P xss h.1)

module _ (signals : List SignalCode) where
  abbrev IsCited : SignalCode → Type 0
  IsCited k = contains signals k ≡ true

  required-IsCited : (xs : List SignalCode) → subset xs signals ≡ true → All IsCited xs
  required-IsCited xs h = All-intro IsCited xs (λ k m. subset-contains k xs signals h m)

  contributions-IsCited :
      (cs : List ScoringCriterion)
      → All (λ c. All IsCited c.signal_codes) (map contribution_of (select_criteria cs signals))
  unfolding contribution_of criterion_matches
  contributions-IsCited cs = All-map _ contribution_of (select_criteria cs signals) (
      All-intro _ (select_criteria cs signals) (λ c m.
        All-sort_by signal_lt IsCited c.required_signals (
          required-IsCited c.required_signals
            (and-true _ _
              (All-mem _ c (select_criteria cs signals) (select_criteria_sound cs signals)
                m).1).0)))

  penalties-IsCited :
      (p : ScoringPolicy)
      → All (λ q. All IsCited q.signal_codes) (map applied_penalty (matched_penalties p signals))
  unfolding applied_penalty matched_penalties
  penalties-IsCited p = All-map _ applied_penalty (matched_penalties p signals) (
      All-intro _ (matched_penalties p signals) (λ q m.
        All-sort_by signal_lt IsCited q.required_signals (
          required-IsCited q.required_signals (
            filter_sound (λ r. subset r.required_signals signals) q (sort_by penalty_lt p.penalties)
              m))))

  decisions-IsCited :
      (p : ScoringPolicy) → All (λ d. All IsCited d.required_signals) (matched_decisions p signals)
  unfolding matched_decisions
  decisions-IsCited p = All-intro _ (matched_decisions p signals) (λ d m.
      required-IsCited d.required_signals (
        filter_sound (λ r. subset r.required_signals signals) d (sort_by decision_lt p.decisions)
          m))

  used-IsCited :
      (cs : List ScoreContribution) (ps : List AppliedPenalty) (ds : List DecisionRule)
      (k : SignalCode)
      → All (λ c. All IsCited c.signal_codes) cs
      → All (λ q. All IsCited q.signal_codes) ps
      → All (λ d. All IsCited d.required_signals) ds
      → Memᴰ k (signals_used cs ps ds)
      → IsCited k
  unfolding signals_used
  used-IsCited cs ps ds k hc hp hd m =
      let lists =
        map (λ c. c.signal_codes) cs
        ++ (map (λ p. p.signal_codes) ps ++ map (λ d. d.required_signals) ds) in
      let cited : All IsCited (all_codes lists) = All-all_codes IsCited lists (
        All-append _ _ _ (All-map _ _ cs hc)
          (All-append _ _ _ (All-map _ _ ps hp) (All-map _ _ ds hd))) in
      All-mem IsCited k (all_codes lists) cited (
        mem_of_distinct k (all_codes lists)
          (mem_of_mem-sort_by signal_lt k (distinct (all_codes lists)) m))

-- Every signal that a returned result cites has a signal of that code in the request, usable at the
-- policy's minimum confidence.
pub signals_used_sound :
    (fingerprint : ScoringPolicy → String) (request : QualificationRequest) (p : ScoringPolicy)
    (id : Uuid) (at : DateTime) (r : QualificationResult) (k : SignalCode)
    → evaluate fingerprint request p id at ≡ ok r
    → Memᴰ k r.signals_used
    → (s : CommercialSignal) × Memᴰ s request.signals
      × (is_usable s p.minimum_signal_confidence ≡ true)
      × (s.code ≡ k)
unfolding result_of contributions_of penalties_of
signals_used_sound fingerprint request p id at r k e m =
    let signals = keys (usable_signals request p) in
    let (c, applies, j, same, aware) = evaluate_ok fingerprint request p id at r e in
    let m' : Memᴰ k (result_of fingerprint request p id at c).signals_used =
      subst (λ (q : QualificationResult). Memᴰ k q.signals_used) (sym same) m in
    let cited =
      used-IsCited signals (contributions_of request p) (penalties_of request p)
        (matched_decisions p signals) k (contributions-IsCited signals p.criteria)
        (penalties-IsCited signals p) (decisions-IsCited signals p) m' in
    let (s, g) = get_of_mem-keys k (usable_signals request p) (mem_of_contains k signals cited) in
    let (found, usable, code, best) = usable_signals_best request p k s g in
    (s, found, usable, code)
