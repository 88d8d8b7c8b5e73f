-- ===== src/Conversations/Profile/Opportunities.antt =====
-- `_opportunity` of telecom_conversations/profile.py.
use mathlib.Core.List.Memᴰ
use plataforma_saa_s_de_auto.Prelude.{
  true, false, not, ◌≡◌, ◌≢◌, refl, sym, subst, List, ◌∷◌, ◌++◌, Memᴰ, Bool-cases, inl, inr, arith,
  contains, filter, filter_sound, mem-filter_of_mem, distinct, mem-distinct, mem_of_distinct,
  has_duplicates, ◌==◌, eq_of_true, eq_self,
}
use plataforma_saa_s_de_auto.Prelude.Distinct.{
  not_contains, not_mem, has_duplicates-distinct, has_duplicates-filter,
}
use plataforma_saa_s_de_auto.Errors.{ok}
use plataforma_saa_s_de_auto.LeadQualification.Vocabulary.{OpportunityType, opportunity_type_eq}
use plataforma_saa_s_de_auto.LeadQualification.Profile.{Opportunity, opportunity_post_init}
use plataforma_saa_s_de_auto.Conversations.Profile.Plan.{merge_opportunity, construct_opportunity}

-- The secondary opportunities are unique and do not have the primary one.
pub record IsProper (o : Opportunity) : Type 0 where
  pub apart : contains o.secondary o.primary ≡ false
  pub unique : has_duplicates o.secondary ≡ false

pub IsProper-of_ok : (o : Opportunity) → opportunity_post_init o ≡ ok tt → IsProper o
unfolding opportunity_post_init
IsProper-of_ok o h = ground arith

constructs : (o : Opportunity) → IsProper o → construct_opportunity o ≡ ok o
unfolding construct_opportunity opportunity_post_init
constructs o p = rw p.apart (rw p.unique)

-- What is kept of the current opportunity, where it is identified: its primary type and all of its
-- secondary types.
pub record IsKept (current o : Opportunity) : Type 0 where
  pub primary : o.primary ≡ current.primary
  pub secondary : (x : OpportunityType) → Memᴰ x current.secondary → Memᴰ x o.secondary

module _ (current proposed : Opportunity) (old : IsProper current) (new : IsProper proposed) where
  same_primary : Opportunity
  same_primary = record {
    primary = current.primary;
    secondary = distinct (current.secondary ++ proposed.secondary);
  }

  same_primary-IsProper : (proposed.primary == current.primary) ≡ true → IsProper same_primary
  unfolding same_primary
  same_primary-IsProper t =
      let p = eq_of_true proposed.primary current.primary t in
      record {
        apart =
            not_contains current.primary (distinct (current.secondary ++ proposed.secondary)) (λ m.
              elim (Memᴰ.append_cases current.secondary
                (mem_of_distinct current.primary (current.secondary ++ proposed.secondary) m)) [
                  | inl a ↦ not_mem current.primary current.secondary old.apart a
                  | inr b ↦
                      not_mem proposed.primary proposed.secondary new.apart
                        (subst (λ x. Memᴰ x proposed.secondary) (sym p) b)
                ]);
        unique = has_duplicates-distinct (current.secondary ++ proposed.secondary);
      }

  other_primary : Opportunity
  other_primary = record {
    primary = current.primary;
    secondary =
        filter (λ o. not (o == current.primary))
          (distinct (current.secondary ++ (proposed.primary ∷ proposed.secondary)));
  }

  all_types : List OpportunityType
  all_types = current.secondary ++ (proposed.primary ∷ proposed.secondary)

  other_primary-IsProper : IsProper other_primary
  unfolding other_primary all_types
  other_primary-IsProper = record {
    apart =
        not_contains current.primary (filter (λ o. not (o == current.primary)) (distinct all_types))
          (λ m. cc (
            eq_self current.primary,
            filter_sound (λ o. not (o == current.primary)) current.primary (distinct all_types) m,
          ));
    unique =
        has_duplicates-filter (λ o. not (o == current.primary)) (distinct all_types)
          (has_duplicates-distinct all_types);
  }

  other_primary-IsKept : IsKept current other_primary
  unfolding other_primary all_types
  other_primary-IsKept = record {
    primary = refl;
    secondary = λ x m.
        mem-filter_of_mem (λ o. not (o == current.primary)) x (distinct all_types)
          (mem-distinct x all_types (Memᴰ.append_left (proposed.primary ∷ proposed.secondary) m))
          (differs x m);
  }
    where
      differs : (x : OpportunityType) → Memᴰ x current.secondary → not (x == current.primary) ≡ true
      differs x m = elim (Bool-cases (x == current.primary)) [
        | inl t ↦ absurd (
            not_mem current.primary current.secondary old.apart
              (subst (λ y. Memᴰ y current.secondary) (eq_of_true x current.primary t) m))
        | inr f ↦ rw f refl
      ]

  same_primary-IsKept : IsKept current same_primary
  unfolding same_primary
  same_primary-IsKept = record {
    primary = refl;
    secondary = λ x m.
        mem-distinct x (current.secondary ++ proposed.secondary)
          (Memᴰ.append_left proposed.secondary m);
  }

-- Two proper opportunities merge without an error into a proper one. An identified current primary
-- type stays the primary one, and the current secondary types stay among the secondary ones.
pub merge-IsKept :
    (current proposed : Opportunity)
    → IsProper current
    → IsProper proposed
    → (o : Opportunity) × (merge_opportunity current proposed ≡ ok o)
      × IsProper o
      × (current.primary ≢ OpportunityType.unidentified → IsKept current o)
unfolding merge_opportunity other_primary same_primary all_types
merge-IsKept current proposed old new =
    elim (Bool-cases (proposed.primary == OpportunityType.unidentified)) [
      | inl t ↦ (current, rw t refl, old, (λ n. record { primary = refl; secondary = λ x m. m }))
      | inr f ↦ elim (Bool-cases (current.primary == OpportunityType.unidentified)) [
        | inl none_yet ↦ (
          proposed,
          rw f (rw none_yet refl),
          new,
          (λ n. absurd (n (eq_of_true current.primary OpportunityType.unidentified none_yet))),
        )
        | inr known ↦ elim (Bool-cases (proposed.primary == current.primary)) [
          | inl same ↦ (
            same_primary current proposed old new,
            rw f (
                rw known (
                  rw same (
                    constructs (same_primary current proposed old new)
                      (same_primary-IsProper current proposed old new same)))),
            same_primary-IsProper current proposed old new same,
            (λ n. same_primary-IsKept current proposed old new),
          )
          | inr other ↦ (
            other_primary current proposed old new,
            rw f (
                rw known (
                  rw other (
                    constructs (other_primary current proposed old new)
                      (other_primary-IsProper current proposed old new)))),
            other_primary-IsProper current proposed old new,
            (λ n. other_primary-IsKept current proposed old new),
          )
        ]
      ]
    ]
