-- ===== src/Queues/Outbox/Tallies.antt =====
-- The counters of `publish_batch`, telecom_conversations/postgres_jobs.py
-- (src/saas_platform/modules), against a direct count of the events.
use plataforma_saa_s_de_auto.Prelude.{
  ℕ, ◌+◌, leb, Bool, true, false, not, ◌||◌, ◌≡◌, ◌∙◌, inl, inr, Option, some, none, List, [], ◌∷◌,
  if◌then◌else◌, Bool-cases, arith,
}
use plataforma_saa_s_de_auto.Queues.Table.{row_count}
use plataforma_saa_s_de_auto.Queues.Outbox.{ClaimedOutboxEvent, Failure}
use plataforma_saa_s_de_auto.Queues.Outbox.Batch.{
  OutboxPublishResult, Outcome, counted, Surroundings, is_terminal_failure,
}

-- The sink takes the event.
unfoldable pub is_taken : Option Failure → Bool
is_taken none = true
is_taken (some f) = false

module _ (max_attempts : ℕ) where
  -- The sink fails for good, or for the last time.
  unfoldable pub is_given_up : Option Failure → ClaimedOutboxEvent → Bool
  is_given_up none e = false
  is_given_up (some f) e = f.is_permanent || leb max_attempts e.attempts

  unfoldable pub is_kept : Option Failure → ClaimedOutboxEvent → Bool
  is_kept none e = false
  is_kept (some f) e = not (f.is_permanent || leb max_attempts e.attempts)

module _ (s : Surroundings) (max_attempts : ℕ) where
  -- What an event comes to.
  unfoldable pub outcome : Option Failure → ClaimedOutboxEvent → Outcome
  outcome none e = Outcome.published
  outcome (some f) e =
      if is_terminal_failure s max_attempts f e then Outcome.dead else Outcome.retried

  unfoldable pub tally : List ClaimedOutboxEvent → OutboxPublishResult → OutboxPublishResult
  tally [] counts = counts
  tally (e ∷ es) counts = tally es (counted (outcome (s.publish e) e) counts)

  counted_one :
      (o : Option Failure) (e : ClaimedOutboxEvent) (c : OutboxPublishResult) (a b d : ℕ)
      → let next = counted (outcome o e) c in
        ((next.published + a ≡ c.published + ((if is_taken o then 1 else 0) + a)))
        × (next.retried + b ≡ c.retried + ((if is_kept max_attempts o e then 1 else 0) + b))
        × (next.dead + d ≡ c.dead + ((if is_given_up max_attempts o e then 1 else 0) + d))
  unfolding outcome counted is_taken is_kept is_given_up is_terminal_failure
  counted_one none e c a b d = (omega arith, omega arith, omega arith)
  counted_one (some f) e c a b d =
      elim (Bool-cases (f.is_permanent || leb max_attempts e.attempts)) [
        | inl t ↦ rw t (omega arith, omega arith, omega arith)
        | inr n ↦ rw n (omega arith, omega arith, omega arith)
      ]

  pub tally_counts :
      (es : List ClaimedOutboxEvent) (c : OutboxPublishResult)
      → ((tally es c).published ≡ c.published + row_count (λ e. is_taken (s.publish e)) es)
        × ((tally es c).retried
            ≡ c.retried + row_count (λ e. is_kept max_attempts (s.publish e) e) es)
        × ((tally es c).dead
            ≡ c.dead + row_count (λ e. is_given_up max_attempts (s.publish e) e) es)
  unfolding tally row_count
  tally_counts [] c = (omega arith, omega arith, omega arith)
  tally_counts (e ∷ es) c =
      let (p, r, d) = tally_counts es (counted (outcome (s.publish e) e) c) in
      let (p', r', d') = counted_one (s.publish e) e c _ _ _ in (p ∙ p', r ∙ r', d ∙ d')
