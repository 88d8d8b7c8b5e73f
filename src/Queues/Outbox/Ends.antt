-- ===== src/Queues/Outbox/Ends.antt =====
-- The row of an event after its publication was tried, and what leaves it alone then.
use plataforma_saa_s_de_auto.Prelude.{
  ℕ, ◌+◌, ◌*◌, ◌^◌, ltb, leb, Bool, true, false, ◌||◌, ◌≡◌, refl, ◌⊎◌, inl, inr, Option, some, none,
  List, All, Memᴰ, All-intro, if◌then◌else◌, Bool-cases, arith, decide,
}
use plataforma_saa_s_de_auto.Prelude.Text.{take_text}
use plataforma_saa_s_de_auto.Queues.Table.{All-implies}
use plataforma_saa_s_de_auto.Queues.Outbox.{
  Instant, OutboxStatus, OutboxStatus-discrete, outbox_status_eq, OutboxRow, ClaimedOutboxEvent,
  Failure, is_claimable, holds_lease, as_published, as_failed, backoff_seconds,
}
use plataforma_saa_s_de_auto.Queues.Outbox.Actions.{
  Action, claiming, completing, failing, adding, spares,
}
use plataforma_saa_s_de_auto.Queues.Outbox.Leases.{finished_spares}
use plataforma_saa_s_de_auto.Queues.Outbox.Batch.{Surroundings, is_terminal_failure}

-- A claim, if the transaction is one, comes before the time.
unfoldable pub is_early : Instant → Action → Bool
is_early t (claiming ids now lease_seconds locked limit) = ltb now t
is_early t (completing now audit_id e) = true
is_early t (failing now audit_id e type_name is_dead) = true
is_early t (adding tenant_id e event_id now) = true

retry_not_held :
    (e : ClaimedOutboxEvent) (r : OutboxRow)
    → r.status ≡ OutboxStatus.retry
    → holds_lease e r ≡ false
unfolding holds_lease decide OutboxStatus-discrete
retry_not_held e r h = rw (h, holds_lease) (ground arith)

-- A row that waits for another attempt is left alone until then.
retry_spares :
    (r : OutboxRow) (t : Instant)
    → r.status ≡ OutboxStatus.retry
    → r.next_attempt_at ≡ t
    → (a : Action) → is_early t a ≡ true
    → spares r a ≡ true
unfolding spares is_early is_claimable
retry_spares r t h next (claiming ids now lease_seconds locked limit) early = rw next (ground arith)
retry_spares r t h next (completing now audit_id e) early = rw (retry_not_held e r h)
retry_spares r t h next (failing now audit_id e type_name is_dead) early = rw (retry_not_held e r h)
retry_spares r t h next (adding tenant e event_id now) early = refl

-- The time of the next attempt at an event that failed at `at`.
abbrev pub next_attempt : Instant → ℕ → Instant
next_attempt at attempts = at + (if ltb (2 ^ attempts) 300 then 2 ^ attempts else 300) * 10 ^ 6

module _ (s : Surroundings) (max_attempts : ℕ) where
  -- The row of an event that the sink takes is published; else it is dead where the failure is
  -- permanent or the attempts are used up, and waits for another attempt where not.
  unfoldable pub EndsWith : Option Failure → ClaimedOutboxEvent → OutboxRow → Type 0
  EndsWith none e r =
      (r.status ≡ OutboxStatus.published)
      × (r.lease_token ≡ none)
      × (r.published_at ≡ some (s.complete_at e))
  EndsWith (some f) e r =
      (r.lease_token ≡ none)
      × (r.last_error ≡ some (take_text 300 f.type_name))
      × ((((f.is_permanent || leb max_attempts e.attempts) ≡ true) × (r.status ≡ OutboxStatus.dead))
          ⊎ (((f.is_permanent || leb max_attempts e.attempts) ≡ false)
              × (r.status ≡ OutboxStatus.retry)
              × (r.next_attempt_at ≡ next_attempt (s.fail_at e) e.attempts)))

  pub as_published-EndsWith :
      (e : ClaimedOutboxEvent) (r : OutboxRow) → EndsWith none e (as_published (s.complete_at e) r)
  unfolding EndsWith as_published
  as_published-EndsWith e r = (refl, refl, refl)

  pub as_failed-EndsWith :
      (f : Failure) (e : ClaimedOutboxEvent) (r : OutboxRow)
      → EndsWith
          (some f)
          e
          (as_failed (s.fail_at e) e f.type_name (is_terminal_failure s max_attempts f e) r)
  unfolding EndsWith as_failed is_terminal_failure backoff_seconds
  as_failed-EndsWith f e r = elim (Bool-cases (f.is_permanent || leb max_attempts e.attempts)) [
    | inl t ↦ (refl, refl, inl (t, rw t refl))
    | inr n ↦ (refl, refl, inr (n, rw n refl, refl))
  ]

  -- Meanwhile nobody claims an event that failed before its next attempt is due.
  abbrev pub Waits : List ClaimedOutboxEvent → Type 0
  Waits es =
      (f e : ClaimedOutboxEvent) (failure : Failure)
      → Memᴰ f es
      → Memᴰ e es
      → s.publish e ≡ some failure
      → All (λ a. is_early (next_attempt (s.fail_at e) e.attempts) a ≡ true) (s.meanwhile f)

  pub EndsWith-spares :
      (o : Option Failure) (e : ClaimedOutboxEvent) (r : OutboxRow) (actions : List Action)
      → EndsWith o e r
      → ((failure : Failure)
          → o ≡ some failure
          → All (λ a. is_early (next_attempt (s.fail_at e) e.attempts) a ≡ true) actions)
      → All (λ a. spares r a ≡ true) actions
  unfolding EndsWith
  EndsWith-spares none e r actions (published, free, at) early =
      All-intro (λ a. spares r a ≡ true) actions (λ a m. finished_spares r (inl published) a)
  EndsWith-spares (some f) e r actions (free, error, inl (final, dead)) early =
      All-intro (λ a. spares r a ≡ true) actions (λ a m. finished_spares r (inr dead) a)
  EndsWith-spares (some f) e r actions (free, error, inr (again, retry, next)) early =
      All-implies (λ a. is_early (next_attempt (s.fail_at e) e.attempts) a ≡ true)
        (λ a. spares r a ≡ true) actions
        (λ a m h. retry_spares r (next_attempt (s.fail_at e) e.attempts) retry next a h)
        (early f refl)
