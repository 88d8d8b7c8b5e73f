-- ===== src/Queues/Outbox/Leases.antt =====
-- Who may finish an outbox event: the worker that holds its lease, and nobody else.
use plataforma_saa_s_de_auto.Prelude.{
  some, none, Bool, true, false, ◌&&◌, ◌≡◌, ◌≢◌, refl, inl, inr, String, List, All, ◌==◌, nat_eq,
  option_eq, arith, All-intro, false_of_ne, ◌⊎◌, decide,
}
use plataforma_saa_s_de_auto.Errors.{ok, err, outbox_publication_error}
use plataforma_saa_s_de_auto.Foundation.{Uuid}
use plataforma_saa_s_de_auto.Queues.Table.{All-implies}
use plataforma_saa_s_de_auto.Queues.Outbox.{
  Instant, OutboxStatus, OutboxStatus-discrete, outbox_status_eq, OutboxRow, ClaimedOutboxEvent,
  Database, is_claimable, holds_lease, complete, completed, fail, as_published,
}
use plataforma_saa_s_de_auto.Queues.Outbox.Rows.{HasRow, HasRow-key}
use plataforma_saa_s_de_auto.Queues.Outbox.Actions.{
  Action, claiming, completing, failing, adding, spares, run, run-spares,
}
use plataforma_saa_s_de_auto.Queues.Outbox.Held.{
  IsLeased, is_lease, is_other, other_spares, held, not_held, complete_held, refused,
}

and_false : (a b c : Bool) → c ≡ false → (a && (b && c)) ≡ false
and_false a b c h = ground arith

finished_not_held :
    (e : ClaimedOutboxEvent) (r : OutboxRow)
    → (r.status ≡ OutboxStatus.published) ⊎ (r.status ≡ OutboxStatus.dead)
    → holds_lease e r ≡ false
unfolding holds_lease decide OutboxStatus-discrete
finished_not_held e r (inl h) = rw (h, holds_lease) (ground arith)
finished_not_held e r (inr h) = rw (h, holds_lease) (ground arith)

finished_not_claimable :
    (now : Instant) (r : OutboxRow)
    → (r.status ≡ OutboxStatus.published) ⊎ (r.status ≡ OutboxStatus.dead)
    → is_claimable now r ≡ false
unfolding is_claimable decide OutboxStatus-discrete
finished_not_claimable now r (inl h) = rw (h, is_claimable) (ground arith)
finished_not_claimable now r (inr h) = rw (h, is_claimable) (ground arith)

-- No transaction changes a published or dead row.
pub finished_spares :
    (r : OutboxRow)
    → (r.status ≡ OutboxStatus.published) ⊎ (r.status ≡ OutboxStatus.dead)
    → (a : Action) → spares r a ≡ true
unfolding spares
finished_spares r f (claiming ids now lease_seconds locked limit) =
    rw (finished_not_claimable now r f)
finished_spares r f (completing now audit_id e) = rw (finished_not_held e r f)
finished_spares r f (failing now audit_id e type_name is_dead) = rw (finished_not_held e r f)
finished_spares r f (adding tenant e event_id now) = refl

module _ (canonical_hash : String → String) where
  -- Let others do any number of claims before a worker's lease ends, of completions and failures
  -- of other events or under other tokens, and of additions, in any order. The worker's event stays
  -- as it is, and the worker can complete it: the event is then published and has no lease.
  pub lease_held :
      (e : ClaimedOutboxEvent) (until now : Instant) (audit_id : Uuid) (r : OutboxRow)
      (actions : List Action) (db : Database)
      → HasRow e.tenant_id e.id r db.events
      → IsLeased e.lease_token until r
      → All (λ a. is_other e.tenant_id e.id e.lease_token until a ≡ true) actions
      → let later = run canonical_hash actions db in
        HasRow e.tenant_id e.id r later.events
        × (complete now audit_id e later ≡ ok (completed now audit_id e later))
        × HasRow e.tenant_id e.id
            (record r {
              status = OutboxStatus.published;
              lease_token = none;
              lease_until = none;
              published_at = some now;
            })
            (completed now audit_id e later).events
  unfolding as_published
  lease_held e until now audit_id r actions db there l others =
      let key = HasRow-key e.tenant_id e.id r db.events there in
      let kept =
        run-spares canonical_hash e.tenant_id e.id r actions db
          (All-implies (λ a. is_other e.tenant_id e.id e.lease_token until a ≡ true)
            (λ a. spares r a ≡ true) actions
            (λ a m o. other_spares e.tenant_id e.id e.lease_token until r l key a o) others)
          there in
      let (completes, published) =
        complete_held e r (run canonical_hash actions db) kept now audit_id
          (held e.lease_token until e r l key refl) in
      (kept, completes, published)

  -- A worker whose event is leased under another token can neither complete nor fail it, after any
  -- number of claims before that lease ends, of completions and failures of other events or under
  -- other tokens than that one, and of additions, in any order.
  pub stale_refused :
      (e : ClaimedOutboxEvent) (token : Uuid) (until now : Instant) (audit_id : Uuid)
      (type_name : String) (is_dead : Bool) (r : OutboxRow) (actions : List Action) (db : Database)
      → HasRow e.tenant_id e.id r db.events
      → IsLeased token until r
      → e.lease_token ≢ token
      → All (λ a. is_other e.tenant_id e.id token until a ≡ true) actions
      → let later = run canonical_hash actions db in
        (complete now audit_id e later
          ≡ err (outbox_publication_error "outbox publication lease was lost"))
        × (fail now audit_id e type_name is_dead later
            ≡ err (outbox_publication_error "outbox failure lease was lost"))
  unfolding is_lease
  stale_refused e token until now audit_id type_name is_dead r actions db there l other others =
      let key = HasRow-key e.tenant_id e.id r db.events there in
      let kept =
        run-spares canonical_hash e.tenant_id e.id r actions db
          (All-implies (λ a. is_other e.tenant_id e.id token until a ≡ true)
            (λ a. spares r a ≡ true) actions
            (λ a m o. other_spares e.tenant_id e.id token until r l key a o) others)
          there in
      refused e r (run canonical_hash actions db) kept now audit_id type_name is_dead (
        not_held e.tenant_id e.id token until e r l key (
          and_false (e.tenant_id == e.tenant_id) (e.id == e.id) (e.lease_token == token)
            (false_of_ne e.lease_token token other)))

  -- A published or dead event stays as it is whatever happens, and no worker can complete or fail
  -- it again.
  pub finished_stays :
      (e : ClaimedOutboxEvent) (now : Instant) (audit_id : Uuid) (type_name : String)
      (is_dead : Bool) (r : OutboxRow) (actions : List Action) (db : Database)
      → HasRow e.tenant_id e.id r db.events
      → (r.status ≡ OutboxStatus.published) ⊎ (r.status ≡ OutboxStatus.dead)
      → let later = run canonical_hash actions db in
        HasRow e.tenant_id e.id r later.events
        × (complete now audit_id e later
            ≡ err (outbox_publication_error "outbox publication lease was lost"))
        × (fail now audit_id e type_name is_dead later
            ≡ err (outbox_publication_error "outbox failure lease was lost"))
  finished_stays e now audit_id type_name is_dead r actions db there finished =
      let kept =
        run-spares canonical_hash e.tenant_id e.id r actions db
          (All-intro (λ a. spares r a ≡ true) actions (λ a m. finished_spares r finished a))
          there in
      let (no_completion, no_failure) =
        refused e r (run canonical_hash actions db) kept now audit_id type_name is_dead
          (finished_not_held e r finished) in
      (kept, no_completion, no_failure)
