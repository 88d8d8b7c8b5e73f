-- ===== src/Queues/Outbox/Held.antt =====
-- The row of a leased event: what its holder and the other workers can do to it.
use plataforma_saa_s_de_auto.Prelude.{
  ltb, Bool, true, false, not, ◌&&◌, ◌≡◌, refl, ap, ◌∙◌, String, some, ◌==◌, nat_eq, option_eq,
  option_beq, arith, and-true, true-and, sym, decide,
}
use plataforma_saa_s_de_auto.Errors.{ok, err, outbox_publication_error}
use plataforma_saa_s_de_auto.Foundation.{Uuid, TenantId}
use plataforma_saa_s_de_auto.Queues.Outbox.{
  Instant, OutboxStatus, OutboxStatus-discrete, outbox_status_eq, OutboxRow, ClaimedOutboxEvent,
  Database, is_row, is_claimable, is_over, holds_lease, complete, completed, fail, failed,
  as_published, as_failed,
}
use plataforma_saa_s_de_auto.Queues.Outbox.Rows.{HasRow, update_hit, count_hit, count_miss}
use plataforma_saa_s_de_auto.Queues.Outbox.Actions.{
  Action, claiming, completing, failing, adding, spares,
}

-- The key and the token of an event.
unfoldable pub is_lease : TenantId → Uuid → Uuid → ClaimedOutboxEvent → Bool
is_lease tenant_id id token e = e.tenant_id == tenant_id && (e.id == id && e.lease_token == token)

-- A transaction of others, before the lease ends: a claim before `until`, and a completion or a
-- failure without the lease.
unfoldable pub is_other : TenantId → Uuid → Uuid → Instant → Action → Bool
is_other tenant_id id token until (claiming ids now lease_seconds locked limit) = ltb now until
is_other tenant_id id token until (completing now audit_id e) = not (is_lease tenant_id id token e)
is_other tenant_id id token until (failing now audit_id e type_name is_dead) =
    not (is_lease tenant_id id token e)
is_other tenant_id id token until (adding tenant e event_id now) = true

-- The row of an event that is leased.
pub record IsLeased (token : Uuid) (until : Instant) (r : OutboxRow) : Type 0 where
  pub is_publishing : r.status ≡ OutboxStatus.publishing
  pub has_token : r.lease_token ≡ some token
  pub has_until : r.lease_until ≡ some until

not_claimable :
    (token : Uuid) (until now : Instant) (r : OutboxRow)
    → IsLeased token until r
    → ltb now until ≡ true
    → is_claimable now r ≡ false
unfolding is_claimable is_over decide OutboxStatus-discrete
not_claimable token until now r l early =
    rw (l.is_publishing, is_claimable) (rw (l.has_until, is_over) (ground arith))

pub not_held :
    (tenant_id : TenantId) (id token : Uuid) (until : Instant) (e : ClaimedOutboxEvent)
    (r : OutboxRow)
    → IsLeased token until r
    → is_row tenant_id id r ≡ true
    → is_lease tenant_id id token e ≡ false
    → holds_lease e r ≡ false
unfolding holds_lease is_row is_lease option_beq
not_held tenant_id id token until e r l key other = rw (l.has_token, holds_lease) (ground arith)

pub other_spares :
    (tenant_id : TenantId) (id token : Uuid) (until : Instant) (r : OutboxRow)
    → IsLeased token until r
    → is_row tenant_id id r ≡ true
    → (a : Action) → is_other tenant_id id token until a ≡ true
    → spares r a ≡ true
unfolding spares is_other
other_spares tenant_id id token until r l key (claiming ids now lease_seconds locked limit) o =
    rw (not_claimable token until now r l o)
other_spares tenant_id id token until r l key (completing now audit_id e) o =
    rw (not_held tenant_id id token until e r l key (ground arith))
other_spares tenant_id id token until r l key (failing now audit_id e type_name is_dead) o =
    rw (not_held tenant_id id token until e r l key (ground arith))
other_spares tenant_id id token until r l key (adding tenant e event_id now) o = refl

pub held :
    (token : Uuid) (until : Instant) (e : ClaimedOutboxEvent) (r : OutboxRow)
    → IsLeased token until r
    → is_row e.tenant_id e.id r ≡ true
    → e.lease_token ≡ token
    → holds_lease e r ≡ true
unfolding holds_lease
held token until e r l key same = true-and _ _ key (
    true-and _ _ ((outbox_status_eq.same_iff r.status OutboxStatus.publishing).1 l.is_publishing) (
      (option_eq.same_iff r.lease_token (some e.lease_token)).1 (l.has_token ∙ ap some (sym same))))

held_key :
    (e : ClaimedOutboxEvent) (x : OutboxRow)
    → holds_lease e x ≡ true
    → is_row e.tenant_id e.id x ≡ true
unfolding holds_lease
held_key e x h = (and-true (is_row e.tenant_id e.id x) _ h).0

module _ (e : ClaimedOutboxEvent) (r : OutboxRow) (db : Database)
    (there : HasRow e.tenant_id e.id r db.events) (now : Instant) (audit_id : Uuid) where
  -- The holder of the lease completes the event, and may fail it.
  pub complete_held :
      holds_lease e r ≡ true
      → (complete now audit_id e db ≡ ok (completed now audit_id e db))
        × HasRow e.tenant_id e.id (as_published now r) (completed now audit_id e db).events
  unfolding complete completed is_row as_published
  complete_held h = (
    rw (count_hit e.tenant_id e.id r (holds_lease e) db.events (held_key e) h there),
    update_hit e.tenant_id e.id r (holds_lease e) (as_published now) db.events (λ x. refl) h there,
  )

  pub fail_held :
      (type_name : String) (is_dead : Bool)
      → holds_lease e r ≡ true
      → (fail now audit_id e type_name is_dead db ≡ ok (failed now audit_id e type_name is_dead db))
        × HasRow e.tenant_id e.id
            (as_failed now e type_name is_dead r)
            (failed now audit_id e type_name is_dead db).events
  unfolding fail failed is_row as_failed
  fail_held type_name is_dead h = (
    rw (count_hit e.tenant_id e.id r (holds_lease e) db.events (held_key e) h there),
    update_hit e.tenant_id e.id r (holds_lease e) (as_failed now e type_name is_dead) db.events
        (λ x. refl) h there,
  )

  -- Nobody else does: both raise.
  pub refused :
      (type_name : String) (is_dead : Bool)
      → holds_lease e r ≡ false
      → (complete now audit_id e db
          ≡ err (outbox_publication_error "outbox publication lease was lost"))
        × (fail now audit_id e type_name is_dead db
            ≡ err (outbox_publication_error "outbox failure lease was lost"))
  unfolding complete fail
  refused type_name is_dead h =
      let none_held =
        count_miss e.tenant_id e.id r (holds_lease e) db.events (held_key e) h there in
      (rw none_held, rw none_held)
