-- ===== src/Queues/Outbox/Counts.antt =====
-- What a batch of publications comes to, while its leases last.
use plataforma_saa_s_de_auto.Prelude.{
  ℕ, Bool, true, false, ◌≡◌, refl, ap, ◌∙◌, subst, Option, some, none, List, [], ◌∷◌, Memᴰ, All,
  All-mem, All-intro, nat_eq, arith,
}
use plataforma_saa_s_de_auto.Errors.{ok, keep_or}
use plataforma_saa_s_de_auto.Foundation.{Uuid}
use plataforma_saa_s_de_auto.Queues.Table.{Apart, row_count, All-implies}
use plataforma_saa_s_de_auto.Queues.Outbox.{
  Instant, OutboxRow, ClaimedOutboxEvent, Database, Failure, is_row, claim, completed, failed,
  holds_lease, after_seconds, as_published, as_failed,
}
use plataforma_saa_s_de_auto.Queues.Outbox.Rows.{HasRow, HasRow-key}
use plataforma_saa_s_de_auto.Queues.Outbox.Actions.{
  Action, run, run-spares, complete_miss, fail_miss, spares,
}
use plataforma_saa_s_de_auto.Queues.Outbox.Held.{
  is_other, other_spares, held, complete_held, fail_held,
}
use plataforma_saa_s_de_auto.Queues.Outbox.Claimed.{
  HasUniqueKeys, Holds, same_event, eq_flip, claim-Holds, claim-Apart,
}
use plataforma_saa_s_de_auto.Queues.Outbox.Ends.{
  EndsWith, as_published-EndsWith, as_failed-EndsWith, Waits, EndsWith-spares,
}
use plataforma_saa_s_de_auto.Queues.Outbox.Tallies.{
  is_taken, is_given_up, is_kept, outcome, tally, tally_counts,
}
use plataforma_saa_s_de_auto.Queues.Outbox.Batch.{
  OutboxPublishResult, Outcome, counted, Surroundings, is_terminal_failure, record_failure,
  after_completion, after_publication, publish_event, publish_events, publish_batch,
}

same_event_symm : (e f : ClaimedOutboxEvent) → same_event e f ≡ false → same_event f e ≡ false
unfolding same_event
same_event_symm e f h = eq_flip f.tenant_id e.tenant_id f.id e.id h

-- A lease of one event is not the lease of a row that is found by another's key.
other_lease :
    (e f : ClaimedOutboxEvent) (r : OutboxRow)
    → same_event e f ≡ false
    → is_row f.tenant_id f.id r ≡ true
    → holds_lease e r ≡ false
unfolding same_event is_row holds_lease
other_lease e f r apart key = ground arith

module _ (s : Surroundings) (max_attempts : ℕ) where
  -- An event that its worker holds is handled, and no other row changes.
  abbrev Handled : Database → ClaimedOutboxEvent → Outcome × Database → Type 0
  Handled db e done =
      (f : ClaimedOutboxEvent) (r : OutboxRow)
      → same_event e f ≡ false
      → HasRow f.tenant_id f.id r db.events
      → HasRow f.tenant_id f.id r done.1.events

  -- The event's row in the table tells how its publication went.
  abbrev Ended : Option Failure → ClaimedOutboxEvent → Database → Type 0
  Ended o e db =
      (r : OutboxRow) × HasRow e.tenant_id e.id r db.events × EndsWith s max_attempts o e r

  -- Whatever row no transaction of the others meanwhile changes and no event of the list is of, is
  -- the same afterwards.
  abbrev Carries : List ClaimedOutboxEvent → Database → Database → Type 0
  Carries es db db' =
      (g : ClaimedOutboxEvent) (r : OutboxRow)
      → All (λ x. same_event x g ≡ false) es
      → All (λ x. All (λ a. spares r a ≡ true) (s.meanwhile x)) es
      → HasRow g.tenant_id g.id r db.events
      → HasRow g.tenant_id g.id r db'.events

  module _ (until : Instant) where
    handle_failure :
        (f : Failure) (e : ClaimedOutboxEvent) (db : Database)
        → Holds until db.events e
        → (done : Outcome × Database) × (record_failure s max_attempts f e db ≡ ok done)
          × (done.0 ≡ outcome s max_attempts (some f) e)
          × Handled db e done
          × Ended (some f) e done.1
    unfolding record_failure outcome
    handle_failure f e db (r, there, l) =
        let is_dead = is_terminal_failure s max_attempts f e in
        let key = HasRow-key e.tenant_id e.id r db.events there in
        let (fails, row) =
          fail_held e r db there (s.fail_at e) (s.audit_id e) f.type_name is_dead
            (held e.lease_token until e r l key refl) in
        (
          (
            outcome s max_attempts (some f) e,
            failed (s.fail_at e) (s.audit_id e) e f.type_name is_dead db,
          ),
          rw fails,
          refl,
          λ g q apart h.
              subst (λ x. HasRow g.tenant_id g.id q (keep_or db x).events) fails
                (fail_miss g.tenant_id g.id (s.fail_at e) (s.audit_id e) e f.type_name is_dead q db
                  (other_lease e g q apart (HasRow-key g.tenant_id g.id q db.events h)) h),
          (
            as_failed (s.fail_at e) e f.type_name is_dead r,
            row,
            as_failed-EndsWith s max_attempts f e r,
          ),
        )

    handle_publication :
        (o : Option Failure) (e : ClaimedOutboxEvent) (db : Database)
        → Holds until db.events e
        → (done : Outcome × Database) × (after_publication s max_attempts o e db ≡ ok done)
          × (done.0 ≡ outcome s max_attempts o e)
          × Handled db e done
          × Ended o e done.1
    unfolding after_publication after_completion outcome
    handle_publication (some f) e db h = handle_failure f e db h
    handle_publication none e db (r, there, l) =
        let key = HasRow-key e.tenant_id e.id r db.events there in
        let (completes, row) =
          complete_held e r db there (s.complete_at e) (s.audit_id e)
            (held e.lease_token until e r l key refl) in
        (
          (Outcome.published, completed (s.complete_at e) (s.audit_id e) e db),
          rw (completes, after_completion),
          refl,
          λ g q apart h.
              subst (λ x. HasRow g.tenant_id g.id q (keep_or db x).events) completes
                (complete_miss g.tenant_id g.id (s.complete_at e) (s.audit_id e) e q db
                  (other_lease e g q apart (HasRow-key g.tenant_id g.id q db.events h)) h),
          (as_published (s.complete_at e) r, row, as_published-EndsWith s max_attempts e r),
        )

    -- The other transactions before an event leave the leases alone.
    abbrev pub IsQuiet : List ClaimedOutboxEvent → Type 0
    IsQuiet es =
        (f e : ClaimedOutboxEvent)
        → Memᴰ f es
        → Memᴰ e es
        → All (λ a. is_other e.tenant_id e.id e.lease_token until a ≡ true) (s.meanwhile f)

    Holds-after :
        (e : ClaimedOutboxEvent) (actions : List Action) (db : Database)
        → All (λ a. is_other e.tenant_id e.id e.lease_token until a ≡ true) actions
        → Holds until db.events e
        → Holds until (run s.canonical_hash actions db).events e
    Holds-after e actions db quiet (r, there, l) =
        let key = HasRow-key e.tenant_id e.id r db.events there in
        (
          r,
          run-spares s.canonical_hash e.tenant_id e.id r actions db
              (All-implies (λ a. is_other e.tenant_id e.id e.lease_token until a ≡ true)
                (λ a. spares r a ≡ true) actions
                (λ a m o. other_spares e.tenant_id e.id e.lease_token until r l key a o) quiet)
              there,
          l,
        )

    publish_all :
        (es : List ClaimedOutboxEvent) (counts : OutboxPublishResult) (db : Database)
        → All (Holds until db.events) es
        → Apart same_event es
        → IsQuiet es
        → Waits s max_attempts es
        → (db' : Database) × (publish_events s max_attempts es counts db
            ≡ ok (tally s max_attempts es counts, db'))
          × Carries es db db'
          × All (λ e. Ended (s.publish e) e db') es
    unfolding publish_events publish_event tally
    publish_all [] counts db h apart quiet waits = (db, refl, (λ g r x y there. there), tt)
    publish_all (e ∷ es) counts db h apart quiet waits =
        let there : Memᴰ e (e ∷ es) = Memᴰ.head refl in
        let db1 = run s.canonical_hash (s.meanwhile e) db in
        let (done, handled, same, kept, mine) =
          handle_publication (s.publish e) e db1
            (Holds-after e (s.meanwhile e) db (quiet e e there there) h.0) in
        let still = All-intro (Holds until done.1.events) es (λ f m.
          let (r, row, l) =
            Holds-after f (s.meanwhile e) db (quiet e f there (Memᴰ.tail m))
              (All-mem (Holds until db.events) f es h.1 m) in
          (r, kept f r (All-mem (λ x. same_event e x ≡ false) f es apart.0 m) row, l)) in
        let (db', rest, carries, ended) =
          publish_all es (counted done.0 counts) done.1 still apart.1
            (λ f g mf mg. quiet f g (Memᴰ.tail mf) (Memᴰ.tail mg))
            (λ f g x mf mg. waits f g x (Memᴰ.tail mf) (Memᴰ.tail mg)) in
        let (r, row, ends) = mine in
        let spared =
          All-intro (λ x. All (λ a. spares r a ≡ true) (s.meanwhile x)) es
            (λ x m.
              EndsWith-spares s max_attempts (s.publish e) e r (s.meanwhile x) ends
                (λ failure fails. waits x e failure (Memᴰ.tail m) there fails)) in
        let others =
          All-implies (λ x. same_event e x ≡ false) (λ x. same_event x e ≡ false) es
            (λ x m apart. same_event_symm e x apart) apart.0 in
        (
          db',
          rw handled (rest ∙ ap (λ o. ok (tally s max_attempts es (counted o counts), db')) same),
          (λ g q away free first. carries g q away.1 free.1 (
              kept g q away.0
                (run-spares s.canonical_hash g.tenant_id g.id q (s.meanwhile e) db free.0 first))),
          ((r, carries e r others spared row, ends), ended),
        )

  -- In a table without duplicate keys, where meanwhile others claim only before the leases of the
  -- batch end and before the next attempt at an event that failed, and complete or fail nothing under
  -- those leases, `publish_batch` returns. In the table that it leaves, each claimed event that the
  -- sink took is published, at the time of its completion; each that failed for good or for the last
  -- time is dead; and each other one that failed waits for another attempt, due min(300, 2**attempts)
  -- seconds after the failure; none has a lease, and those that failed hold the error. The counters
  -- of the result are the numbers of these events.
  pub publish_batch_returns :
      (ids : ℕ → Uuid) (now : Instant) (lease_seconds : ℕ) (locked : OutboxRow → Bool) (limit : ℕ)
      (db : Database)
      → HasUniqueKeys db.events
      → IsQuiet (after_seconds now lease_seconds) (claim ids now lease_seconds locked limit db).0
      → Waits s max_attempts (claim ids now lease_seconds locked limit db).0
      → let claimed = (claim ids now lease_seconds locked limit db).0 in
        (done : OutboxPublishResult × Database) × (publish_batch s max_attempts ids now
            lease_seconds locked limit db
          ≡ ok done)
        × All
            (λ e.
              (r : OutboxRow) × HasRow e.tenant_id e.id r done.1.events
              × EndsWith s max_attempts (s.publish e) e r)
            claimed
        × (done.0.published ≡ row_count (λ e. is_taken (s.publish e)) claimed)
        × (done.0.retried ≡ row_count (λ e. is_kept max_attempts (s.publish e) e) claimed)
        × (done.0.dead ≡ row_count (λ e. is_given_up max_attempts (s.publish e) e) claimed)
  unfolding publish_batch
  publish_batch_returns ids now lease_seconds locked limit db unique quiet waits =
      let (claimed, after) = claim ids now lease_seconds locked limit db in
      let zero_counts : OutboxPublishResult = record { published = 0; retried = 0; dead = 0 } in
      let (db', returns, carries, ended) =
        publish_all (after_seconds now lease_seconds) claimed zero_counts after
          (claim-Holds ids now lease_seconds locked limit db unique)
          (claim-Apart ids now lease_seconds locked limit db unique) quiet waits in
      let (p, r, d) = tally_counts s max_attempts claimed zero_counts in
      (
        (tally s max_attempts claimed zero_counts, db'),
        returns,
        ended,
        omega (arith, p),
        omega (arith, r),
        omega (arith, d),
      )
