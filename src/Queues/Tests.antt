-- ===== src/Queues/Tests.antt =====
-- Runs of the outbox at concrete rows, and its theorems at inputs where their hypotheses hold.
use plataforma_saa_s_de_auto.Prelude.{
  ℕ, ◌+◌, Bool, true, false, decide, ◌≡◌, refl, inl, String, some, none, List, [], ◌∷◌, Memᴰ, All,
  arith, find,
}
use plataforma_saa_s_de_auto.Prelude.{nat_eq, if◌then◌else◌, ◌==◌, ◌≤◌, ltb}
use plataforma_saa_s_de_auto.Errors.{ok, err, outbox_publication_error}
use plataforma_saa_s_de_auto.Queues.Table.{row_count, select_for_update, take}
use plataforma_saa_s_de_auto.Prelude.Sort.{sort_by, insert_by}
use plataforma_saa_s_de_auto.Prelude.{filter}
use plataforma_saa_s_de_auto.Queues.Outbox.{
  OutboxStatus, OutboxStatus-discrete, OutboxRow, ClaimedOutboxEvent, Database, is_row,
  is_claimable, is_over, is_before, claim, claim_rows, claimed_event, complete, completed, fail,
}
use plataforma_saa_s_de_auto.Queues.Outbox.Add.{
  OutboxEventData, add, insert_event, new_row, has_key, add_once,
}
use plataforma_saa_s_de_auto.Queues.Outbox.Rows.{HasRow, HasRow-of_mem}
use plataforma_saa_s_de_auto.Queues.Outbox.Actions.{
  Action, claiming, completing, failing, adding, run,
}
use plataforma_saa_s_de_auto.Queues.Outbox.Held.{IsLeased, is_other, is_lease}
use plataforma_saa_s_de_auto.Queues.Outbox.Leases.{lease_held, stale_refused, finished_stays}
use plataforma_saa_s_de_auto.Queues.Outbox.Claimed.{HasUniqueKeys}
use plataforma_saa_s_de_auto.Queues.Outbox.Batch.{Surroundings, publish_batch, OutboxPublishResult}
use plataforma_saa_s_de_auto.Queues.Outbox.Counts.{IsQuiet, publish_batch_returns}
use plataforma_saa_s_de_auto.Queues.Outbox.Ends.{EndsWith, Waits, is_early, next_attempt}
use plataforma_saa_s_de_auto.Queues.Outbox.Tallies.{is_taken, is_kept, is_given_up}

abbrev same_text : String → String
same_text s = s

abbrev quote_asked : OutboxEventData
quote_asked = record {
  event_key = "quote-7";
  event_type = "quote.requested";
  aggregate_type = "conversation";
  aggregate_id = 70;
  payload = "{}";
  correlation_id = 71;
  causation_id = 72;
  payload_version = 1;
}

abbrev waiting : OutboxRow
waiting = record {
  tenant_id = 1;
  id = 10;
  event_key = "handoff-1";
  event_type = "handoff.created";
  aggregate_type = "handoff";
  aggregate_id = 60;
  payload = "{}";
  payload_hash = "{}";
  payload_version = 1;
  occurred_at = 0;
  correlation_id = 61;
  causation_id = 62;
  status = OutboxStatus.pending;
  attempts = 0;
  next_attempt_at = 0;
  lease_token = none;
  lease_until = none;
  last_error = none;
  published_at = none;
  created_at = 0;
}

abbrev taken_row : OutboxRow
taken_row = record waiting {
  id = 11;
  event_key = "handoff-2";
  status = OutboxStatus.publishing;
  attempts = 1;
  lease_token = some 500;
  lease_until = some 60000000;
}

abbrev settled : OutboxRow
settled = record waiting { id = 12; event_key = "handoff-3"; status = OutboxStatus.published }

abbrev tables : Database
tables = record { events = waiting ∷ taken_row ∷ settled ∷ []; audit = [] }

tables-HasUniqueKeys : HasUniqueKeys tables.events
unfolding is_row
tables-HasUniqueKeys = ((refl, (refl, tt)), ((refl, tt), (tt, tt)))

-- The event of `taken_row`, under the token of some claim.
abbrev taken_event : ℕ → ClaimedOutboxEvent
taken_event token = record {
  tenant_id = 1;
  id = 11;
  event_key = "handoff-2";
  event_type = "handoff.created";
  aggregate_type = "handoff";
  aggregate_id = 60;
  payload = "{}";
  payload_hash = "{}";
  payload_version = 1;
  correlation_id = 61;
  causation_id = 62;
  lease_token = token;
  attempts = 1;
}

abbrev everybody : OutboxRow → Bool
everybody r = false

-- Another worker claims, a stale one tries to complete and to fail, and a use case adds.
abbrev others_work : List Action
others_work =
    claiming (λ n. 900 + n) 1000 30 everybody 50
    ∷ completing 2000 950 (taken_event 499)
    ∷ failing 3000 951 (taken_event 499) "TimeoutError" false
    ∷ adding 1 quote_asked 20 4000
    ∷ []

taken_there : HasRow 1 11 taken_row tables.events
taken_there =
    HasRow-of_mem taken_row tables.events tables-HasUniqueKeys (Memᴰ.tail (Memᴰ.head refl))

settled_there : HasRow 1 12 settled tables.events
settled_there =
    HasRow-of_mem settled tables.events tables-HasUniqueKeys
      (Memᴰ.tail (Memᴰ.tail (Memᴰ.head refl)))

taken_row-IsLeased : IsLeased 500 60000000 taken_row
taken_row-IsLeased = record { is_publishing = refl; has_token = refl; has_until = refl }

others_are_others : All (λ a. is_other 1 11 500 60000000 a ≡ true) others_work
unfolding is_other is_lease
others_are_others = (refl, (refl, (refl, (refl, tt))))

lease_held_example :
    let later = run same_text others_work tables in
    HasRow 1 11 taken_row later.events
    × (complete 5000 960 (taken_event 500) later ≡ ok (completed 5000 960 (taken_event 500) later))
    × HasRow 1 11
        (record taken_row {
          status = OutboxStatus.published;
          lease_token = none;
          lease_until = none;
          published_at = some 5000;
        })
        (completed 5000 960 (taken_event 500) later).events
lease_held_example =
    lease_held same_text (taken_event 500) 60000000 5000 960 taken_row others_work tables
      taken_there taken_row-IsLeased others_are_others

stale_refused_example :
    let later = run same_text others_work tables in
    (complete 5000 960 (taken_event 499) later
      ≡ err (outbox_publication_error "outbox publication lease was lost"))
    × (fail 5000 960 (taken_event 499) "TimeoutError" false later
        ≡ err (outbox_publication_error "outbox failure lease was lost"))
stale_refused_example =
    stale_refused same_text (taken_event 499) 500 60000000 5000 960 "TimeoutError" false taken_row
      others_work tables taken_there taken_row-IsLeased (omega arith) others_are_others

finished_stays_example :
    let later = run same_text others_work tables in
    HasRow 1 12 settled later.events
    × (complete 5000 960 (record (taken_event 500) { id = 12 }) later
        ≡ err (outbox_publication_error "outbox publication lease was lost"))
    × (fail 5000 960 (record (taken_event 500) { id = 12 }) "TimeoutError" false later
        ≡ err (outbox_publication_error "outbox failure lease was lost"))
finished_stays_example =
    finished_stays same_text (record (taken_event 500) { id = 12 }) 5000 960 "TimeoutError" false
      settled others_work tables settled_there (inl refl)

quote_added :
    add same_text 1 quote_asked 20 4000 tables
    ≡ ok (true, record tables { events = new_row same_text 1 quote_asked 20 4000 ∷ tables.events })
unfolding add insert_event row_count is_row find has_key
quote_added = refl

add_once_example :
    let db' : Database = record tables {
      events = new_row same_text 1 quote_asked 20 4000 ∷ tables.events;
    } in
    ((q : OutboxRow) × (find (has_key 1 "quote-7") db'.events ≡ some q) × (q.payload_hash ≡ "{}"))
    × (add same_text 1 quote_asked 21 9000 db' ≡ ok (false, db'))
add_once_example = add_once same_text 1 quote_asked 20 21 4000 9000 tables _ true quote_added

abbrev second : OutboxRow
second = record waiting { id = 13; event_key = "handoff-4"; attempts = 3 }

abbrev two_waiting : Database
two_waiting = record { events = waiting ∷ second ∷ settled ∷ []; audit = [] }

two_waiting-HasUniqueKeys : HasUniqueKeys two_waiting.events
unfolding is_row
two_waiting-HasUniqueKeys = ((refl, (refl, tt)), ((refl, tt), (tt, tt)))

-- The first event is not taken by the sink, the second is; another worker claims meanwhile.
abbrev around : Surroundings
around = record {
  canonical_hash = same_text;
  publish = λ e.
      if e.id == 10
      then some (record { is_permanent = false; type_name = "TimeoutError" })
      else none;
  complete_at = λ e. 5000;
  fail_at = λ e. 5000;
  audit_id = λ e. 960;
  meanwhile = λ e. claiming (λ n. 900 + n) 2000 30 everybody 50 ∷ [];
}

around-IsQuiet : IsQuiet around 5 30001000 (claim (λ n. 700 + n) 1000 30 everybody 50 two_waiting).0
unfolding is_other
around-IsQuiet f e mf me = (refl, tt)

abbrev claimed_now : List ClaimedOutboxEvent
claimed_now = (claim (λ n. 700 + n) 1000 30 everybody 50 two_waiting).0

both_are_claimed : claimed_now ≡ claimed_event waiting 700 ∷ claimed_event second 701 ∷ []
unfolding claim select_for_update is_claimable is_over take sort_by insert_by filter claim_rows
    decide OutboxStatus-discrete is_before
both_are_claimed = refl

early : (t : ℕ) → 5000 ≤ t → ltb 2000 t ≡ true
early t h = ground arith

around-Waits : Waits around 5 claimed_now
unfolding is_early
around-Waits f e failure mf me h = (early (next_attempt 5000 e.attempts) (omega arith), tt)

publish_batch_returns_example :
    (done : OutboxPublishResult × Database) × (publish_batch around 5
        (λ n. 700 + n)
        1000
        30
        everybody
        50
        two_waiting
      ≡ ok done)
    × All
        (λ e.
          (r : OutboxRow) × HasRow e.tenant_id e.id r done.1.events
          × EndsWith around 5 (around.publish e) e r)
        claimed_now
    × (done.0.published ≡ row_count (λ e. is_taken (around.publish e)) claimed_now)
    × (done.0.retried ≡ row_count (λ e. is_kept 5 (around.publish e) e) claimed_now)
    × (done.0.dead ≡ row_count (λ e. is_given_up 5 (around.publish e) e) claimed_now)
publish_batch_returns_example =
    publish_batch_returns around 5 (λ n. 700 + n) 1000 30 everybody 50 two_waiting
      two_waiting-HasUniqueKeys around-IsQuiet around-Waits
