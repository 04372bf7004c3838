-- ===== src/EventStore/Tests.antt =====
-- src/store.rs: two events that share a dedupe key, and the first one written twice.
use previously_on.Prelude.{String, none, some, [], ◌∷◌, ◌≡◌, ◌≢◌, refl, false, true, map}
use previously_on.Domain.Coverage.{default_coverage}
use previously_on.Json.{string}
use previously_on.Redaction.{Patterns}
use previously_on.EventStore.{
  EventEnvelopeV1, InsertFault, WriteIo, written, inserted, user_prompt, insert_event_inner,
  insert_event_tx, prepare_event, is_taken, ensure_event_write_allowed, load_events,
}
use mathlib.Core.List.{Permᴰ}
use previously_on.EventStore.Order.{event_key, load_events-Perm}
use previously_on.EventStore.Unique.{
  IsUnique, insert_event_inner-IsUnique, insert_event_inner_again,
}

abbrev same_text : String → String
same_text s = s

abbrev patterns : Patterns
patterns = record {
  private_key = same_text;
  authorization = same_text;
  assignment = same_text;
  cli_secret_flag = same_text;
  url_credentials = same_text;
  well_known_token = same_text;
  sensitive_path = same_text;
}

abbrev event : EventEnvelopeV1
event = record {
  schema_version = 1;
  event_id = "e";
  dedupe_key = "k";
  source_id = "hook";
  repository_id = "r";
  session_id = "s";
  task_id = none;
  sequence = none;
  occurred_at = 1;
  received_at = 2;
  kind = user_prompt;
  payload = string "go";
  coverage = default_coverage;
}

abbrev other : EventEnvelopeV1
other = record event { event_id = "f"; dedupe_key = "l" }

abbrev io : WriteIo
io = record {
  locked = true;
  purged = false;
  journal_read = true;
  purging = some "another";
  opened = true;
  executed = true;
  projected = true;
  committed = true;
}

abbrev no_fault : InsertFault
no_fault = record { before_insert = false; before_commit = false; after_commit = false }

abbrev after_commit : InsertFault
after_commit = record { before_insert = false; before_commit = false; after_commit = true }

insert_event_inner-IsUnique_example :
    IsUnique (insert_event_inner patterns io after_commit event (other ∷ [])).1
insert_event_inner-IsUnique_example =
    insert_event_inner-IsUnique patterns io after_commit event (other ∷ []) (tt, tt)

first_answer : (insert_event_inner patterns io no_fault event (other ∷ [])).0 ≡ written inserted
unfolding insert_event_inner insert_event_tx prepare_event is_taken ensure_event_write_allowed
first_answer = refl

insert_event_inner_again_example :
    let after = (insert_event_inner patterns io no_fault event (other ∷ [])).1 in
    ((insert_event_inner patterns io after_commit event after).1 ≡ after)
    × ((insert_event_inner patterns io after_commit event after).0 ≢ written inserted)
insert_event_inner_again_example =
    insert_event_inner_again patterns io io no_fault after_commit event (other ∷ []) inserted
      first_answer

load_events-Perm_example :
    map event_key (load_events "r" (event ∷ other ∷ []))
    ≡ map event_key (load_events "r" (other ∷ event ∷ []))
load_events-Perm_example =
    load_events-Perm "r" (event ∷ other ∷ []) (other ∷ event ∷ []) (Permᴰ.swap refl refl)
