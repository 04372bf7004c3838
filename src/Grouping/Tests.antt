-- ===== src/Grouping/Tests.antt =====
-- src/grouping.rs: two sessions are moved to another task and back.
use previously_on.Prelude.{String, none, some, List, [], ◌∷◌, ◌≡◌, refl, concat, true}
use previously_on.Domain.Coverage.{default_coverage}
use previously_on.Domain.Tasks.{move, TaskGroupingOperationV1, SessionMoveV1}
use previously_on.Domain.Sessions.{SessionV1, active, normal}
use previously_on.Grouping.{inverse, same_source, sessions_current, move_sessions}
use previously_on.Grouping.Undo.{move_sessions-inverse}

abbrev session : String → String → SessionV1
session id task_id = record {
  schema_version = 1;
  id = id;
  repository_id = "r";
  task_id = some task_id;
  lifecycle = active;
  started_at = 1;
  ended_at = none;
  branch = none;
  head = none;
  source_thread_id = none;
  last_activity_at = none;
  turn_count = 0;
  compaction_count = 0;
  context_usage = none;
  continuation_state = normal;
  coverage = default_coverage;
}

abbrev movement : String → SessionMoveV1
movement id = record { session_id = id; from_task_id = "t"; to_task_id = "u" }

abbrev operation : TaskGroupingOperationV1
operation = record {
  schema_version = 1;
  operation_id = "op";
  repository_id = "r";
  action = move;
  session_moves = movement "a" ∷ movement "b" ∷ [];
  task_lifecycle = [];
  fact_impacts = [];
  created_task = none;
  inverse_of = none;
  request_fingerprint = "f";
  occurred_at = 5;
}

abbrev sessions : List SessionV1
sessions = session "b" "t" ∷ session "c" "u" ∷ session "a" "t" ∷ []

abbrev digest : String → String
digest s = concat ("digest of " ∷ s ∷ [])

from_one_task : same_source operation.session_moves ≡ true
unfolding same_source
from_one_task = refl

up_to_date : sessions_current operation sessions ≡ true
unfolding sessions_current
up_to_date = refl

-- The moves leave all three sessions in one task.
all_in_target :
    move_sessions "r" operation.session_moves sessions
    ≡ some (session "b" "u" ∷ session "c" "u" ∷ session "a" "u" ∷ [])
unfolding move_sessions
all_in_target = refl

move_sessions-inverse_example :
    (moved : List SessionV1) × (move_sessions operation.repository_id operation.session_moves
        sessions
      ≡ some moved)
    × (move_sessions operation.repository_id (inverse digest 9 operation).session_moves moved
        ≡ some sessions)
move_sessions-inverse_example =
    move_sessions-inverse digest 9 operation sessions (refl, (refl, (refl, tt))) from_one_task
      up_to_date
