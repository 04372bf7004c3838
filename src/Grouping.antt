-- ===== src/Grouping.antt =====
-- src/grouping.rs, src/store/operations.rs and src/store/projection.rs: the operations that move
-- sessions from one task to another, the inverse of one, and the moves in the table of sessions.
pub mod Moves
pub mod Undo
mod Tests
use previously_on.Prelude.{
  ℕ, String, Option, none, some, List, [], ◌∷◌, map, Bool, true, false, ◌&&◌, ◌||◌, not, ◌==◌,
  string_partial_eq, option_partial_eq, all, find, sort_by, text_cmp, then_cmp, Ordering, concat,
  if◌then◌else◌,
}
use previously_on.Domain.{schema_version_v1}
use previously_on.Domain.Tasks.{
  TaskLifecycle, TaskV1, TaskGroupingActionV1, undo, SessionMoveV1, TaskLifecycleSnapshotV1,
  FactGroupingImpactV1, TaskGroupingOperationV1, deterministic_id,
}
use previously_on.Domain.Sessions.{SessionV1}

-- The derived order of `SessionMoveV1`.
unfoldable pub move_order : SessionMoveV1 → SessionMoveV1 → Ordering
move_order a b =
    then_cmp (text_cmp a.session_id b.session_id)
      (then_cmp (text_cmp a.from_task_id b.from_task_id) (text_cmp a.to_task_id b.to_task_id))

abbrev pub inverse_move : SessionMoveV1 → SessionMoveV1
inverse_move item = record {
  session_id = item.session_id;
  from_task_id = item.to_task_id;
  to_task_id = item.from_task_id;
}

abbrev unwrap_or : String → Option String → String
unwrap_or fallback none = fallback
unwrap_or fallback (some s) = s

abbrev back_to : String → Option String → Option String
back_to from_task_id none = none
back_to from_task_id (some to_task_id) = some from_task_id

abbrev inverse_impact : FactGroupingImpactV1 → FactGroupingImpactV1
inverse_impact item = record item {
  from_task_id = unwrap_or item.from_task_id item.to_task_id;
  to_task_id = back_to item.from_task_id item.to_task_id;
}

abbrev inverse_snapshot : TaskLifecycleSnapshotV1 → TaskLifecycleSnapshotV1
inverse_snapshot item = record item { before = item.after; after = item.before }

-- The inverse of an operation, made at `now`.
unfoldable pub inverse : (String → String) → ℕ → TaskGroupingOperationV1 → TaskGroupingOperationV1
unfolding move_order
inverse sha256_hex now operation = record {
  schema_version = schema_version_v1;
  operation_id = deterministic_id sha256_hex "grouping-undo" (operation.operation_id ∷ []);
  repository_id = operation.repository_id;
  action = undo;
  session_moves = sort_by move_order (map inverse_move operation.session_moves);
  task_lifecycle =
      sort_by (λ a b. text_cmp a.task_id b.task_id) (map inverse_snapshot operation.task_lifecycle);
  fact_impacts =
      sort_by (λ a b. text_cmp a.fact_id b.fact_id) (map inverse_impact operation.fact_impacts);
  created_task = operation.created_task;
  inverse_of = some operation.operation_id;
  request_fingerprint = sha256_hex (concat ("undo\0" ∷ operation.operation_id ∷ []));
  occurred_at = now;
}

-- All moves start from the task of the first one.
unfoldable pub same_source : List SessionMoveV1 → Bool
same_source [] = false
same_source (first ∷ moves) =
    all (λ movement. movement.from_task_id == first.from_task_id) (first ∷ moves)

abbrev find_session : String → List SessionV1 → Option SessionV1
find_session id sessions = find (λ session. session.id == id) sessions

-- The session of a move is in the repository, and in the task that the move names.
abbrev session_is_current : String → SessionMoveV1 → Option SessionV1 → Bool
session_is_current repository_id movement none = false
session_is_current repository_id movement (some session) =
    session.repository_id == repository_id && session.task_id == some movement.from_task_id

-- The checks of the sessions, before an operation is claimed.
unfoldable pub sessions_current : TaskGroupingOperationV1 → List SessionV1 → Bool
sessions_current operation sessions =
    all
      (λ movement.
        session_is_current operation.repository_id movement
          (find_session movement.session_id sessions))
      operation.session_moves

-- The row with this id, which is the primary key, gets another task.
unfoldable pub assign_task : String → String → List SessionV1 → List SessionV1
assign_task id task_id =
    map (λ session. if session.id == id then record session { task_id = some task_id } else session)

-- The loop over the session moves in `apply_task_grouping_projection`, on the table of sessions;
-- `none` is its error.
unfoldable pub move_sessions :
    String → List SessionMoveV1 → List SessionV1 → Option (List SessionV1)
unfolding assign_task
move_sessions repository_id [] sessions = some sessions
move_sessions repository_id (item ∷ moves) sessions =
    let rest =
      move_sessions repository_id moves (assign_task item.session_id item.to_task_id sessions) in
    elim (find_session item.session_id sessions) [
      | none ↦ none
      | some session ↦ if not (session.repository_id == repository_id) then none else rest
    ]
