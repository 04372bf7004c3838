-- ===== src/Grouping/Undo.antt =====
-- src/grouping.rs: the inverse of an operation puts every session back.
use previously_on.Prelude.{
  ℕ, String, none, some, List, [], ◌∷◌, map, Bool, true, false, ◌==◌, ◌≡◌, refl, sym, ap, ◌∙◌,
  arith, inl, inr, Bool-cases, Option-cases, text_eq_iff, option_eq_iff, string_partial_eq,
  option_partial_eq, all, any, All, All-map, All-both, sort_by, any-sort_by, all-sort_by,
  if◌then◌else◌,
}
use previously_on.Domain.Tasks.{SessionMoveV1, TaskGroupingOperationV1}
use previously_on.Domain.Sessions.{SessionV1}
use previously_on.Grouping.{
  move_order, inverse_move, inverse, same_source, find_session, session_is_current,
  sessions_current, move_sessions,
}
use previously_on.Grouping.Moves.{
  all-inverse_move, all_known, all_known-relabel, any-inverse_move, known, map-relabel-back,
  move_sessions-relabel, names, relabel,
}

-- No two rows share their primary key.
abbrev pub IsKeyed : List SessionV1 → Type 0
IsKeyed [] = Unit
IsKeyed (session ∷ sessions) =
    (any (λ row. row.id == session.id) sessions ≡ false) × IsKeyed sessions

not_any :
    (id : String) (sessions : List SessionV1)
    → any (λ row. row.id == id) sessions ≡ false
    → All (λ row. (row.id == id) ≡ false) sessions
not_any id [] h = tt
not_any id (row ∷ rows) h = (ground (arith, h), not_any id rows (ground (arith, h)))

found_self :
    (sessions : List SessionV1)
    → IsKeyed sessions
    → All (λ session. find_session session.id sessions ≡ some session) sessions
found_self [] h = tt
found_self (session ∷ sessions) h = (
  ground (arith, text_eq_iff session.id session.id),
  All-map
      (λ row facts.
        ground
          (arith, facts.0, facts.1, text_eq_iff row.id session.id, text_eq_iff session.id row.id))
      sessions (All-both _ _ sessions (found_self sessions h.1) (not_any session.id sessions h.0)),
)

-- A session that a current move names is in the task that the move starts from.
named-settled :
    (repository_id source : String) (moves : List SessionMoveV1) (sessions : List SessionV1)
    (session : SessionV1)
    → all
        (λ item. session_is_current repository_id item (find_session item.session_id sessions))
        moves
      ≡ true
    → all (λ item. item.from_task_id == source) moves ≡ true
    → find_session session.id sessions ≡ some session
    → names session moves ≡ true
    → session.task_id ≡ some source
unfolding names
named-settled repository_id source [] sessions session current from found named =
    absurd (ground arith)
named-settled repository_id source (item ∷ moves) sessions session current from found named =
    elim (Bool-cases (item.session_id == session.id)) [
      | inl hit ↦
          let same : item.session_id ≡ session.id =
            ground (arith, hit, text_eq_iff item.session_id session.id) in
          let here : session_is_current repository_id item (find_session item.session_id sessions)
              ≡ true =
            ground (arith, current) in
          let seen : session_is_current repository_id item (some session) ≡ true =
            sym (
              ap (session_is_current repository_id item)
                (ap (λ id. find_session id sessions) same ∙ found))
            ∙ here in
          ground (
            arith,
            seen,
            from,
            option_eq_iff session.task_id (some item.from_task_id),
            text_eq_iff item.from_task_id source,
          )
      | inr miss ↦
          named-settled repository_id source moves sessions session (ground (arith, current))
            (ground (arith, from)) found (ground (arith, miss, named))
    ]

current-known :
    (repository_id : String) (moves : List SessionMoveV1) (sessions : List SessionV1)
    → all
        (λ item. session_is_current repository_id item (find_session item.session_id sessions))
        moves
      ≡ true
    → all_known repository_id moves sessions ≡ true
unfolding known
current-known repository_id [] sessions h = refl
current-known repository_id (item ∷ moves) sessions h =
    let rest = current-known repository_id moves sessions (ground (arith, h)) in
    elim (Option-cases (find_session item.session_id sessions)) [
      | inl missing ↦ absurd (ground (arith, h, missing))
      | inr (session, found) ↦ ground (arith, h, found, rest)
    ]

-- The source task of an operation: that of its first move.
abbrev source_of : List SessionMoveV1 → String
source_of [] = ""
source_of (first ∷ moves) = first.from_task_id

same_source-all :
    (moves : List SessionMoveV1)
    → same_source moves ≡ true
    → all (λ item. item.from_task_id == source_of moves) moves ≡ true
unfolding same_source
same_source-all [] h = absurd (ground arith)
same_source-all (first ∷ moves) h = h

-- An operation whose checks pass moves its sessions, in a table with a primary key, and the moves of
-- its inverse then bring every row back to what it was.
pub move_sessions-inverse :
    (sha256_hex : String → String) (now : ℕ) (operation : TaskGroupingOperationV1)
    (sessions : List SessionV1)
    → IsKeyed sessions
    → same_source operation.session_moves ≡ true
    → sessions_current operation sessions ≡ true
    → (moved : List SessionV1) × (move_sessions operation.repository_id operation.session_moves
          sessions
        ≡ some moved)
      × (move_sessions operation.repository_id
            (inverse sha256_hex now operation).session_moves
            moved
          ≡ some sessions)
unfolding sessions_current inverse names
move_sessions-inverse sha256_hex now operation sessions keyed same current =
    let moves = operation.session_moves in
    let id = operation.repository_id in
    let source = source_of moves in
    let back_moves = sort_by move_order (map inverse_move moves) in
    let from = same_source-all moves same in
    let ready = current-known id moves sessions current in
    let all_back : (p : SessionMoveV1 → Bool)
        → all p back_moves ≡ all (λ item. p (inverse_move item)) moves =
      λ p. all-sort_by move_order p (map inverse_move moves) ∙ all-inverse_move p moves in
    let settled =
      All-map (λ session found. named-settled id source moves sessions session current from found)
        sessions (found_self sessions keyed) in
    let moved = map (relabel moves) sessions in
    (
      moved,
      move_sessions-relabel id moves sessions ∙ ap (λ b. if b then some moved else none) ready,
      move_sessions-relabel id back_moves moved
          ∙ ap (λ b. if b then some (map (relabel back_moves) moved) else none)
              (all_known-relabel id back_moves moves sessions
                ∙ all_back (λ item. known id sessions item.session_id)
                ∙ ready)
          ∙ ap some (
              map-relabel-back source moves back_moves sessions
                (all_back (λ item. item.to_task_id == source) ∙ from)
                (λ session.
                  any-sort_by move_order (λ item. item.session_id == session.id)
                    (map inverse_move moves)
                  ∙ any-inverse_move (λ item. item.session_id == session.id) moves)
                settled),
    )
