-- ===== src/Grouping/Moves.antt =====
-- src/store/projection.rs: what moves of sessions do to each row of the table.
use previously_on.Prelude.{
  String, Option, none, some, List, [], ◌∷◌, map, Bool, true, false, ◌==◌, ◌≡◌, refl, sym, ap, ◌∙◌,
  arith, inl, inr, Bool-cases, Option-cases, text_eq_iff, string_partial_eq, option_partial_eq, all,
  any, find, All, if◌then◌else◌,
}
use previously_on.Domain.Tasks.{SessionMoveV1}
use previously_on.Domain.Sessions.{SessionV1}
use previously_on.Grouping.{inverse_move, find_session, assign_task, move_sessions}

-- What the moves do to one session.
unfoldable pub relabel : List SessionMoveV1 → SessionV1 → SessionV1
relabel [] session = session
relabel (item ∷ moves) session = relabel moves (
    if session.id == item.session_id
    then record session { task_id = some item.to_task_id }
    else session)

unfoldable pub names : SessionV1 → List SessionMoveV1 → Bool
names session = any (λ item. item.session_id == session.id)

-- A session of the repository has this id.
unfoldable pub known : String → List SessionV1 → String → Bool
known repository_id sessions id = elim (find_session id sessions) [
  | none ↦ false
  | some session ↦ session.repository_id == repository_id
]

-- Every move names a session of the repository.
abbrev pub all_known : String → List SessionMoveV1 → List SessionV1 → Bool
all_known repository_id moves sessions =
    all (λ item. known repository_id sessions item.session_id) moves

known-assign_task :
    (repository_id id task_id other : String) (sessions : List SessionV1)
    → known repository_id (assign_task id task_id sessions) other
      ≡ known repository_id sessions other
unfolding known assign_task
known-assign_task repository_id id task_id other [] = refl
known-assign_task repository_id id task_id other (session ∷ sessions) =
    let rest = known-assign_task repository_id id task_id other sessions in
    elim (Bool-cases (session.id == id)) [
      | inl hit ↦ elim (Bool-cases (session.id == other)) [
        | inl same ↦ rw (hit, same, known, find) refl
        | inr apart ↦ rw (hit, apart, known, find) rest
      ]
      | inr miss ↦ elim (Bool-cases (session.id == other)) [
        | inl same ↦ rw (miss, same, known, find) refl
        | inr apart ↦ rw (miss, apart, known, find) rest
      ]
    ]

all_known-assign_task :
    (repository_id id task_id : String) (moves : List SessionMoveV1) (sessions : List SessionV1)
    → all_known repository_id moves (assign_task id task_id sessions)
      ≡ all_known repository_id moves sessions
all_known-assign_task repository_id id task_id [] sessions = refl
all_known-assign_task repository_id id task_id (item ∷ moves) sessions = ground (
  arith,
  known-assign_task repository_id id task_id item.session_id sessions,
  all_known-assign_task repository_id id task_id moves sessions,
)

map-relabel :
    (item : SessionMoveV1) (moves : List SessionMoveV1) (sessions : List SessionV1)
    → map (relabel moves) (assign_task item.session_id item.to_task_id sessions)
      ≡ map (relabel (item ∷ moves)) sessions
unfolding relabel assign_task
map-relabel item moves [] = refl
map-relabel item moves (session ∷ sessions) =
    ap (λ r. relabel (item ∷ moves) session ∷ r) (map-relabel item moves sessions)

relabel-none : (sessions : List SessionV1) → map (relabel []) sessions ≡ sessions
unfolding relabel
relabel-none [] = refl
relabel-none (session ∷ sessions) = ap (λ r. session ∷ r) (relabel-none sessions)

-- The moves succeed when every session is known, and then each session is relabelled.
pub move_sessions-relabel :
    (repository_id : String) (moves : List SessionMoveV1) (sessions : List SessionV1)
    → move_sessions repository_id moves sessions ≡ (
        if all_known repository_id moves sessions
        then some (map (relabel moves) sessions)
        else none)
unfolding move_sessions known
move_sessions-relabel repository_id [] sessions = ap some (sym (relabel-none sessions))
move_sessions-relabel repository_id (item ∷ moves) sessions =
    let step =
      move_sessions-relabel repository_id moves
        (assign_task item.session_id item.to_task_id sessions)
      ∙ ap
          (λ b.
            if b
            then some (map (relabel moves) (assign_task item.session_id item.to_task_id sessions))
            else none)
          (all_known-assign_task repository_id item.session_id item.to_task_id moves sessions)
      ∙ ap (λ l. if all_known repository_id moves sessions then some l else none)
          (map-relabel item moves sessions) in
    elim (Option-cases (find_session item.session_id sessions)) [
      | inl missing ↦ rw (missing, move_sessions, known) refl
      | inr (session, found) ↦ elim (Bool-cases (session.repository_id == repository_id)) [
        | inl mine ↦ rw (found, mine, move_sessions, known) step
        | inr foreign ↦ rw (found, foreign, move_sessions, known) refl
      ]
    ]

if_same : (b : Bool) (x y : SessionV1) → y ≡ x → (if b then x else y) ≡ x
if_same true x y e = refl
if_same false x y e = e

-- Moves to one task: each session that they name gets it, and the others stay as they are.
relabel-target :
    (task_id : String) (moves : List SessionMoveV1) (session : SessionV1)
    → all (λ item. item.to_task_id == task_id) moves ≡ true
    → relabel moves session
      ≡ (if names session moves then record session { task_id = some task_id } else session)
unfolding relabel names
relabel-target task_id [] session h = refl
relabel-target task_id (item ∷ moves) session h =
    elim (Bool-cases (session.id == item.session_id)) [
      | inl hit ↦
          let named : (item.session_id == session.id) ≡ true = ground (
            arith,
            hit,
            text_eq_iff session.id item.session_id,
            text_eq_iff item.session_id session.id,
          ) in
          let target : item.to_task_id ≡ task_id =
            ground (arith, h, text_eq_iff item.to_task_id task_id) in
          rw (hit, named, relabel, names)
            (relabel-target task_id moves (record session { task_id = some item.to_task_id })
                (ground (arith, h))
              ∙ if_same (names session moves) (record session { task_id = some task_id })
                  (record session { task_id = some item.to_task_id })
                  (ap (λ t. record session { task_id = some t }) target))
      | inr miss ↦
          let unnamed : (item.session_id == session.id) ≡ false = ground (
            arith,
            miss,
            text_eq_iff session.id item.session_id,
            text_eq_iff item.session_id session.id,
          ) in
          rw (miss, unnamed, relabel, names)
            (relabel-target task_id moves session (ground (arith, h)))
    ]

-- The moves change no session but in its task.
relabel-rest :
    (moves : List SessionMoveV1) (session : SessionV1) (task_id : Option String)
    → record (relabel moves session) { task_id = task_id } ≡ record session { task_id = task_id }
unfolding relabel
relabel-rest [] session task_id = refl
relabel-rest (item ∷ moves) session task_id = elim (Bool-cases (session.id == item.session_id)) [
  | inl hit ↦
      rw (hit, relabel)
        (relabel-rest moves (record session { task_id = some item.to_task_id }) task_id)
  | inr miss ↦ rw (miss, relabel) (relabel-rest moves session task_id)
]

relabel-unnamed :
    (moves : List SessionMoveV1) (session : SessionV1)
    → names session moves ≡ false
    → relabel moves session ≡ session
unfolding relabel names
relabel-unnamed [] session h = refl
relabel-unnamed (item ∷ moves) session h =
    let miss : (session.id == item.session_id) ≡ false =
      ground (
        arith,
        h,
        text_eq_iff session.id item.session_id,
        text_eq_iff item.session_id session.id,
      ) in
    rw (miss, relabel) (relabel-unnamed moves session (ground (arith, h)))

known-relabel :
    (repository_id : String) (moves : List SessionMoveV1) (sessions : List SessionV1) (id : String)
    → known repository_id (map (relabel moves) sessions) id ≡ known repository_id sessions id
known-relabel repository_id [] sessions id =
    ap (λ l. known repository_id l id) (relabel-none sessions)
known-relabel repository_id (item ∷ moves) sessions id =
    ap (λ l. known repository_id l id) (sym (map-relabel item moves sessions))
    ∙ known-relabel repository_id moves (assign_task item.session_id item.to_task_id sessions) id
    ∙ known-assign_task repository_id item.session_id item.to_task_id id sessions

pub all_known-relabel :
    (repository_id : String) (undone moves : List SessionMoveV1) (sessions : List SessionV1)
    → all_known repository_id undone (map (relabel moves) sessions)
      ≡ all_known repository_id undone sessions
all_known-relabel repository_id [] moves sessions = refl
all_known-relabel repository_id (item ∷ undone) moves sessions = ground (
  arith,
  known-relabel repository_id moves sessions item.session_id,
  all_known-relabel repository_id undone moves sessions,
)

pub all-inverse_move :
    (p : SessionMoveV1 → Bool) (moves : List SessionMoveV1)
    → all p (map inverse_move moves) ≡ all (λ item. p (inverse_move item)) moves
all-inverse_move p [] = refl
all-inverse_move p (item ∷ moves) = ground (arith, all-inverse_move p moves)

pub any-inverse_move :
    (p : SessionMoveV1 → Bool) (moves : List SessionMoveV1)
    → any p (map inverse_move moves) ≡ any (λ item. p (inverse_move item)) moves
any-inverse_move p [] = refl
any-inverse_move p (item ∷ moves) = ground (arith, any-inverse_move p moves)

-- Moves from one task, and moves of the same sessions back to it, leave a settled session as it is.
relabel-back :
    (source : String) (moves undone : List SessionMoveV1) (session : SessionV1)
    → all (λ item. item.to_task_id == source) undone ≡ true
    → names session undone ≡ names session moves
    → (names session moves ≡ true → session.task_id ≡ some source)
    → relabel undone (relabel moves session) ≡ session
unfolding names
relabel-back source moves undone session back same settled =
    elim (Bool-cases (names session moves)) [
      | inl named ↦
          let id_kept : (relabel moves session).id ≡ session.id =
            ap (λ s. s.id) (relabel-rest moves session none) in
          relabel-target source undone (relabel moves session) back
          ∙ ap
              (λ b.
                if b
                then record (relabel moves session) { task_id = some source }
                else relabel moves session)
              (ap (λ id. any (λ item. item.session_id == id) undone) id_kept ∙ same ∙ named)
          ∙ relabel-rest moves session (some source)
          ∙ ap (λ t. record session { task_id = t }) (sym (settled named))
      | inr unnamed ↦
          let kept = relabel-unnamed moves session unnamed in
          ap (relabel undone) kept ∙ relabel-unnamed undone session (same ∙ unnamed)
    ]

pub map-relabel-back :
    (source : String) (moves undone : List SessionMoveV1) (sessions : List SessionV1)
    → all (λ item. item.to_task_id == source) undone ≡ true
    → ((session : SessionV1) → names session undone ≡ names session moves)
    → All (λ session. names session moves ≡ true → session.task_id ≡ some source) sessions
    → map (relabel undone) (map (relabel moves) sessions) ≡ sessions
map-relabel-back source moves undone [] back same settled = refl
map-relabel-back source moves undone (session ∷ sessions) back same settled =
    let one = relabel-back source moves undone session back (same session) settled.0 in
    let rest = map-relabel-back source moves undone sessions back same settled.1 in cc
