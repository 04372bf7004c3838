-- ===== src/BoundedIo.antt =====
-- src/bounded_io.rs: one newline-delimited frame of a buffered reader, in bounded memory. A reader
-- is the list of what `fill_buf` returns; a part of a buffer that is not consumed comes first next
-- time. The loop of `read_bounded_line_async` is the same, with `.await` at `fill_buf`.
pub mod Stream
pub mod Frames
mod Tests
use previously_on.Prelude.{
  ℕ, zero, suc, ◌+◌, ◌-◌, Option, none, some, List, [], ◌∷◌, ◌++◌, Bool, true, false, not, ◌&&◌,
  nat_eq, leb, length, take, if◌then◌else◌,
}

pub data BoundedLine : Type 0 where
  eof : BoundedLine
  line : List ℕ → BoundedLine
  too_long : BoundedLine

-- What a call of `fill_buf` gives: the bytes at hand, none at the end of the input, or an error.
pub data Fill : Type 0 where
  bytes : List ℕ → Fill
  failure : Fill

pub data IoResult : Type 0 where
  ok : BoundedLine → IoResult
  io_error : IoResult

abbrev pub newline : ℕ
newline = b'\n'

-- `iter().position(|byte| *byte == b'\n')`.
unfoldable pub position_newline : List ℕ → Option ℕ
position_newline [] = none
position_newline (b ∷ bs) =
    let rest = position_newline bs in
    if nat_eq b newline then some 0 else (elim rest [ none ↦ none | some i ↦ some (suc i) ])

abbrev pub drop : ℕ → List ℕ → List ℕ
drop zero bs = bs
drop (suc n) [] = []
drop (suc n) (b ∷ bs) = drop n bs

-- `consume`: nothing is left of a buffer that was used up.
abbrev pub consume : ℕ → List ℕ → List Fill → List Fill
consume n available reader = elim (drop n available) [
  | [] ↦ reader
  | b ∷ bs ↦ bytes (b ∷ bs) ∷ reader
]

-- The result where the frame ends: at a newline or at the end of the input.
abbrev pub finish : Bool → Bool → List ℕ → BoundedLine
finish true saw_input so_far = too_long
finish false true so_far = line so_far
finish false false so_far = eof

-- `newline.map_or(available.len(), |index| index + 1)`.
abbrev pub consumed_of : Option ℕ → List ℕ → ℕ
consumed_of none available = length available
consumed_of (some index) available = suc index

-- The block under `if !too_long`: the line and the flag after it.
unfoldable pub absorb : ℕ → Bool → List ℕ → List ℕ → ℕ → List ℕ × Bool
absorb limit true so_far available consumed = (so_far, true)
absorb limit false so_far available consumed =
    if leb consumed (limit - length so_far)
    then (so_far ++ take consumed available, false)
    else (so_far ++ take (limit - length so_far) available, true)

-- What a round returns, after the buffer is taken in: `rest` is the rest of the loop.
unfoldable pub read_round :
    Bool
    → Option ℕ
    → List ℕ
    → List Fill
    → List ℕ × Bool
    → IoResult × List Fill
    → IoResult × List Fill
read_round drain_oversized (some index) available reader (so_far, oversized) rest =
    (ok (finish oversized true so_far), consume (suc index) available reader)
read_round drain_oversized none available reader (so_far, oversized) rest =
    if oversized && not drain_oversized then (ok too_long, reader) else rest

-- The `loop`, one round for each buffer.
unfoldable pub read_loop : ℕ → Bool → List ℕ → Bool → Bool → List Fill → IoResult × List Fill
read_loop limit drain_oversized so_far saw_input oversized [] =
    (ok (finish oversized saw_input so_far), [])
read_loop limit drain_oversized so_far saw_input oversized (failure ∷ reader) = (io_error, reader)
read_loop limit drain_oversized so_far saw_input oversized (bytes [] ∷ reader) =
    (ok (finish oversized saw_input so_far), bytes [] ∷ reader)
read_loop limit drain_oversized so_far saw_input oversized (bytes (b ∷ bs) ∷ reader) =
    let available = b ∷ bs in
    let found = position_newline available in
    let state = absorb limit oversized so_far available (consumed_of found available) in
    read_round drain_oversized found available reader state
      (read_loop limit drain_oversized state.0 true state.1 reader)

unfoldable pub read_bounded_line : List Fill → ℕ → Bool → IoResult × List Fill
unfolding read_loop read_round absorb position_newline
read_bounded_line reader limit drain_oversized =
    read_loop limit drain_oversized [] false false reader
