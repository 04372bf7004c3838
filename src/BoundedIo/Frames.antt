-- ===== src/BoundedIo/Frames.antt =====
-- src/bounded_io.rs: the loop of `read_bounded_line`, against the bytes that its reader holds.
use previously_on.Prelude.{
  ℕ, suc, ◌+◌, ◌-◌, ◌≤◌, Option, none, some, List, [], ◌∷◌, ◌++◌, Bool, true, false, not, ◌&&◌,
  ◌||◌, ◌≡◌, refl, sym, ap, ◌∙◌, arith, leb, length, take, is_empty, length-append, length-take-le,
  if◌then◌else◌, Bool-cases, inl, inr,
}
use mathlib.Core.List.{append_assoc, append-nil}
use previously_on.BoundedIo.{
  BoundedLine, eof, line, too_long, Fill, bytes, failure, ok, position_newline, finish, consumed_of,
  absorb, read_round, read_loop, read_bounded_line,
}
use previously_on.BoundedIo.Stream.{
  frame, behind, stream, IsSound, expected, frame-none, behind-nil, frame-nil, behind-none,
  frame-some, behind-some, length-take-some, take-length, stream-consume, consume-IsSound,
}

and_left : (a b : Bool) → (a && b) ≡ true → a ≡ true
and_left a b h = ground arith

module _ (limit : ℕ) (drain : Bool) where
  -- What the loop should give from a state between two buffers.
  abbrev target : List ℕ → Bool → Bool → List ℕ → BoundedLine
  target so_far saw_input oversized rest =
      if oversized
      then too_long
      else if leb (length so_far + length (frame rest)) limit
      then (if saw_input || not (is_empty rest) then line (so_far ++ frame rest) else eof)
      else too_long

  -- A buffer with no newline: the target does not change when the buffer is taken in.
  target-absorb-none :
      (so_far : List ℕ) (saw_input oversized : Bool) (b : ℕ) (bs rest : List ℕ)
      → position_newline (b ∷ bs) ≡ none
      → length so_far ≤ limit
      → let (so_far', oversized') = absorb limit oversized so_far (b ∷ bs) (length (b ∷ bs)) in
        (target so_far' true oversized' rest ≡ target so_far saw_input oversized ((b ∷ bs) ++ rest))
        × (length so_far' ≤ limit)
  unfolding absorb
  target-absorb-none so_far saw_input true b bs rest h fits = (refl, fits)
  target-absorb-none so_far saw_input false b bs rest h fits =
      elim (Bool-cases (leb (length (b ∷ bs)) (limit - length so_far))) [
        | inl within ↦
            rw (within, take-length (b ∷ bs))
              (ground (
                arith,
                frame-none (b ∷ bs) rest h,
                length-append so_far (b ∷ bs),
                length-append (b ∷ bs) (frame rest),
                append_assoc so_far (b ∷ bs) (frame rest),
              ))
        | inr beyond ↦ rw beyond (
            ground (
              arith,
              frame-none (b ∷ bs) rest h,
              length-append (b ∷ bs) (frame rest),
              length-append so_far (take (limit - length so_far) (b ∷ bs)),
              length-take-le (limit - length so_far) (b ∷ bs),
            ))
      ]

  -- A buffer with a newline: the target is the result of the round.
  target-absorb-some :
      (so_far : List ℕ) (saw_input oversized : Bool) (b : ℕ) (bs rest : List ℕ) (i : ℕ)
      → position_newline (b ∷ bs) ≡ some i
      → length so_far ≤ limit
      → let (so_far', oversized') = absorb limit oversized so_far (b ∷ bs) (suc i) in
        finish oversized' true so_far' ≡ target so_far saw_input oversized ((b ∷ bs) ++ rest)
  unfolding absorb
  target-absorb-some so_far saw_input true b bs rest i h fits = refl
  target-absorb-some so_far saw_input false b bs rest i h fits =
      ground (arith, frame-some (b ∷ bs) rest i h, length-take-some (b ∷ bs) i h)

  read_round_result :
      (so_far : List ℕ) (saw_input oversized : Bool) (b : ℕ) (bs : List ℕ) (reader : List Fill)
      → length so_far ≤ limit
      → ((so_far' : List ℕ) (oversized' : Bool)
          → length so_far' ≤ limit
          → (read_loop limit drain so_far' true oversized' reader).0
            ≡ ok (target so_far' true oversized' (stream reader)))
      → (found : Option ℕ) → position_newline (b ∷ bs) ≡ found
      → let state = absorb limit oversized so_far (b ∷ bs) (consumed_of found (b ∷ bs)) in
        (read_round drain found
          (b ∷ bs)
          reader
          state
          (read_loop limit drain state.0 true state.1 reader)).0
        ≡ ok (target so_far saw_input oversized ((b ∷ bs) ++ stream reader))
  unfolding read_round
  read_round_result so_far saw_input oversized b bs reader fits ih (some i) found =
      ap ok (target-absorb-some so_far saw_input oversized b bs (stream reader) i found fits)
  read_round_result so_far saw_input oversized b bs reader fits ih none nothing =
      let state = absorb limit oversized so_far (b ∷ bs) (length (b ∷ bs)) in
      let (same, fits') =
        target-absorb-none so_far saw_input oversized b bs (stream reader) nothing fits in
      elim (Bool-cases (state.1 && not drain)) [
        | inl stops ↦
            let full : state.1 ≡ true = and_left state.1 (not drain) stops in
            rw stops (ap ok (rw full at same))
        | inr goes_on ↦ rw goes_on (ih state.0 state.1 fits' ∙ ap ok same)
      ]

  read_loop_result :
      (so_far : List ℕ) (saw_input oversized : Bool) (reader : List Fill)
      → IsSound reader
      → length so_far ≤ limit
      → (read_loop limit drain so_far saw_input oversized reader).0
        ≡ ok (target so_far saw_input oversized (stream reader))
  unfolding read_loop
  read_loop_result so_far saw_input oversized [] sound fits =
      ground (arith, append-nil so_far, frame-nil)
  read_loop_result so_far saw_input oversized (failure ∷ reader) sound fits = absurd sound
  read_loop_result so_far saw_input oversized (bytes [] ∷ reader) sound fits = absurd sound
  read_loop_result so_far saw_input oversized (bytes (b ∷ bs) ∷ reader) sound fits =
      read_round_result so_far saw_input oversized b bs reader fits
        (λ so_far' oversized' fits'. read_loop_result so_far' true oversized' reader sound fits')
        (position_newline (b ∷ bs)) refl

  -- Where the loop does not give up early, it leaves what stands behind the frame.
  read_round_rest :
      (so_far : List ℕ) (oversized : Bool) (b : ℕ) (bs : List ℕ) (reader : List Fill)
      → drain ≡ true
      → IsSound reader
      → ((so_far' : List ℕ) (oversized' : Bool)
          → (stream (read_loop limit drain so_far' true oversized' reader).1
              ≡ behind (stream reader))
            × IsSound (read_loop limit drain so_far' true oversized' reader).1)
      → (found : Option ℕ) → position_newline (b ∷ bs) ≡ found
      → let state = absorb limit oversized so_far (b ∷ bs) (consumed_of found (b ∷ bs)) in
        let left =
          (read_round drain found
            (b ∷ bs)
            reader
            state
            (read_loop limit drain state.0 true state.1 reader)).1 in
        (stream left ≡ behind ((b ∷ bs) ++ stream reader)) × IsSound left
  unfolding read_round
  read_round_rest so_far oversized b bs reader drains sound ih (some i) found = (
    stream-consume (suc i) (b ∷ bs) reader ∙ sym (behind-some (b ∷ bs) (stream reader) i found),
    consume-IsSound (suc i) (b ∷ bs) reader sound,
  )
  read_round_rest so_far oversized b bs reader drains sound ih none nothing =
      let state = absorb limit oversized so_far (b ∷ bs) (length (b ∷ bs)) in
      let goes_on : (state.1 && not drain) ≡ false = ground arith in
      let (left, sound') = ih state.0 state.1 in
      rw goes_on (left ∙ sym (behind-none (b ∷ bs) (stream reader) nothing), sound')

  read_loop_rest :
      (so_far : List ℕ) (saw_input oversized : Bool) (reader : List Fill)
      → drain ≡ true
      → IsSound reader
      → (stream (read_loop limit drain so_far saw_input oversized reader).1
          ≡ behind (stream reader))
        × IsSound (read_loop limit drain so_far saw_input oversized reader).1
  unfolding read_loop
  read_loop_rest so_far saw_input oversized [] drains sound = (sym behind-nil, tt)
  read_loop_rest so_far saw_input oversized (failure ∷ reader) drains sound = absurd sound
  read_loop_rest so_far saw_input oversized (bytes [] ∷ reader) drains sound = absurd sound
  read_loop_rest so_far saw_input oversized (bytes (b ∷ bs) ∷ reader) drains sound =
      read_round_rest so_far oversized b bs reader drains sound
        (λ so_far' oversized'. read_loop_rest so_far' true oversized' reader drains sound)
        (position_newline (b ∷ bs)) refl

-- From a reader whose buffers do not fail and are not empty, a read gives the end of the input if
-- there are no bytes, the bytes up to the first newline (or to the end) if they are within the
-- limit, and `too_long` otherwise, however the bytes are cut into buffers, drained or not.
pub read_bounded_line_result :
    (reader : List Fill) (limit : ℕ) (drain_oversized : Bool)
    → IsSound reader
    → (read_bounded_line reader limit drain_oversized).0 ≡ ok (expected limit (stream reader))
unfolding read_bounded_line
read_bounded_line_result reader limit drain_oversized sound =
    read_loop_result limit drain_oversized [] false false reader sound (omega arith)
    ∙ ap ok (target-start (stream reader))
  where
    target-start :
        (rest : List ℕ) → target limit drain_oversized [] false false rest ≡ expected limit rest
    target-start [] = ground (arith, frame-nil)
    target-start (b ∷ bs) = ground arith

-- From a reader whose buffers do not fail and are not empty, a read that drains leaves the bytes
-- behind the first newline (none if there is no newline), whether the frame was within the limit or
-- not, and again buffers that do not fail and are not empty.
pub read_bounded_line_rest :
    (reader : List Fill) (limit : ℕ)
    → IsSound reader
    → (stream (read_bounded_line reader limit true).1 ≡ behind (stream reader))
      × IsSound (read_bounded_line reader limit true).1
unfolding read_bounded_line
read_bounded_line_rest reader limit sound =
    read_loop_rest limit true [] false false reader refl sound
