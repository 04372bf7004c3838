-- ===== src/BoundedIo/Tests.antt =====
-- src/bounded_io.rs: a line in two buffers, with the beginning of the next one behind it.
use previously_on.Prelude.{ℕ, List, [], ◌∷◌, ◌≡◌, refl, true, false}
use previously_on.BoundedIo.{Fill, bytes, ok, line, too_long, read_bounded_line}
use previously_on.BoundedIo.Stream.{stream, behind, expected, IsSound}
use previously_on.BoundedIo.Frames.{read_bounded_line_result, read_bounded_line_rest}

abbrev reader : List Fill
reader = bytes (b'a' ∷ b'b' ∷ []) ∷ bytes (b'c' ∷ b'\n' ∷ b'd' ∷ []) ∷ []

reader-IsSound : IsSound reader
reader-IsSound = tt

abbrev abc : List ℕ
abc = b'a' ∷ b'b' ∷ b'c' ∷ b'\n' ∷ []

read_within : (read_bounded_line reader 4 false).0 ≡ ok (line abc)
unfolding read_bounded_line
read_within = refl

read_beyond : (read_bounded_line reader 3 true).0 ≡ ok too_long
unfolding read_bounded_line
read_beyond = refl

read_bounded_line_result_example :
    (read_bounded_line reader 3 true).0 ≡ ok (expected 3 (stream reader))
read_bounded_line_result_example = read_bounded_line_result reader 3 true reader-IsSound

read_bounded_line_rest_example :
    (stream (read_bounded_line reader 3 true).1 ≡ behind (stream reader))
    × IsSound (read_bounded_line reader 3 true).1
read_bounded_line_rest_example = read_bounded_line_rest reader 3 reader-IsSound
