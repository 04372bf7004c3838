-- ===== src/BoundedIo/Stream.antt =====
-- src/bounded_io.rs: the bytes of a reader, cut at the first newline, apart from their buffers.
use previously_on.Prelude.{
  ℕ, zero, suc, none, some, List, [], ◌∷◌, ◌++◌, ◌≡◌, refl, ap, arith, nat_eq, leb, length, take,
  if◌then◌else◌,
}
use previously_on.BoundedIo.{
  BoundedLine, eof, line, too_long, Fill, bytes, failure, newline, position_newline, drop, consume,
}

-- A stream cut behind its first newline: the frame, and the rest.
unfoldable pub frame : List ℕ → List ℕ
frame [] = []
frame (b ∷ bs) = let rest = frame bs in if nat_eq b newline then b ∷ [] else b ∷ rest

unfoldable pub behind : List ℕ → List ℕ
behind [] = []
behind (b ∷ bs) = let rest = behind bs in if nat_eq b newline then bs else rest

-- All bytes of the reader.
abbrev pub stream : List Fill → List ℕ
stream [] = []
stream (bytes bs ∷ reader) = bs ++ stream reader
stream (failure ∷ reader) = stream reader

-- No buffer fails, and none is empty before the end of the input.
abbrev pub IsSound : List Fill → Type 0
IsSound [] = Unit
IsSound (bytes [] ∷ reader) = ⊥
IsSound (bytes (b ∷ bs) ∷ reader) = IsSound reader
IsSound (failure ∷ reader) = ⊥

-- What a read should give: the frame, if it is within the limit, and nothing of it otherwise.
abbrev pub expected : ℕ → List ℕ → BoundedLine
expected limit [] = eof
expected limit (b ∷ bs) =
    if leb (length (frame (b ∷ bs))) limit then line (frame (b ∷ bs)) else too_long

pub frame-none :
    (bs rest : List ℕ) → position_newline bs ≡ none → frame (bs ++ rest) ≡ bs ++ frame rest
unfolding frame position_newline
frame-none [] rest h = refl
frame-none (b ∷ bs) rest h = ground (arith, frame-none bs rest)

pub behind-nil : behind [] ≡ []
unfolding behind
behind-nil = refl

pub frame-nil : frame [] ≡ []
unfolding frame
frame-nil = refl

pub behind-none :
    (bs rest : List ℕ) → position_newline bs ≡ none → behind (bs ++ rest) ≡ behind rest
unfolding behind position_newline
behind-none [] rest h = refl
behind-none (b ∷ bs) rest h = ground (arith, behind-none bs rest)

pub frame-some :
    (bs rest : List ℕ) (i : ℕ) → position_newline bs ≡ some i → frame (bs ++ rest) ≡ take (suc i) bs
unfolding frame position_newline
frame-some [] rest i h = ground arith
frame-some (b ∷ bs) rest zero h = ground arith
frame-some (b ∷ bs) rest (suc i) h = ground (arith, frame-some bs rest i)

pub behind-some :
    (bs rest : List ℕ) (i : ℕ)
    → position_newline bs ≡ some i
    → behind (bs ++ rest) ≡ drop (suc i) bs ++ rest
unfolding behind position_newline
behind-some [] rest i h = ground arith
behind-some (b ∷ bs) rest zero h = ground arith
behind-some (b ∷ bs) rest (suc i) h = ground (arith, behind-some bs rest i)

pub length-take-some :
    (bs : List ℕ) (i : ℕ) → position_newline bs ≡ some i → length (take (suc i) bs) ≡ suc i
unfolding position_newline
length-take-some [] i h = ground arith
length-take-some (b ∷ bs) zero h = refl
length-take-some (b ∷ bs) (suc i) h = ground (arith, length-take-some bs i)

pub take-length : (bs : List ℕ) → take (length bs) bs ≡ bs
take-length [] = refl
take-length (b ∷ bs) = ap (λ r. b ∷ r) (take-length bs)

pub stream-consume :
    (n : ℕ) (available : List ℕ) (reader : List Fill)
    → stream (consume n available reader) ≡ drop n available ++ stream reader
stream-consume n available reader = ground arith

pub consume-IsSound :
    (n : ℕ) (available : List ℕ) (reader : List Fill)
    → IsSound reader
    → IsSound (consume n available reader)
consume-IsSound n available reader h = ground arith
