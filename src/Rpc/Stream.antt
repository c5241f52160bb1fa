-- ===== src/Rpc/Stream.antt =====
-- What the layer reads from: any io.Reader, as the answers that it will give, and the errors.
use nodewatch_api.Base.{
  ℕ, ◌≤◌, ◌≡◌, refl, Option, none, some, List, [], ◌∷◌, ◌++◌, append_assoc, arith, length, take,
  drop, take-append-drop, length-take, length-drop, leb, if◌then◌else◌, All,
}

pub data RpcError : Type 0 where
  eof unexpected_eof varint_overflow no_progress io_failed : RpcError
  too_small too_large error_chunk_too_large compression_failed close_failed : RpcError
  no_op_codec decode_failed unexpected_result nil_panic not_returned : RpcError

-- One answer of the underlying reader: bytes, and an error that comes with the last of them.
pub record Piece : Type 0 where
  pub bytes : List ℕ
  pub error : Option RpcError

abbrev pub Stream : Type 0
Stream = List Piece

-- What one Read call returns, and the reader after it.
pub record Answer : Type 0 where
  pub got : List ℕ
  pub error : Option RpcError
  pub rest : Stream

-- `rd.Read(p)` with `len(p)` equal to `k`. A reader with no answers left is at its end.
unfoldable pub read_stream : ℕ → Stream → Answer
read_stream k [] = record { got = []; error = some eof; rest = [] }
read_stream k (p ∷ ps) =
    if leb (length p.bytes) k
    then record { got = p.bytes; error = p.error; rest = ps }
    else record {
      got = take k p.bytes;
      error = none;
      rest = record p { bytes = drop k p.bytes } ∷ ps;
    }

-- All the bytes that a reader still holds.
abbrev pub flat : Stream → List ℕ
flat [] = []
flat (p ∷ ps) = p.bytes ++ flat ps

-- A reader that answers with at least one byte and no error until its end.
abbrev pub IsSteady : Stream → Type 0
IsSteady = All (λ p. (1 ≤ length p.bytes) × (p.error ≡ none))

pub got-flat : (k : ℕ) (s : Stream) → (read_stream k s).got ++ flat (read_stream k s).rest ≡ flat s
unfolding read_stream
got-flat k [] = refl
got-flat k (p ∷ ps) =
    ground
      (arith, append_assoc (take k p.bytes) (drop k p.bytes) (flat ps), take-append-drop k p.bytes)

pub got-le : (k : ℕ) (s : Stream) → length (read_stream k s).got ≤ k
unfolding read_stream
got-le k [] = omega arith
got-le k (p ∷ ps) = ground (arith, length-take k p.bytes)

-- A steady reader goes on steadily, and answers a request for at least one byte with one at least.
pub read_stream-IsSteady :
    (k : ℕ) (s : Stream) → 1 ≤ k → IsSteady s → IsSteady (read_stream k s).rest
unfolding read_stream
read_stream-IsSteady k [] hk h = tt
read_stream-IsSteady k (p ∷ ps) hk h = ground (arith, length-drop k p.bytes)

pub read_stream_steady :
    (k : ℕ) (s : Stream)
    → 1 ≤ k
    → IsSteady s
    → 1 ≤ length (flat s)
    → (1 ≤ length (read_stream k s).got) × ((read_stream k s).error ≡ none)
unfolding read_stream
read_stream_steady k [] hk h l = absurd (omega arith)
read_stream_steady k (p ∷ ps) hk h l = ground (arith, length-take k p.bytes)
