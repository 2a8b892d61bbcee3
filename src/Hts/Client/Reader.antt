-- ===== src/Hts/Client/Reader.antt =====
-- `_read_frame` of api/hts/client.py: the next STX…ETX frame out of buffered chunk reads.
pub mod Chunks
use aegis_hass.Base.{
  ℕ, ◌+◌, ◌*◌, Bool, not, ◌==◌, ltb, if◌then◌else◌, Option, none, some, List, [], ◌∷◌, ◌++◌, length,
  is_nonempty, Bytes,
}
use aegis_hass.Hts.Protocol.{stx, etx}

-- What one `reader.read(4096)` under its timeout comes to: a chunk, empty at the end of the stream,
-- or `TimeoutError`.
pub data Read : Type 0 where
  chunk : Bytes → Read
  timed_out : Read

pub data ReadError : Type 0 where
  timeout closed overflow : ReadError

-- A frame, or an error, with the buffer that it leaves and the reads that are still to come;
-- `waiting` is no outcome of the code: the reads that are listed are used up.
pub data Outcome : Type 0 where
  got : Bytes → Bytes → List Read → Outcome
  failed : ReadError → Bytes → List Read → Outcome
  waiting : Bytes → Outcome

abbrev pub max_frame_buffer_bytes : ℕ
max_frame_buffer_bytes = 256 * 1024

abbrev pub cons_first : ℕ → Option (Bytes × Bytes) → Option (Bytes × Bytes)
cons_first b none = none
cons_first b (some (front, rest)) = some (b ∷ front, rest)

-- `buf.find(ETX, stx_pos + 1)`: the bytes up to the first ETX, and those behind it.
unfoldable pub up_to_etx : Bytes → Option (Bytes × Bytes)
up_to_etx [] = none
up_to_etx (b ∷ rest) = if b == etx then some (etx ∷ [], rest) else cons_first b (up_to_etx rest)

-- The first STX, and the frame from there; what stands before it goes with the frame.
unfoldable pub extract_frame : Bytes → Option (Bytes × Bytes)
extract_frame [] = none
extract_frame (b ∷ rest) = if b == stx then cons_first stx (up_to_etx rest) else extract_frame rest

abbrev pub settle : Option (Bytes × Bytes) → List Read → Outcome → Outcome
settle none reads next = next
settle (some (frame, rest)) reads next = got frame rest reads

unfoldable pub read_frame : Bytes → List Read → Outcome
read_frame buf [] = settle (extract_frame buf) [] (waiting buf)
read_frame buf (timed_out ∷ reads) =
    settle (extract_frame buf) (timed_out ∷ reads) (failed timeout buf reads)
read_frame buf (chunk c ∷ reads) =
    let again = read_frame (buf ++ c) reads in
    settle (extract_frame buf) (chunk c ∷ reads) (
      if is_nonempty c
      then if ltb max_frame_buffer_bytes (length (buf ++ c))
        then failed overflow [] reads
        else again
      else failed closed buf reads)
