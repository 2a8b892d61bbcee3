-- ===== src/Hts/Protocol/Escape.antt =====
-- `escape` and `unescape` of api/hts/protocol.py.
use aegis_hass.Base.{ℕ, ◌≡◌, ◌≢◌, refl, [], ◌∷◌, Bytes, ok, ◌>>=◌, All, arith, length, ◌≤◌}
use aegis_hass.Hts.Protocol.{stx, etx, esc, escape_map, unescape_map, escape, unescape, put}

-- No byte of an escaped text ends or starts a frame.
abbrev pub IsPlain : ℕ → Type 0
IsPlain b = (b ≢ stx) × (b ≢ etx)

-- What `escape` writes holds neither STX nor ETX, so a frame's delimiters are its ends.
pub escape-IsPlain : (xs : Bytes) → All IsPlain (escape xs)
unfolding escape escape_map
escape-IsPlain [] = tt
escape-IsPlain (x ∷ xs) = ground (arith, escape-IsPlain xs)

pub unescape_nil : unescape [] ≡ ok []
unfolding unescape
unescape_nil = refl

pub unescape_pair :
    (s : ℕ) (ys : Bytes) → unescape (esc ∷ s ∷ ys) ≡ put (unescape_map s) s (unescape ys)
unfolding unescape
unescape_pair s ys = refl

pub unescape_plain :
    (x : ℕ) (ys : Bytes) → x ≢ esc → unescape (x ∷ ys) ≡ (unescape ys >>= λ out. ok (x ∷ out))
unfolding unescape
unescape_plain x [] h = ground arith
unescape_plain x (y ∷ ys) h = ground arith

-- `unescape` gives back every byte string that `escape` was given.
pub unescape-escape : (xs : Bytes) → unescape (escape xs) ≡ ok xs
unfolding escape escape_map unescape_map
unescape-escape [] = unescape_nil
unescape-escape (x ∷ xs) = ground (
  arith,
  unescape-escape xs,
  unescape_plain x (escape xs),
  unescape_pair 0x32 (escape xs),
  unescape_pair 0x33 (escape xs),
  unescape_pair 0x34 (escape xs),
)

length-escape : (xs : Bytes) → length xs ≤ length (escape xs)
unfolding escape escape_map
length-escape [] = omega arith
length-escape (x ∷ xs) = ground (arith, length-escape xs)
