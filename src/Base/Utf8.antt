-- ===== src/Base/Utf8.antt =====
-- `str.encode()` and `bytes.decode("utf-8", errors="replace")`.
use aegis_hass.Base.{
  ℕ, ◌+◌, ◌-◌, ◌*◌, ◌/◌, ◌%◌, ◌<◌, ◌≡◌, refl, Bool, ◌&&◌, ◌==◌, ltb, leb, if◌then◌else◌, [], ◌∷◌,
  ◌++◌, Bytes, All, arith,
}
use aegis_hass.Base.Text.{Text}

-- The bytes of one code point (the surrogates, which Python refuses to encode, excepted).
unfoldable pub encode_char : ℕ → Bytes
encode_char c =
    if ltb c 0x80
    then c ∷ []
    else if ltb c 0x800
    then (0xC0 + c / 64) ∷ (0x80 + c % 64) ∷ []
    else if ltb c 0x10000
    then (0xE0 + c / 4096) ∷ (0x80 + c / 64 % 64) ∷ (0x80 + c % 64) ∷ []
    else (0xF0 + c / 262144) ∷ (0x80 + c / 4096 % 64) ∷ (0x80 + c / 64 % 64) ∷ (0x80 + c % 64) ∷ []

unfoldable pub encode : Text → Bytes
encode [] = []
encode (c ∷ rest) = encode_char c ++ encode rest

-- A sequence that has begun: how many bytes it wants, the range of the next one, the bits so far.
pub record Sequence : Type 0 where
  pub wanted : ℕ
  pub low : ℕ
  pub high : ℕ
  pub bits : ℕ

abbrev pub between : Sequence
between = record { wanted = 0; low = 0; high = 0; bits = 0 }

abbrev pub replacement : ℕ
replacement = 0xFFFD

abbrev begins : ℕ → ℕ → ℕ → ℕ → Text × Sequence
begins n lo hi bits = ([], record { wanted = n; low = lo; high = hi; bits = bits })

abbrev in_range : ℕ → ℕ → ℕ → Bool
in_range lo hi b = leb lo b && leb b hi

-- The first byte of a sequence.
unfoldable pub start_byte : ℕ → Text × Sequence
start_byte b =
    if ltb b 0x80
    then (b ∷ [], between)
    else if in_range 0xC2 0xDF b
    then begins 1 0x80 0xBF (b - 0xC0)
    else if b == 0xE0
    then begins 2 0xA0 0xBF 0
    else if b == 0xED
    then begins 2 0x80 0x9F 0xD
    else if in_range 0xE1 0xEF b
    then begins 2 0x80 0xBF (b - 0xE0)
    else if b == 0xF0
    then begins 3 0x90 0xBF 0
    else if b == 0xF4
    then begins 3 0x80 0x8F 4
    else if in_range 0xF1 0xF3 b
    then begins 3 0x80 0xBF (b - 0xF0)
    else (replacement ∷ [], between)

-- A byte that does not continue a sequence replaces what there is of it, and starts anew.
unfoldable pub next_byte : Sequence → ℕ → Text × Sequence
unfolding start_byte
next_byte s b =
    let bits : ℕ = s.bits * 64 + b % 64 in
    let (out, started) = start_byte b in
    if s.wanted == 0
    then (out, started)
    else if in_range s.low s.high b
    then if s.wanted == 1 then (bits ∷ [], between) else begins (s.wanted - 1) 0x80 0xBF bits
    else (replacement ∷ out, started)

unfoldable pub decode_from : Sequence → Bytes → Text
unfolding next_byte
decode_from s [] = if s.wanted == 0 then [] else replacement ∷ []
decode_from s (b ∷ rest) = let (out, s') = next_byte s b in out ++ decode_from s' rest

unfoldable pub decode : Bytes → Text
unfolding decode_from
decode = decode_from between

-- ASCII text is its own encoding.
pub decode-ascii : (xs : Bytes) → All (λ b. b < 128) xs → decode xs ≡ xs
unfolding decode
decode-ascii [] h = refl
decode-ascii (b ∷ xs) (hb, h) = ground (arith, decode-ascii xs h)

pub encode-ascii : (xs : Text) → All (λ c. c < 128) xs → encode xs ≡ xs
unfolding encode encode_char
encode-ascii [] h = refl
encode-ascii (c ∷ xs) (hc, h) = ground (arith, encode-ascii xs h)

-- A text with each of the four widths, and Python's answers to broken input.
decode_widths :
    decode (encode (0x41 ∷ 0xE9 ∷ 0x20AC ∷ 0x1F600 ∷ [])) ≡ 0x41 ∷ 0xE9 ∷ 0x20AC ∷ 0x1F600 ∷ []
unfolding decode encode encode_char
decode_widths = refl

decode_broken :
    decode (0xE2 ∷ 0x82 ∷ 0x41 ∷ 0xFF ∷ 0xE0 ∷ 0x80 ∷ 0xF0 ∷ 0x9F ∷ [])
    ≡ replacement ∷ 0x41 ∷ replacement ∷ replacement ∷ replacement ∷ replacement ∷ []
unfolding decode
decode_broken = refl
