-- ===== src/Hts/Messages/Tlv.antt =====
-- The TLV codec of api/hts/messages.py, with padding.
use aegis_hass.Base.{
  ℕ, ◌≡◌, ◌≢◌, refl, sym, Bool-cases, inl, inr, ap, ap₂, ◌∙◌, true, if◌then◌else◌, List, [], ◌∷◌,
  ◌++◌, map, append-nil, append_assoc, is_nonempty, Bytes, All, arith,
}
use aegis_hass.Hts.Messages.{
  delim, tlv_esc, esc_delim, esc_esc, escape_byte, tlv_escape_param, tlv_unescape_param,
  encode_params, tlv_encode, split_segments, keep_nonempty, tlv_decode,
}

-- A byte that needs no escape, as every byte that `pad16` adds.
abbrev pub IsOrdinary : ℕ → Type 0
IsOrdinary b = (b ≢ delim) × (b ≢ tlv_esc)

escape_byte-ordinary : (b : ℕ) → IsOrdinary b → escape_byte b ≡ b ∷ []
unfolding escape_byte
escape_byte-ordinary b h = ground arith

unescape_one :
    (x : ℕ) (ys : Bytes) → x ≢ tlv_esc → tlv_unescape_param (x ∷ ys) ≡ x ∷ tlv_unescape_param ys
unfolding tlv_unescape_param
unescape_one x [] h = refl
unescape_one x (y ∷ ys) h = ground arith

unescape_esc :
    (s : ℕ) (ys : Bytes)
    → s ≡ esc_delim
    → tlv_unescape_param (tlv_esc ∷ s ∷ ys) ≡ delim ∷ tlv_unescape_param ys
unfolding tlv_unescape_param
unescape_esc s ys h = ground arith

unescape_esc_esc :
    (s : ℕ) (ys : Bytes)
    → s ≡ esc_esc
    → tlv_unescape_param (tlv_esc ∷ s ∷ ys) ≡ tlv_esc ∷ tlv_unescape_param ys
unfolding tlv_unescape_param
unescape_esc_esc s ys h = ground arith

unescape_nil : tlv_unescape_param [] ≡ []
unfolding tlv_unescape_param
unescape_nil = refl

-- A parameter is read back from its escaped form.
pub tlv_unescape_param-tlv_escape_param : (p : Bytes) → tlv_unescape_param (tlv_escape_param p) ≡ p
unfolding tlv_escape_param escape_byte
tlv_unescape_param-tlv_escape_param [] = unescape_nil
tlv_unescape_param-tlv_escape_param (b ∷ p) = ground (
  arith,
  tlv_unescape_param-tlv_escape_param p,
  unescape_one b (tlv_escape_param p),
  unescape_esc esc_delim (tlv_escape_param p),
  unescape_esc_esc esc_esc (tlv_escape_param p),
)

-- Unescaping does not touch ordinary bytes.
tlv_unescape_param-ordinary : (p : Bytes) → All IsOrdinary p → tlv_unescape_param p ≡ p
tlv_unescape_param-ordinary [] h = unescape_nil
tlv_unescape_param-ordinary (b ∷ p) ((hd, he), hp) =
    unescape_one b p he ∙ ap (λ t. b ∷ t) (tlv_unescape_param-ordinary p hp)

nonempty_snoc : (xs : Bytes) (b : ℕ) → is_nonempty (xs ++ (b ∷ [])) ≡ true
nonempty_snoc [] b = refl
nonempty_snoc (x ∷ xs) b = refl

-- The splitter passes over an escaped parameter, and over ordinary bytes.
split_ordinary :
    (current : Bytes) (b : ℕ) (rest : Bytes)
    → IsOrdinary b
    → split_segments current (b ∷ rest) ≡ split_segments (current ++ (b ∷ [])) rest
unfolding split_segments
split_ordinary current b [] h = ground (arith, nonempty_snoc current b)
split_ordinary current b (c ∷ rest) h = ground arith

split_pair :
    (current : Bytes) (s : ℕ) (rest : Bytes)
    → split_segments current (tlv_esc ∷ s ∷ rest)
      ≡ split_segments (current ++ (tlv_esc ∷ s ∷ [])) rest
unfolding split_segments
split_pair current s rest = refl

split_delim :
    (current rest : Bytes)
    → split_segments current (delim ∷ rest) ≡ current ∷ split_segments [] rest
unfolding split_segments
split_delim current [] = refl
split_delim current (c ∷ rest) = refl

split_escape_byte :
    (b : ℕ) (current rest : Bytes)
    → split_segments current (escape_byte b ++ rest)
      ≡ split_segments (current ++ escape_byte b) rest
unfolding escape_byte
split_escape_byte b current rest = ground (
  arith,
  split_pair current esc_delim rest,
  split_pair current esc_esc rest,
  split_ordinary current b rest,
)

split_escaped :
    (p current rest : Bytes)
    → split_segments current (tlv_escape_param p ++ rest)
      ≡ split_segments (current ++ tlv_escape_param p) rest
unfolding tlv_escape_param
split_escaped [] current rest = ap (λ t. split_segments t rest) (sym (append-nil current))
split_escaped (b ∷ p) current rest = rw append_assoc (
    split_escape_byte b current (tlv_escape_param p ++ rest)
    ∙ split_escaped p (current ++ escape_byte b) rest
    ∙ ap (λ t. split_segments t rest) (append_assoc current (escape_byte b) (tlv_escape_param p)))

split_run :
    (pad current : Bytes)
    → All IsOrdinary pad
    → split_segments current pad ≡ split_segments (current ++ pad) []
split_run [] current h = ap (λ t. split_segments t []) (sym (append-nil current))
split_run (b ∷ pad) current (hb, h) =
    split_ordinary current b pad hb
    ∙ split_run pad (current ++ (b ∷ [])) h
    ∙ ap (λ t. split_segments t []) (append_assoc current (b ∷ []) pad)

one_or_none : Bytes → List Bytes
one_or_none current = if is_nonempty current then current ∷ [] else []

-- The segments of an encoded list, with ordinary bytes behind it.
split_params :
    (ps : List Bytes) (pad current : Bytes)
    → All IsOrdinary pad
    → split_segments current (encode_params ps ++ (delim ∷ pad))
      ≡ current ∷ (map tlv_escape_param ps ++ one_or_none pad)
unfolding encode_params one_or_none
split_params [] pad current h =
    split_delim current pad
    ∙ ap (λ t. current ∷ t) (split_run pad [] h ∙ unfold split_segments in refl)
split_params (p ∷ ps) pad current h =
    split_delim current _
    ∙ ap (λ t. current ∷ t)
        (rw append_assoc (
          split_escaped p [] (encode_params ps ++ (delim ∷ pad))
          ∙ split_params ps pad (tlv_escape_param p) h))

nonempty_escaped : (p : Bytes) → is_nonempty (tlv_escape_param p) ≡ is_nonempty p
unfolding tlv_escape_param escape_byte
nonempty_escaped [] = refl
nonempty_escaped (b ∷ p) = ground arith

-- Dropping the empty segments and unescaping gives the parameters that are not empty.
unescape_kept :
    (ps : List Bytes) (pad : Bytes)
    → All IsOrdinary pad
    → map tlv_unescape_param (keep_nonempty (map tlv_escape_param ps ++ one_or_none pad))
      ≡ keep_nonempty ps ++ one_or_none pad
unescape_kept [] [] h = unfold one_or_none in refl
unescape_kept [] (b ∷ pad) h =
    unfold one_or_none in ap (λ t. t ∷ []) (tlv_unescape_param-ordinary (b ∷ pad) h)
unescape_kept (p ∷ ps) pad h = rw nonempty_escaped (elim (Bool-cases (is_nonempty p)) [
  | inl full ↦ rw full (ap₂ ◌∷◌ (tlv_unescape_param-tlv_escape_param p) (unescape_kept ps pad h))
  | inr empty ↦ rw empty (unescape_kept ps pad h)
])

decode_segments :
    (xs : Bytes)
    → is_nonempty xs ≡ true
    → tlv_decode xs ≡ map tlv_unescape_param (keep_nonempty (split_segments [] xs))
unfolding tlv_decode
decode_segments xs h = rw h

encode_nonempty :
    (p : Bytes) (ps : List Bytes) (rest : Bytes)
    → is_nonempty (encode_params (p ∷ ps) ++ rest) ≡ true
unfolding encode_params
encode_nonempty p ps rest = refl

encode_padded :
    (p : Bytes) (ps : List Bytes) (pad : Bytes)
    → tlv_encode (p ∷ ps) ++ pad ≡ encode_params (p ∷ ps) ++ (delim ∷ pad)
unfolding tlv_encode
encode_padded p ps pad = append_assoc (encode_params (p ∷ ps)) (delim ∷ []) pad

-- What `tlv_decode` reads out of an encoded list of parameters with padding behind it: the
-- parameters that are not empty, in order, and the padding as one more parameter if there is any.
-- The padding bytes must be neither the delimiter 0x05 nor the escape byte 0x06.
pub tlv_decode-tlv_encode_padded :
    (p : Bytes) (ps : List Bytes) (pad : Bytes)
    → All IsOrdinary pad
    → tlv_decode (tlv_encode (p ∷ ps) ++ pad)
      ≡ keep_nonempty (p ∷ ps) ++ (if is_nonempty pad then pad ∷ [] else [])
tlv_decode-tlv_encode_padded p ps pad h =
    ap tlv_decode (encode_padded p ps pad)
    ∙ decode_segments _ (encode_nonempty p ps (delim ∷ pad))
    ∙ ap (λ t. map tlv_unescape_param (keep_nonempty t)) (split_params (p ∷ ps) pad [] h)
    ∙ unfold one_or_none in unescape_kept (p ∷ ps) pad h

-- `tlv_decode` gives back the parameters that `tlv_encode` was given, without the empty ones.
pub tlv_decode-tlv_encode : (ps : List Bytes) → tlv_decode (tlv_encode ps) ≡ keep_nonempty ps
tlv_decode-tlv_encode [] = unfold tlv_decode tlv_encode in refl
tlv_decode-tlv_encode (p ∷ ps) =
    ap tlv_decode (sym (append-nil (tlv_encode (p ∷ ps))))
    ∙ tlv_decode-tlv_encode_padded p ps [] tt
    ∙ append-nil (keep_nonempty (p ∷ ps))
