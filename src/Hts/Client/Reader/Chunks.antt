-- ===== src/Hts/Client/Reader/Chunks.antt =====
-- `_read_frame` of api/hts/client.py over a stream that is cut into chunks.
use aegis_hass.Base.{
  ℕ, ◌≤◌, ◌≡◌, ◌≢◌, ◌⊎◌, inl, inr, refl, ap, ◌∙◌, true, false, ltb, none, some, List, [], ◌∷◌, ◌++◌,
  map, append_assoc, length, length-append, is_nonempty, Bytes, All, arith,
}
use aegis_hass.Hts.Protocol.{stx, etx, escape, pack16, encode_frame}
use aegis_hass.Hts.Protocol.Escape.{IsPlain, escape-IsPlain}
use aegis_hass.Hts.Crc.{crc16}
use aegis_hass.Hts.Client.Reader.{
  Read, chunk, got, max_frame_buffer_bytes, up_to_etx, extract_frame, read_frame,
}

abbrev pub concat : List Bytes → Bytes
concat [] = []
concat (c ∷ cs) = c ++ concat cs

-- The search for ETX in the part of the stream that has come, `tail` being still to come.
search_etx :
    (inner more buf tail : Bytes)
    → All IsPlain inner
    → buf ++ tail ≡ inner ++ (etx ∷ more)
    → ((up_to_etx buf ≡ none) × (tail ≢ []))
      ⊎ ((rest : Bytes) × (up_to_etx buf ≡ some (inner ++ (etx ∷ []), rest))
          × (rest ++ tail ≡ more))
unfolding up_to_etx
search_etx [] more [] tail h e = inl (refl, λ z. cc)
search_etx (i ∷ inner) more [] tail h e = inl (refl, λ z. cc)
search_etx [] more (b ∷ buf) tail h e = inr (buf, ground arith, ground arith)
search_etx (i ∷ inner) more (b ∷ buf) tail ((hs, ht), h) e =
    let head : b ≡ i = ground arith in
    elim (search_etx inner more buf tail h (ground arith)) [
      | inl (n, t) ↦ inl (ground arith, t)
      | inr (rest, u, w) ↦ inr (rest, ground arith, w)
    ]

-- The same for the search of STX over what precedes the frame.
search_frame :
    (junk inner more buf tail : Bytes)
    → All (λ b. b ≢ stx) junk
    → All IsPlain inner
    → buf ++ tail ≡ junk ++ (stx ∷ (inner ++ (etx ∷ more)))
    → ((extract_frame buf ≡ none) × (tail ≢ []))
      ⊎ ((rest : Bytes) × (extract_frame buf ≡ some (stx ∷ (inner ++ (etx ∷ [])), rest))
          × (rest ++ tail ≡ more))
unfolding extract_frame
search_frame [] inner more [] tail hj h e = inl (refl, λ z. cc)
search_frame (j ∷ junk) inner more [] tail hj h e = inl (refl, λ z. cc)
search_frame [] inner more (b ∷ buf) tail hj h e =
    let head : b ≡ stx = ground arith in
    elim (search_etx inner more buf tail h (ground arith)) [
      | inl (n, t) ↦ inl (ground arith, t)
      | inr (rest, u, w) ↦ inr (rest, ground arith, w)
    ]
search_frame (j ∷ junk) inner more (b ∷ buf) tail (hj, hjs) h e =
    let head : b ≡ j = ground arith in
    elim (search_frame junk inner more buf tail hjs h (ground arith)) [
      | inl (n, t) ↦ inl (ground arith, t)
      | inr (rest, u, w) ↦ inr (rest, ground arith, w)
    ]

read_settled :
    (buf frame rest : Bytes) (cs : List Bytes)
    → extract_frame buf ≡ some (frame, rest)
    → read_frame buf (map chunk cs) ≡ got frame rest (map chunk cs)
unfolding read_frame
read_settled buf frame rest [] e = rw e
read_settled buf frame rest (c ∷ cs) e = rw e

read_on :
    (buf c : Bytes) (reads : List Read)
    → extract_frame buf ≡ none
    → is_nonempty c ≡ true
    → length (buf ++ c) ≤ max_frame_buffer_bytes
    → read_frame buf (chunk c ∷ reads) ≡ read_frame (buf ++ c) reads
unfolding read_frame
read_on buf c reads e hc hl =
    let room : ltb max_frame_buffer_bytes (length (buf ++ c)) ≡ false = ground arith in
    rw (e, hc, room)

prefix_fits : {n : ℕ} (xs ys : Bytes) → length (xs ++ ys) ≤ n → length xs ≤ n
prefix_fits xs ys h = let split = length-append xs ys in omega arith

abbrev Gets : Bytes → Bytes → Bytes → List Bytes → Type 0
Gets frame more buf cs =
    (rest : Bytes) × (later : List Bytes) × (read_frame buf (map chunk cs)
      ≡ got frame rest (map chunk later))
    × (rest ++ concat later ≡ more)

read_chunks :
    (junk inner more buf : Bytes) (cs : List Bytes)
    → All (λ b. b ≢ stx) junk
    → All IsPlain inner
    → All (λ c. is_nonempty c ≡ true) cs
    → length (buf ++ concat cs) ≤ max_frame_buffer_bytes
    → buf ++ concat cs ≡ junk ++ (stx ∷ (inner ++ (etx ∷ more)))
    → Gets (stx ∷ (inner ++ (etx ∷ []))) more buf cs
read_chunks junk inner more buf [] hj h hc hl e =
    elim (search_frame junk inner more buf [] hj h e) [
      | inl (n, t) ↦ absurd (t refl)
      | inr (rest, u, w) ↦ (rest, [], read_settled buf _ rest [] u, w)
    ]
read_chunks junk inner more buf (c ∷ cs) hj h (hc, hcs) hl e =
    let all_of : (buf ++ c) ++ concat cs ≡ buf ++ (c ++ concat cs) =
      append_assoc buf c (concat cs) in
    let fits : length ((buf ++ c) ++ concat cs) ≤ max_frame_buffer_bytes = rw all_of hl in
    let room : length (buf ++ c) ≤ max_frame_buffer_bytes =
      prefix_fits (buf ++ c) (concat cs) fits in
    let (rest, later, got_it, after) =
      read_chunks junk inner more (buf ++ c) cs hj h hcs fits (all_of ∙ e) in
    elim (search_frame junk inner more buf (c ++ concat cs) hj h e) [
      | inl (n, t) ↦ (rest, later, read_on buf c (map chunk cs) n hc room ∙ got_it, after)
      | inr (rest, u, w) ↦ (rest, c ∷ cs, read_settled buf _ rest (c ∷ cs) u, w)
    ]

-- However a frame's bytes are cut into chunks, with bytes before it that hold no STX and bytes
-- behind it, `_read_frame` returns that frame, and what is left in the buffer and in the chunks that
-- were not read is exactly what followed it. No chunk is empty, and all that has come fits the
-- buffer's limit.
pub read_frame-encode_frame :
    (junk body more buf : Bytes) (cs : List Bytes)
    → All (λ b. b ≢ stx) junk
    → All (λ c. is_nonempty c ≡ true) cs
    → length (buf ++ concat cs) ≤ max_frame_buffer_bytes
    → buf ++ concat cs ≡ junk ++ (encode_frame body ++ more)
    → (rest : Bytes) × (later : List Bytes) × (read_frame buf (map chunk cs)
        ≡ got (encode_frame body) rest (map chunk later))
      × (rest ++ concat later ≡ more)
unfolding encode_frame
read_frame-encode_frame junk body more buf cs hj hc hl e =
    let inner : Bytes = escape (body ++ pack16 (crc16 body)) in
    read_chunks junk inner more buf cs hj (escape-IsPlain _) hc hl
      (e ∙ ap (λ t. junk ++ (stx ∷ t)) (append_assoc inner (etx ∷ []) more))
