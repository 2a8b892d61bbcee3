-- ===== src/Hts/Protocol/Padding.antt =====
-- `pad16` of api/hts/protocol.py.
use aegis_hass.Base.{
  ℕ, ◌-◌, ◌%◌, ◌≤◌, ◌<◌, ◌≡◌, refl, sym, ◌∙◌, max, [], ◌∷◌, ◌++◌, map, append-nil, ◌==◌, Bool-cases,
  inl, inr, length, length-append, Bytes, All, arith,
}
use aegis_hass.Hts.Protocol.{pad16}

-- What `os.urandom(n)` documents: `n` bytes.
abbrev pub IsSource : (ℕ → Bytes) → Type 0
IsSource random = (n : ℕ) → length (random n) ≡ n

length-map : (f : ℕ → ℕ) (xs : Bytes) → length (map f xs) ≡ length xs
length-map f [] = refl
length-map f (x ∷ xs) = omega (arith, length-map f xs)

raised : (xs : Bytes) → All (λ b. 10 ≤ b) (map (λ b. max b 10) xs)
raised [] = tt
raised (x ∷ xs) = (omega arith, raised xs)

-- A padded text is the text followed by fewer than 16 bytes, each at least 10, and fills whole
-- blocks of 16.
pub pad16_lem :
    (random : ℕ → Bytes) (bytes : Bytes)
    → IsSource random
    → (pad : Bytes) × (pad16 random bytes ≡ bytes ++ pad)
      × (length pad < 16)
      × All (λ b. 10 ≤ b) pad
      × (length (pad16 random bytes) % 16 ≡ 0)
unfolding pad16
pad16_lem random bytes h = elim (Bool-cases (length bytes % 16 == 0)) [
  | inl full ↦ rw full ([], sym (append-nil bytes), omega arith, tt, ground arith)
  | inr short ↦
      let pad : Bytes = map (λ b. max b 10) (random (16 - length bytes % 16)) in
      let size : length pad ≡ 16 - length bytes % 16 =
        length-map (λ b. max b 10) (random (16 - length bytes % 16)) ∙ h _ in
      rw short (
        pad,
        refl,
        ground arith,
        raised (random (16 - length bytes % 16)),
        ground (arith, length-append bytes pad),
      )
]
