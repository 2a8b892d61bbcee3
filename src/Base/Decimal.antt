-- ===== src/Base/Decimal.antt =====
-- `str(n)` of a natural number, and a reader of dotted decimals that shows what it spells.
use aegis_hass.Base.{
  ℕ, zero, suc, ◌+◌, ◌-◌, ◌*◌, ◌/◌, ◌%◌, ◌≤◌, ◌<◌, ◌≡◌, refl, ap, sym, ◌∙◌, true, false, ◌==◌, ltb,
  Bool-cases, inl, inr, if◌then◌else◌, List, [], ◌∷◌, ◌++◌, append-nil, append_assoc, arith,
}
use aegis_hass.Base.Text.{Text}

unfoldable pub show_digits : ℕ → ℕ → Text
show_digits zero n = (48 + n % 10) ∷ []
show_digits (suc fuel) n = elim (ltb n 10) [
  | true ↦ (48 + n % 10) ∷ []
  | false ↦ show_digits fuel (n / 10) ++ ((48 + n % 10) ∷ [])
]

-- Every round takes a digit, so `n` rounds are enough.
unfoldable pub show : ℕ → Text
unfolding show_digits
show n = show_digits n n

abbrev pub dot : ℕ
dot = b'.'

-- The numbers between the dots, the last of them begun as `acc`.
unfoldable pub read_dotted : ℕ → Text → List ℕ
read_dotted acc [] = acc ∷ []
read_dotted acc (c ∷ rest) =
    let next = read_dotted 0 rest in
    let more = read_dotted (acc * 10 + (c - 48)) rest in if c == dot then acc ∷ next else more

read_digit :
    (acc d : ℕ) (rest : Text)
    → d < 10
    → read_dotted acc ((48 + d) ∷ rest) ≡ read_dotted (acc * 10 + d) rest
unfolding read_dotted
read_digit acc d rest h = let e : 48 + d - 48 ≡ d = omega arith in ground arith

show_small : (fuel n : ℕ) → ltb n 10 ≡ true → show_digits (suc fuel) n ≡ (48 + n % 10) ∷ []
unfolding show_digits
show_small fuel n h = rw (h, show_digits)

show_large :
    (fuel n : ℕ)
    → ltb n 10 ≡ false
    → show_digits (suc fuel) n ≡ show_digits fuel (n / 10) ++ ((48 + n % 10) ∷ [])
unfolding show_digits
show_large fuel n h = rw (h, show_digits)

show_last : (n : ℕ) → show_digits 0 n ≡ (48 + n % 10) ∷ []
unfolding show_digits
show_last n = refl

read_show_digits :
    (fuel n : ℕ) (rest : Text)
    → n ≤ fuel
    → read_dotted 0 (show_digits fuel n ++ rest) ≡ read_dotted n rest
read_show_digits zero n rest h =
    let e : 0 * 10 + n % 10 ≡ n = omega arith in
    rw show_last (read_digit 0 (n % 10) rest (omega arith) ∙ ap (λ t. read_dotted t rest) e)
read_show_digits (suc fuel) n rest h = elim (Bool-cases (ltb n 10)) [
  | inl small ↦
      let e : 0 * 10 + n % 10 ≡ n = ground arith in
      rw (show_small fuel n small)
        (read_digit 0 (n % 10) rest (omega arith) ∙ ap (λ t. read_dotted t rest) e)
  | inr large ↦
      let e : n / 10 * 10 + n % 10 ≡ n = omega arith in
      rw (show_large fuel n large) (
        rw append_assoc (
          read_show_digits fuel (n / 10) ((48 + n % 10) ∷ rest) (ground arith)
          ∙ read_digit (n / 10) (n % 10) rest (omega arith)
          ∙ ap (λ t. read_dotted t rest) e))
]

-- A printed number is read back up to the next dot, and at the end.
pub read_dotted-show :
    (n : ℕ) (rest : Text) → read_dotted 0 (show n ++ (dot ∷ rest)) ≡ n ∷ read_dotted 0 rest
unfolding show
read_dotted-show n rest =
    read_show_digits n n (dot ∷ rest) (omega arith) ∙ unfold read_dotted in refl

pub read_dotted-show_last : (n : ℕ) → read_dotted 0 (show n) ≡ n ∷ []
unfolding show
read_dotted-show_last n =
    ap (read_dotted 0) (sym (append-nil (show_digits n n)))
    ∙ read_show_digits n n [] (omega arith)
    ∙ unfold read_dotted in refl
