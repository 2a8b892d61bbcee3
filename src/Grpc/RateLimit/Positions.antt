-- ===== src/Grpc/RateLimit/Positions.antt =====
-- Positions in the times of the requests of api/client.py.
use aegis_hass.Base.{
  ℕ, zero, suc, ◌+◌, ◌≤◌, ◌<◌, ◌≡◌, refl, sym, ap, ◌∙◌, ltb, Bool-cases, List, [], ◌∷◌, ◌++◌,
  length, drop, All, All-append, inl, inr, arith, get_or,
}
use aegis_hass.Grpc.RateLimit.{rate_limit_window, recent, first_or_zero}
use aegis_hass.Grpc.RateLimit.Spaced.{Behind, IsOrdered}

pub drop-all : (n : ℕ) (xs : List ℕ) → length xs ≤ n → drop n xs ≡ []
drop-all zero [] l = refl
drop-all zero (x ∷ xs) l = absurd (omega (arith, l))
drop-all (suc n) [] l = refl
drop-all (suc n) (x ∷ xs) l = drop-all n xs (omega (arith, l))

pub drop-append : (n : ℕ) (xs ys : List ℕ) → n ≤ length xs → drop n (xs ++ ys) ≡ drop n xs ++ ys
drop-append zero xs ys l = refl
drop-append (suc n) [] ys l = absurd (omega (arith, l))
drop-append (suc n) (x ∷ xs) ys l = drop-append n xs ys (omega (arith, l))

pub get_or-drop : (n i : ℕ) (xs : List ℕ) → get_or (drop n xs) i 0 ≡ get_or xs (n + i) 0
get_or-drop zero i xs = ap (λ k. get_or xs k 0) (omega arith)
get_or-drop (suc n) i [] = refl
get_or-drop (suc n) i (x ∷ xs) =
    let e : suc n + i ≡ suc (n + i) = omega arith in
    get_or-drop n i xs ∙ sym (ap (λ k. get_or (x ∷ xs) k 0) e)

pub get_or-left : (xs ys : List ℕ) (i : ℕ) → i < length xs → get_or (xs ++ ys) i 0 ≡ get_or xs i 0
get_or-left [] ys i l = absurd (omega (arith, l))
get_or-left (x ∷ xs) ys zero l = refl
get_or-left (x ∷ xs) ys (suc i) l = get_or-left xs ys i (omega (arith, l))

pub get_or-first : (xs ys : List ℕ) → get_or (xs ++ ys) (length xs) 0 ≡ first_or_zero ys
get_or-first [] [] = refl
get_or-first [] (y ∷ ys) = refl
get_or-first (x ∷ xs) ys = get_or-first xs ys

pub Behind-at :
    (xs ys : List ℕ) (j : ℕ)
    → Behind xs ys
    → j < length ys
    → j < length xs
    → get_or xs j 0 + rate_limit_window ≤ get_or ys j 0
Behind-at xs [] j h l m = absurd (omega (arith, l))
Behind-at [] (y ∷ ys) j h l m = absurd (omega (arith, m))
Behind-at (x ∷ xs) (y ∷ ys) zero (first, h) l m = first
Behind-at (x ∷ xs) (y ∷ ys) (suc j) (first, h) l m =
    Behind-at xs ys j h (omega (arith, l)) (omega (arith, m))

pub IsOrdered-at :
    (now : ℕ) (xs : List ℕ) (i : ℕ) → IsOrdered now xs → i < length xs → get_or xs i 0 ≤ now
IsOrdered-at now [] i h l = absurd (omega (arith, l))
IsOrdered-at now (x ∷ xs) zero (first, above, h) l = first
IsOrdered-at now (x ∷ xs) (suc i) (first, above, h) l = IsOrdered-at now xs i h (omega (arith, l))

pub expired-at :
    (now : ℕ) (xs : List ℕ) (i : ℕ)
    → All (λ t. t + rate_limit_window ≤ now) xs
    → i < length xs
    → get_or xs i 0 + rate_limit_window ≤ now
expired-at now [] i h l = absurd (omega (arith, l))
expired-at now (x ∷ xs) zero (first, h) l = first
expired-at now (x ∷ xs) (suc i) (first, h) l = expired-at now xs i h (omega (arith, l))

pub IsOrdered-right : (now : ℕ) (xs ys : List ℕ) → IsOrdered now (xs ++ ys) → IsOrdered now ys
IsOrdered-right now [] ys h = h
IsOrdered-right now (x ∷ xs) ys (first, above, h) = IsOrdered-right now xs ys h

above-snoc :
    (x t : ℕ) (xs : List ℕ) → x ≤ t → All (λ u. x ≤ u) xs → All (λ u. x ≤ u) (xs ++ (t ∷ []))
above-snoc x t xs l h = All-append (λ u. x ≤ u) xs (t ∷ []) h (l, tt)

pub IsOrdered-snoc :
    (now t : ℕ) (xs : List ℕ) → IsOrdered now xs → now ≤ t → IsOrdered t (xs ++ (t ∷ []))
IsOrdered-snoc now t [] h l = (omega arith, tt, tt)
IsOrdered-snoc now t (x ∷ xs) (first, above, h) l = (
  omega (arith, first, l),
  above-snoc x t xs (omega (arith, first, l)) above,
  IsOrdered-snoc now t xs h l,
)

pub expired-later :
    (now later : ℕ) (xs : List ℕ)
    → now ≤ later
    → All (λ t. t + rate_limit_window ≤ now) xs
    → All (λ t. t + rate_limit_window ≤ later) xs
expired-later now later [] l h = tt
expired-later now later (x ∷ xs) l (first, h) =
    (omega (arith, first, l), expired-later now later xs l h)

-- The first that is recent is recent.
pub recent-first :
    (now : ℕ) (xs : List ℕ) (k : ℕ)
    → length (recent now xs) ≡ suc k
    → now < first_or_zero (recent now xs) + rate_limit_window
unfolding recent
recent-first now [] k e = absurd (omega (arith, e))
recent-first now (x ∷ xs) k e = elim (Bool-cases (ltb now (x + rate_limit_window))) [
  | inl f ↦ rw f (ground arith)
  | inr f ↦ rw f (recent-first now xs k (rw f at e))
]
