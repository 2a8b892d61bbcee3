-- ===== src/Base/ByteStrings.antt =====
-- Python's `bytes` as lists of numbers below 256, and the conversions to and from integers.
use Prim.Native.Nat.{ℕ, zero, suc, ◌+◌, ◌*◌, ◌/◌, ◌%◌, ◌^◌, ◌<◌}
use mathlib.Core.Bool.{Bool, true, false, ◌&&◌}
use mathlib.Core.Path.{◌≡◌, refl, ◌∙◌}
use mathlib.Core.List.{List, [], ◌∷◌, ◌++◌}
use native.Mathlib.Nat.{pow-suc}
use native.Mathlib.Omega.{arith}
use aegis_hass.Base.Tests.{◌==◌}
use aegis_hass.Base.Lists.{All, All-append, length, length-append}

abbrev pub Bytes : Type 0
Bytes = List ℕ

abbrev pub IsByte : ℕ → Type 0
IsByte b = b < 256

-- `a == b` on bytes.
infix 50 ◌=ᵇ◌
abbrev pub ◌=ᵇ◌ : Bytes → Bytes → Bool
[] =ᵇ [] = true
[] =ᵇ (y ∷ ys) = false
(x ∷ xs) =ᵇ [] = false
(x ∷ xs) =ᵇ (y ∷ ys) = x == y && xs =ᵇ ys

pub =ᵇ-refl : (xs : Bytes) → (xs =ᵇ xs) ≡ true
=ᵇ-refl [] = refl
=ᵇ-refl (x ∷ xs) = ground (arith, =ᵇ-refl xs)

pub =ᵇ→eq : (xs ys : Bytes) → (xs =ᵇ ys) ≡ true → xs ≡ ys
=ᵇ→eq [] [] e = refl
=ᵇ→eq [] (y ∷ ys) e = cc
=ᵇ→eq (x ∷ xs) [] e = cc
=ᵇ→eq (x ∷ xs) (y ∷ ys) e = ground (arith, =ᵇ→eq xs ys)

-- `n.to_bytes(w, "big")`, of a number below `256 ^ w`.
abbrev pub to_bytes : ℕ → ℕ → Bytes
to_bytes zero n = []
to_bytes (suc w) n = to_bytes w (n / 256) ++ ((n % 256) ∷ [])

-- `int.from_bytes(b, "big")`.
abbrev pub from_bytes_from : ℕ → Bytes → ℕ
from_bytes_from acc [] = acc
from_bytes_from acc (b ∷ rest) = from_bytes_from (acc * 256 + b) rest

unfoldable pub from_bytes : Bytes → ℕ
from_bytes = from_bytes_from 0

from_bytes_from-append :
    (acc : ℕ) (xs : Bytes) (b : ℕ)
    → from_bytes_from acc (xs ++ (b ∷ [])) ≡ from_bytes_from acc xs * 256 + b
from_bytes_from-append acc [] b = refl
from_bytes_from-append acc (x ∷ xs) b = from_bytes_from-append (acc * 256 + x) xs b

pub from_bytes-to_bytes : (w n : ℕ) → n < 256 ^ w → from_bytes (to_bytes w n) ≡ n
unfolding from_bytes
from_bytes-to_bytes zero n h = omega arith
from_bytes-to_bytes (suc w) n h =
    from_bytes_from-append 0 (to_bytes w (n / 256)) (n % 256)
    ∙ omega (arith, from_bytes-to_bytes w (n / 256) (omega (arith, pow-suc 256 w)))

pub length-to_bytes : (w n : ℕ) → length (to_bytes w n) ≡ w
length-to_bytes zero n = refl
length-to_bytes (suc w) n =
    omega
      (arith, length-append (to_bytes w (n / 256)) ((n % 256) ∷ []), length-to_bytes w (n / 256))

pub to_bytes-IsByte : (w n : ℕ) → All IsByte (to_bytes w n)
to_bytes-IsByte zero n = tt
to_bytes-IsByte (suc w) n =
    All-append IsByte (to_bytes w (n / 256)) ((n % 256) ∷ []) (to_bytes-IsByte w (n / 256))
      (omega arith, tt)
