-- ===== src/Base/Bytes.antt =====
-- Integers as their bytes in memory, least significant first, as on the hosts the program is
-- built for: what `memcpy` between an integer and a byte buffer does.
use Prim.Native.Nat.{ℕ, zero, suc, ◌+◌, ◌*◌, ◌/◌, ◌%◌, ◌^◌, ◌<◌, ◌≤◌}
use mathlib.Core.Path.{◌≡◌, refl, ap, sym, ◌∙◌}
use mathlib.Core.List.{List, [], ◌∷◌}
use native.Mathlib.Nat.{pow-suc}
use native.Mathlib.Omega.{arith}
use cdc_vp.Base.Lists.{length, take, overwrite, length-take, overwrite_whole}

-- The `n` low bytes of `v`.
abbrev pub le_bytes : ℕ → ℕ → List ℕ
le_bytes zero v = []
le_bytes (suc n) v = v % 256 ∷ le_bytes n (v / 256)

-- The integer that the bytes stand for.
abbrev pub of_le : List ℕ → ℕ
of_le [] = 0
of_le (b ∷ bs) = b + 256 * of_le bs

abbrev pub IsBytes : List ℕ → Type 0
IsBytes [] = Unit {0}
IsBytes (b ∷ bs) = (b < 256) × IsBytes bs

pub length-le_bytes : (n v : ℕ) → length (le_bytes n v) ≡ n
length-le_bytes zero v = refl
length-le_bytes (suc n) v = ap suc (length-le_bytes n (v / 256))

pub of_le-le_bytes : (n v : ℕ) → v < 256 ^ n → of_le (le_bytes n v) ≡ v
of_le-le_bytes zero v h = omega arith
of_le-le_bytes (suc n) v h =
    omega (arith, of_le-le_bytes n (v / 256) (omega (arith, pow-suc 256 n)))

pub IsBytes-le_bytes : (n v : ℕ) → IsBytes (le_bytes n v)
IsBytes-le_bytes zero v = tt
IsBytes-le_bytes (suc n) v = (omega arith, IsBytes-le_bytes n (v / 256))

pub le_bytes-of_le : (bs : List ℕ) → IsBytes bs → le_bytes (length bs) (of_le bs) ≡ bs
le_bytes-of_le [] h = refl
le_bytes-of_le (b ∷ bs) h = rw (low_byte, high_bytes) (ap (λ t. b ∷ t) (le_bytes-of_le bs h.1))
  where
    low_byte : (b + 256 * of_le bs) % 256 ≡ b
    low_byte = omega arith

    high_bytes : (b + 256 * of_le bs) / 256 ≡ of_le bs
    high_bytes = omega arith

pub of_le-lt : (bs : List ℕ) → IsBytes bs → of_le bs < 256 ^ length bs
of_le-lt [] h = omega arith
of_le-lt (b ∷ bs) h = omega (arith, of_le-lt bs h.1, pow-suc 256 (length bs))

IsBytes-take : (n : ℕ) (bs : List ℕ) → IsBytes bs → IsBytes (take n bs)
IsBytes-take zero bs h = tt
IsBytes-take (suc n) [] h = tt
IsBytes-take (suc n) (b ∷ bs) h = (h.0, IsBytes-take n bs h.1)

-- A register that was written from a buffer and is read into one of its width gives the bytes.
pub overwrite_word :
    (n : ℕ) (target bs : List ℕ)
    → length target ≡ n
    → n ≤ length bs
    → IsBytes bs
    → overwrite target 0 (le_bytes n (of_le (take n bs))) ≡ take n bs
overwrite_word n target bs e h b =
    overwrite_whole target (le_bytes n (of_le (take n bs)))
      (omega (arith, length-le_bytes n (of_le (take n bs))))
    ∙ ap (λ k. le_bytes k (of_le (take n bs))) (sym size)
    ∙ le_bytes-of_le (take n bs) (IsBytes-take n bs b)
  where
    size : length (take n bs) ≡ n
    size = omega (arith, length-take n bs)

pub of_le_word-lt : (n : ℕ) (bs : List ℕ) → n ≤ length bs → IsBytes bs → of_le (take n bs) < 256 ^ n
of_le_word-lt n bs h b =
    let size : length (take n bs) ≡ n = omega (arith, length-take n bs) in
    rw size at (of_le-lt (take n bs) (IsBytes-take n bs b))
