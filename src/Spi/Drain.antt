-- ===== src/Spi/Drain.antt =====
-- The loops that empty the FIFOs at a reset.
use cdc_vp.Base.{
  ℕ, zero, suc, ◌<◌, ◌≡◌, ◌⊎◌, refl, ap, ◌∙◌, none, List, [], ◌∷◌, length, inl, inr, arith,
}
use cdc_vp.Fifo.{Fifo, FifoLaws}
use cdc_vp.Spi.{drain}

list_cases : (xs : List ℕ) → (xs ≡ []) ⊎ ((x : ℕ) × (ys : List ℕ) × (xs ≡ x ∷ ys))
list_cases [] = inl refl
list_cases (x ∷ xs) = inr (x, xs, refl)

module _ {F : Type 0} (fifo : Fifo F) where
  -- One round takes one value.
  read_count :
      {size : ℕ} (laws : FifoLaws fifo size) (f : F) (x : ℕ) (xs : List ℕ)
      → laws.readable f ≡ x ∷ xs
      → (fifo.num_available f ≡ suc (length xs)) × (fifo.num_available (fifo.read f).1 ≡ length xs)
  read_count laws f x xs e = (
    laws.num_available_length f ∙ ap length e,
    laws.num_available_length (fifo.read f).1 ∙ ap length (laws.readable-read f x xs e).1,
  )

  pub drain-empty :
      {size : ℕ} (laws : FifoLaws fifo size) (n : ℕ) (f : F)
      → fifo.num_available f < n
      → laws.readable (drain fifo n f) ≡ []
  unfolding drain
  drain-empty laws zero f h = absurd (omega arith)
  drain-empty laws (suc n) f h = elim (list_cases (laws.readable f)) [
    | inl none_left ↦
        rw
          (
            laws.nb_read_empty f (omega (arith, laws.num_available_length f, ap length none_left)),
            drain,
          )
          none_left
    | inr (x, xs, some_left) ↦
        let (count, rest) = read_count laws f x xs some_left in
        rw (laws.nb_read_some f (omega (arith, count)), drain)
          (drain-empty laws n (fifo.read f).1 (omega (arith, rest, count)))
  ]

  drain-nb_read :
      {size : ℕ} (laws : FifoLaws fifo size) (n : ℕ) (f : F)
      → fifo.num_available f < n
      → fifo.nb_read (drain fifo n f) ≡ none
  drain-nb_read laws n f h =
      laws.nb_read_empty (drain fifo n f)
        (laws.num_available_length (drain fifo n f) ∙ ap length (drain-empty laws n f h))

  drain_fuel :
      {size : ℕ} (laws : FifoLaws fifo size) (m n : ℕ) (f : F)
      → fifo.num_available f < m
      → fifo.num_available f < n
      → drain fifo m f ≡ drain fifo n f
  unfolding drain
  drain_fuel laws zero n f h k = absurd (omega arith)
  drain_fuel laws (suc m) zero f h k = absurd (omega arith)
  drain_fuel laws (suc m) (suc n) f h k = elim (list_cases (laws.readable f)) [
    | inl none_left ↦
        rw (laws.nb_read_empty f (laws.num_available_length f ∙ ap length none_left), drain) refl
    | inr (x, xs, some_left) ↦
        let (count, rest) = read_count laws f x xs some_left in
        rw (laws.nb_read_some f (omega (arith, count)), drain)
          (drain_fuel laws m n (fifo.read f).1 (omega (arith, rest, count))
            (omega (arith, rest, count)))
  ]

  -- The loop that empties a FIFO ends: with more rounds than there are values to read, `nb_read`
  -- fails at its end, so the loop is left by its own test, no further rounds change what it leaves,
  -- and nothing is left to read.
  pub drain_ends :
      {size : ℕ} (laws : FifoLaws fifo size) (n : ℕ) (f : F)
      → fifo.num_available f < n
      → (fifo.nb_read (drain fifo n f) ≡ none)
        × ((m : ℕ) → fifo.num_available f < m → drain fifo m f ≡ drain fifo n f)
        × (laws.readable (drain fifo n f) ≡ [])
  drain_ends laws n f h =
      (drain-nb_read laws n f h, λ m k. drain_fuel laws m n f k h, drain-empty laws n f h)
