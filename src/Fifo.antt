-- ===== src/Fifo.antt =====
-- `sc_fifo<uint16_t>` of SystemC, which is a library: the operations that components/spi_tlm calls,
-- and what SystemC documents of them. A value that was written can be read, and a place that was
-- read is free again, only after the update phase that follows.
use cdc_vp.Base.{ℕ, suc, ◌-◌, ◌<◌, ◌≡◌, Option, none, some, List, [], ◌∷◌, ◌++◌, length}

pub record Fifo (F : Type 0) : Type 0 where
  pub num_available : F → ℕ
  pub num_free : F → ℕ
  pub read : F → ℕ × F
  pub nb_read : F → Option (ℕ × F)
  pub write : F → ℕ → F

-- `readable` and `written` are the values that can be read and those that wait for the update
-- phase, `update`; `size` is the number of places.
pub record FifoLaws {F : Type 0} (fifo : Fifo F) (size : ℕ) : Type 0 where
  pub readable : F → List ℕ
  pub written : F → List ℕ
  pub update : F → F
  pub num_available_length : (f : F) → fifo.num_available f ≡ length (readable f)
  pub readable-read :
      (f : F) (x : ℕ) (xs : List ℕ)
      → readable f ≡ x ∷ xs
      → ((fifo.read f).0 ≡ x) × (readable (fifo.read f).1 ≡ xs)
  pub written-read : (f : F) → written (fifo.read f).1 ≡ written f
  pub nb_read_empty : (f : F) → fifo.num_available f ≡ 0 → fifo.nb_read f ≡ none
  pub nb_read_some : (f : F) → 0 < fifo.num_available f → fifo.nb_read f ≡ some (fifo.read f)
  pub num_free-read :
      (f : F) → 0 < fifo.num_available f → fifo.num_free (fifo.read f).1 ≡ fifo.num_free f
  pub readable-write : (f : F) (x : ℕ) → readable (fifo.write f x) ≡ readable f
  pub written-write :
      (f : F) (x : ℕ) → 0 < fifo.num_free f → written (fifo.write f x) ≡ written f ++ (x ∷ [])
  pub num_free-write :
      (f : F) (x : ℕ) → 0 < fifo.num_free f → suc (fifo.num_free (fifo.write f x)) ≡ fifo.num_free f
  pub readable-update : (f : F) → readable (update f) ≡ readable f ++ written f
  pub written-update : (f : F) → written (update f) ≡ []
  pub num_free-update : (f : F) → fifo.num_free (update f) ≡ size - length (readable (update f))
