-- ===== src/Base/Lists.antt =====
-- Arrays and vectors as lists, and `memcpy` between them.
use Prim.Native.Nat.{ℕ, zero, suc, ◌+◌, ◌-◌, ◌≤◌, ◌<◌, min}
use mathlib.Core.Path.{◌≡◌, refl, ap, sym}
use mathlib.Core.Logic.{◌≢◌, ◌⊎◌, inl, inr}
use mathlib.Core.List.{List, [], ◌∷◌, ◌++◌}
use mathlib.Core.Option.{Option, none, some}
use native.Mathlib.Omega.{arith}

module _ {ℓ} {A : Type ℓ} where
  abbrev pub length : List A → ℕ
  length [] = 0
  length (x ∷ xs) = suc (length xs)

  abbrev pub get_or : List A → ℕ → A → A
  get_or [] i d = d
  get_or (x ∷ xs) zero d = x
  get_or (x ∷ xs) (suc i) d = get_or xs i d

  abbrev pub get_elem? : List A → ℕ → Option A
  get_elem? [] i = none
  get_elem? (x ∷ xs) zero = some x
  get_elem? (x ∷ xs) (suc i) = get_elem? xs i

  -- A write out of bounds changes nothing.
  abbrev pub set : List A → ℕ → A → List A
  set [] i v = []
  set (x ∷ xs) zero v = v ∷ xs
  set (x ∷ xs) (suc i) v = x ∷ set xs i v

  abbrev pub take : ℕ → List A → List A
  take zero xs = []
  take (suc n) [] = []
  take (suc n) (x ∷ xs) = x ∷ take n xs

  abbrev pub drop : ℕ → List A → List A
  drop zero xs = xs
  drop (suc n) [] = []
  drop (suc n) (x ∷ xs) = drop n xs

  abbrev pub replicate : ℕ → A → List A
  replicate zero a = []
  replicate (suc n) a = a ∷ replicate n a

  -- The `n` elements from index `o` on, as `memcpy` reads them.
  abbrev pub slice : List A → ℕ → ℕ → List A
  slice xs o n = take n (drop o xs)

  -- `src` written over the front of `dst`. What does not fit is lost.
  abbrev pub overlay : List A → List A → List A
  overlay [] src = []
  overlay (x ∷ xs) [] = x ∷ xs
  overlay (x ∷ xs) (y ∷ ys) = y ∷ overlay xs ys

  -- `memcpy(dst + o, src, length src)`.
  abbrev pub overwrite : List A → ℕ → List A → List A
  overwrite dst zero src = overlay dst src
  overwrite [] (suc o) src = []
  overwrite (x ∷ xs) (suc o) src = x ∷ overwrite xs o src

module _ {ℓ} {A : Type ℓ} where
  pub length-append : (xs ys : List A) → length (xs ++ ys) ≡ length xs + length ys
  length-append [] ys = omega arith
  length-append (x ∷ xs) ys = omega (arith, length-append xs ys)

  pub length-set : (xs : List A) (i : ℕ) (v : A) → length (set xs i v) ≡ length xs
  length-set [] i v = refl
  length-set (x ∷ xs) zero v = refl
  length-set (x ∷ xs) (suc i) v = ap suc (length-set xs i v)

  pub get_or-set_self :
      (xs : List A) (i : ℕ) (v d : A) → i < length xs → get_or (set xs i v) i d ≡ v
  get_or-set_self [] i v d h = absurd (omega arith)
  get_or-set_self (x ∷ xs) zero v d h = refl
  get_or-set_self (x ∷ xs) (suc i) v d h = get_or-set_self xs i v d (omega arith)

  pub get_or-set_ne :
      (xs : List A) (i j : ℕ) (v d : A) → i ≢ j → get_or (set xs i v) j d ≡ get_or xs j d
  get_or-set_ne [] i j v d h = refl
  get_or-set_ne (x ∷ xs) zero zero v d h = absurd (h refl)
  get_or-set_ne (x ∷ xs) zero (suc j) v d h = refl
  get_or-set_ne (x ∷ xs) (suc i) zero v d h = refl
  get_or-set_ne (x ∷ xs) (suc i) (suc j) v d h = get_or-set_ne xs i j v d (λ e. h (ap suc e))

  -- A write undone by writing back what was there.
  pub set-set_back :
      (xs : List A) (i : ℕ) (v w d : A)
      → i < length xs
      → get_or xs i d ≡ w
      → set (set xs i v) i w ≡ xs
  set-set_back [] i v w d h e = refl
  set-set_back (x ∷ xs) zero v w d h e = ap (λ t. t ∷ xs) (sym e)
  set-set_back (x ∷ xs) (suc i) v w d h e =
      ap (λ t. x ∷ t) (set-set_back xs i v w d (omega arith) e)

  pub length-take : (n : ℕ) (xs : List A) → length (take n xs) ≡ min n (length xs)
  length-take zero xs = omega arith
  length-take (suc n) [] = omega arith
  length-take (suc n) (x ∷ xs) = omega (arith, length-take n xs)

  pub length-drop : (n : ℕ) (xs : List A) → length (drop n xs) ≡ length xs - n
  length-drop zero xs = omega arith
  length-drop (suc n) [] = omega arith
  length-drop (suc n) (x ∷ xs) = omega (arith, length-drop n xs)

  pub length-replicate : (n : ℕ) (a : A) → length (replicate n a) ≡ n
  length-replicate zero a = refl
  length-replicate (suc n) a = ap suc (length-replicate n a)

  pub take_all : (xs : List A) (n : ℕ) → length xs ≤ n → take n xs ≡ xs
  take_all [] zero h = refl
  take_all [] (suc n) h = refl
  take_all (x ∷ xs) zero h = absurd (omega arith)
  take_all (x ∷ xs) (suc n) h = ap (λ t. x ∷ t) (take_all xs n (omega arith))

  pub length-slice : (xs : List A) (o n : ℕ) → o + n ≤ length xs → length (slice xs o n) ≡ n
  length-slice xs o n h = omega (arith, length-take n (drop o xs), length-drop o xs)

  length-overlay : (xs src : List A) → length (overlay xs src) ≡ length xs
  length-overlay [] src = refl
  length-overlay (x ∷ xs) [] = refl
  length-overlay (x ∷ xs) (y ∷ ys) = ap suc (length-overlay xs ys)

  -- `memcpy` keeps the size of its target.
  pub length-overwrite :
      (xs : List A) (o : ℕ) (src : List A) → length (overwrite xs o src) ≡ length xs
  length-overwrite xs zero src = length-overlay xs src
  length-overwrite [] (suc o) src = refl
  length-overwrite (x ∷ xs) (suc o) src = ap suc (length-overwrite xs o src)

  take-overlay :
      (xs src : List A) → length src ≤ length xs → take (length src) (overlay xs src) ≡ src
  take-overlay [] [] h = refl
  take-overlay [] (y ∷ ys) h = absurd (omega arith)
  take-overlay (x ∷ xs) [] h = refl
  take-overlay (x ∷ xs) (y ∷ ys) h = ap (λ t. y ∷ t) (take-overlay xs ys (omega arith))

  -- What was written is read back.
  pub slice-overwrite_self :
      (xs : List A) (o : ℕ) (src : List A)
      → o + length src ≤ length xs
      → slice (overwrite xs o src) o (length src) ≡ src
  slice-overwrite_self xs zero src h = take-overlay xs src (omega arith)
  slice-overwrite_self [] (suc o) src h = absurd (omega arith)
  slice-overwrite_self (x ∷ xs) (suc o) src h = slice-overwrite_self xs o src (omega arith)

  pub slice-overwrite_of_length :
      (xs : List A) (o : ℕ) (src : List A) (n : ℕ)
      → length src ≡ n
      → o + n ≤ length xs
      → slice (overwrite xs o src) o n ≡ src
  slice-overwrite_of_length xs o src n e h = rw (← e) (slice-overwrite_self xs o src (omega arith))

  -- A buffer written over from its start by as many elements as it has.
  pub overwrite_whole : (xs src : List A) → length src ≡ length xs → overwrite xs 0 src ≡ src
  overwrite_whole [] [] h = refl
  overwrite_whole [] (y ∷ ys) h = absurd (omega arith)
  overwrite_whole (x ∷ xs) [] h = absurd (omega arith)
  overwrite_whole (x ∷ xs) (y ∷ ys) h = ap (λ t. y ∷ t) (overwrite_whole xs ys (omega arith))

  get_or-overlay :
      (xs src : List A) (j : ℕ) (d : A)
      → length src ≤ j
      → get_or (overlay xs src) j d ≡ get_or xs j d
  get_or-overlay [] src j d h = refl
  get_or-overlay (x ∷ xs) [] j d h = refl
  get_or-overlay (x ∷ xs) (y ∷ ys) zero d h = absurd (omega arith)
  get_or-overlay (x ∷ xs) (y ∷ ys) (suc j) d h = get_or-overlay xs ys j d (omega arith)

  -- What lies outside the written range is as before.
  pub get_or-overwrite_outside :
      (xs : List A) (o : ℕ) (src : List A) (j : ℕ) (d : A)
      → (j < o) ⊎ (o + length src ≤ j)
      → get_or (overwrite xs o src) j d ≡ get_or xs j d
  get_or-overwrite_outside xs zero src j d (inl h) = absurd (omega arith)
  get_or-overwrite_outside xs zero src j d (inr h) = get_or-overlay xs src j d (omega arith)
  get_or-overwrite_outside [] (suc o) src j d h = refl
  get_or-overwrite_outside (x ∷ xs) (suc o) src zero d h = refl
  get_or-overwrite_outside (x ∷ xs) (suc o) src (suc j) d (inl h) =
      get_or-overwrite_outside xs o src j d (inl (omega arith))
  get_or-overwrite_outside (x ∷ xs) (suc o) src (suc j) d (inr h) =
      get_or-overwrite_outside xs o src j d (inr (omega arith))

  drop-overlay : (xs src : List A) (p : ℕ) → length src ≤ p → drop p (overlay xs src) ≡ drop p xs
  drop-overlay [] src p h = refl
  drop-overlay (x ∷ xs) [] p h = refl
  drop-overlay (x ∷ xs) (y ∷ ys) zero h = absurd (omega arith)
  drop-overlay (x ∷ xs) (y ∷ ys) (suc p) h = drop-overlay xs ys p (omega arith)

  take-overwrite :
      (xs : List A) (o n : ℕ) (src : List A) → n ≤ o → take n (overwrite xs o src) ≡ take n xs
  take-overwrite xs o zero src h = refl
  take-overwrite xs zero (suc n) src h = absurd (omega arith)
  take-overwrite [] (suc o) (suc n) src h = refl
  take-overwrite (x ∷ xs) (suc o) (suc n) src h =
      ap (λ t. x ∷ t) (take-overwrite xs o n src (omega arith))

  -- A slice that the written range does not meet is as before.
  pub slice-overwrite_outside :
      (xs : List A) (o : ℕ) (src : List A) (p n : ℕ)
      → (p + n ≤ o) ⊎ (o + length src ≤ p)
      → slice (overwrite xs o src) p n ≡ slice xs p n
  slice-overwrite_outside xs o src zero n (inl h) = take-overwrite xs o n src (omega arith)
  slice-overwrite_outside xs zero src (suc p) n (inl h) = absurd (omega arith)
  slice-overwrite_outside xs zero src p n (inr h) =
      ap (take n) (drop-overlay xs src p (omega arith))
  slice-overwrite_outside [] (suc o) src p n h = refl
  slice-overwrite_outside (x ∷ xs) (suc o) src zero n (inr h) = absurd (omega arith)
  slice-overwrite_outside (x ∷ xs) (suc o) src (suc p) n (inl h) =
      slice-overwrite_outside xs o src p n (inl (omega arith))
  slice-overwrite_outside (x ∷ xs) (suc o) src (suc p) n (inr h) =
      slice-overwrite_outside xs o src p n (inr (omega arith))
