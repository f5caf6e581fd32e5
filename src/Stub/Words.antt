-- ===== src/Stub/Words.antt =====
-- Accesses of the processor stub to devices that are mapped behind its bus.
use cdc_vp.Base.{
  ℕ, ◌+◌, ◌-◌, ◌^◌, ◌≤◌, ◌<◌, ◌≡◌, refl, ap, sym, ◌∙◌, true, false, Option, none, some, List, [],
  ◌∷◌, ◌++◌, if◌then◌else◌, ◌==◌, length, le_bytes, of_le, take, slice, overwrite, length-le_bytes,
  of_le-le_bytes, slice-overwrite_of_length, length-overwrite, arith,
}
use cdc_vp.Tlm.{
  Payload, read_command, write_command, Response, SimTime, ok_response, is_response_error,
  set_address,
}
use cdc_vp.Device.{Part, Transport, Serves}
use cdc_vp.Memory
use cdc_vp.Memory.{MemoryTlm}
use cdc_vp.Memory.Access.{b_transport-read, b_transport-write}
use cdc_vp.Stub.{
  Result, ok, threw, word_write_failed, word_read_failed, ram_mismatch, Action, ◌>>◌, access, check,
  write8, write32, read32, write_uart, check_ram,
}

-- What follows a statement that threw nothing.
pub >>-ok :
    {W B : Type 0} (m : Action W (Unit {0})) (k : Action W B) (w w' : W)
    → m w ≡ (ok tt, w')
    → (m >> k) w ≡ k w'
>>-ok m k w w' e = ap (λ u. elim u.0 [ ok a ↦ k u.1 | threw x ↦ (threw x, u.1) ]) e

-- A device that answers the write of one byte to its address `local` by OK, in every state.
abbrev pub Accepts : {D : Type 0} → Transport D → ℕ → Type 0
Accepts {D} device local =
    (x : D) (v : ℕ) → (device x (access write_command local (v ∷ [])) 0).1.response ≡ ok_response

-- The device after the writes of the bytes of a text to its address `local`, in order.
pub fed : {D : Type 0} → Transport D → ℕ → List ℕ → D → D
fed device local [] x = x
fed device local (v ∷ text) x =
    fed device local text (device x (access write_command local (v ∷ [])) 0).0

pub fed-append :
    {D : Type 0} (device : Transport D) (local : ℕ) (a b : List ℕ) (x : D)
    → fed device local (a ++ b) x ≡ fed device local b (fed device local a x)
unfolding fed
fed-append device local [] b x = refl
fed-append device local (v ∷ a) b x =
    fed-append device local a b (device x (access write_command local (v ∷ [])) 0).0

-- What `read32` returns, by the buffer and the response that come back.
unfoldable pub taken : Option (List ℕ) → Response → Result ℕ
taken buffer r =
    let value : ℕ = elim buffer [ none ↦ 0 | some bytes ↦ of_le (take 4 bytes) ] in
    if is_response_error r then threw word_read_failed else ok value

module _ {W D : Type 0} {bus : Transport W} {device : Transport D} {part : Part W D} {base size : ℕ}
    (s : Serves bus device part base size) where
  write8-Serves :
      (w : W) (addr v : ℕ)
      → base ≤ addr
      → addr < base + size
      → Accepts device (addr - base)
      → write8 bus addr v w ≡ (
        ok tt,
        part.put w (device (part.get w) (access write_command (addr - base) (v ∷ [])) 0).0,
      )
  unfolding write8
  write8-Serves w addr v low high acc =
      rw (s.serve w (access write_command addr (v ∷ [])) 0 low high) (rw (acc (part.get w) v) refl)

  -- A word that is written to a device that answers by OK.
  pub write32-Serves :
      (w : W) (addr v : ℕ)
      → base ≤ addr
      → addr < base + size
      → (device (part.get w) (access write_command (addr - base) (le_bytes 4 v)) 0).1.response
        ≡ ok_response
      → write32 bus addr v w ≡ (
        ok tt,
        part.put w (device (part.get w) (access write_command (addr - base) (le_bytes 4 v)) 0).0,
      )
  unfolding write32
  write32-Serves w addr v low high answer =
      ap (λ u. (check word_write_failed u.1.response, u.0))
        (s.serve w (access write_command addr (le_bytes 4 v)) 0 low high)
      ∙ ap
          (λ r. (
            check word_write_failed r,
            part.put w
                (device (part.get w) (access write_command (addr - base) (le_bytes 4 v)) 0).0,
          ))
          answer

  -- The same, by the state that it leaves the device in.
  pub write32-left :
      (w : W) (addr v : ℕ) (x : D)
      → base ≤ addr
      → addr < base + size
      → let u = device (part.get w) (access write_command (addr - base) (le_bytes 4 v)) 0 in
        u.0 ≡ x → u.1.response ≡ ok_response → write32 bus addr v w ≡ (ok tt, part.put w x)
  write32-left w addr v x low high left answer =
      write32-Serves w addr v low high answer ∙ ap (λ y. (ok tt, part.put w y)) left

  -- A word that is read from a device that answers by OK.
  pub read32-Serves :
      (w : W) (addr : ℕ) (x : D) (bytes : List ℕ)
      → base ≤ addr
      → addr < base + size
      → let u = device (part.get w) (access read_command (addr - base) (0 ∷ 0 ∷ 0 ∷ 0 ∷ [])) 0 in
        u.0 ≡ x
        → u.1.buffer ≡ some bytes
        → u.1.response ≡ ok_response
        → read32 bus addr w ≡ (ok (of_le (take 4 bytes)), part.put w x)
  unfolding read32 taken
  read32-Serves w addr x bytes low high left got answer =
      let sent = access read_command (addr - base) (0 ∷ 0 ∷ 0 ∷ 0 ∷ []) in
      let u = device (part.get w) sent 0 in
      ap (λ (v : W × Payload × SimTime). (taken v.1.buffer v.1.response, v.0))
        (s.serve w (access read_command addr (0 ∷ 0 ∷ 0 ∷ 0 ∷ [])) 0 low high)
      ∙ ap (λ y. (taken u.1.buffer u.1.response, part.put w y)) left
      ∙ ap (λ b. (taken b u.1.response, part.put w x)) got
      ∙ ap (λ r. (taken (some bytes) r, part.put w x)) answer

  rest_of : ℕ → List ℕ → Result (Unit {0}) × W → Result (Unit {0}) × W
  rest_of addr text u = elim u.0 [ ok a ↦ write_uart bus addr text u.1 | threw e ↦ (threw e, u.1) ]

  -- A text that is written to a device that accepts bytes reaches it byte by byte, in order.
  pub write_uart-fed :
      (text : List ℕ) (w : W) (addr : ℕ)
      → base ≤ addr
      → addr < base + size
      → Accepts device (addr - base)
      → write_uart bus addr text w
        ≡ (ok tt, part.put w (fed device (addr - base) text (part.get w)))
  unfolding write_uart fed rest_of
  write_uart-fed [] w addr low high acc = ap (λ u. (ok tt, u)) (sym (part.put-get w))
  write_uart-fed (v ∷ text) w addr low high acc =
      let x = (device (part.get w) (access write_command (addr - base) (v ∷ [])) 0).0 in
      ap (rest_of addr text) (write8-Serves w addr v low high acc)
      ∙ write_uart-fed text (part.put w x) addr low high acc
      ∙ ap (λ y. (ok tt, part.put (part.put w x) (fed device (addr - base) text y)))
          (part.get-put w x)
      ∙ ap (λ u. (ok tt, u)) (part.put-put w x (fed device (addr - base) text x))

module _ {W : Type 0} {bus : Transport W} {part : Part W MemoryTlm} {base size : ℕ}
    (s : Serves bus Memory.b_transport part base size) where
  -- The world with a word stored in its RAM.
  unfoldable pub stored : W → ℕ → ℕ → W
  stored w addr v =
      let m = part.get w in
      part.put w (record m { storage = overwrite m.storage (addr - base) (le_bytes 4 v) })

  write32-stored :
      (w : W) (addr v : ℕ)
      → (part.get w).read_only ≡ false
      → length (part.get w).storage ≡ size
      → base ≤ addr
      → addr + 4 ≤ base + size
      → write32 bus addr v w ≡ (ok tt, stored w addr v)
  unfolding write32 stored
  write32-stored w addr v ram fits low high =
      let sent = access write_command addr (le_bytes 4 v) in
      let (left, answer) =
        b_transport-write (part.get w) (set_address sent (addr - base)) 0 (le_bytes 4 v) refl refl
          ram (omega (arith, fits)) in
      ap (λ u. (check word_write_failed u.1.response, u.0)) (s.serve w sent 0 low (omega arith))
      ∙ ap
          (λ r. (
            check word_write_failed r,
            part.put w (Memory.b_transport (part.get w) (set_address sent (addr - base)) 0).0,
          ))
          answer
      ∙ ap (λ x. (ok tt, part.put w x)) left

  value_of : W × Payload × SimTime → Result ℕ × W
  value_of (w, trans, delay) = (taken trans.buffer trans.response, w)

  put_back : W → ℕ → MemoryTlm × Payload × SimTime → W × Payload × SimTime
  put_back w addr (x, t, d) = (part.put w x, set_address t addr, d)

  read32-stored :
      (w : W) (addr v : ℕ)
      → (part.get w).read_only ≡ false
      → length (part.get w).storage ≡ size
      → base ≤ addr
      → addr + 4 ≤ base + size
      → v < 2 ^ 32
      → read32 bus addr (stored w addr v) ≡ (ok v, stored w addr v)
  unfolding read32 stored taken value_of put_back
  read32-stored w addr v ram fits low high small =
      let m = part.get w in
      let m' : MemoryTlm = record m {
        storage = overwrite m.storage (addr - base) (le_bytes 4 v);
      } in
      let w' = part.put w m' in
      let sent = access read_command addr (0 ∷ 0 ∷ 0 ∷ 0 ∷ []) in
      let local = set_address sent (addr - base) in
      let size' = length-overwrite m.storage (addr - base) (le_bytes 4 v) in
      let (left, got, answer) =
        b_transport-read m' local 0 (0 ∷ 0 ∷ 0 ∷ 0 ∷ []) refl refl (omega (arith, fits, size')) in
      let word =
        slice-overwrite_of_length m.storage (addr - base) (le_bytes 4 v) 4 (length-le_bytes 4 v)
          (omega (arith, fits)) in
      ap value_of (s.serve w' sent 0 low (omega arith))
      ∙ ap (λ x. value_of (put_back w' addr (Memory.b_transport x local 0))) (part.get-put w m')
      ∙ ap
          (λ x. (
            taken (Memory.b_transport m' local 0).1.buffer
                (Memory.b_transport m' local 0).1.response,
            part.put w' x,
          ))
          left
      ∙ ap (λ b. (taken b (Memory.b_transport m' local 0).1.response, part.put w' m')) got
      ∙ ap
          (λ r. (
            taken (some (overwrite (0 ∷ 0 ∷ 0 ∷ 0 ∷ []) 0 (slice m'.storage (addr - base) 4))) r,
            part.put w' m',
          ))
          answer
      ∙ ap (λ z. (ok (of_le (take 4 (overwrite (0 ∷ 0 ∷ 0 ∷ 0 ∷ []) 0 z))), part.put w' m')) word
      ∙ ap (λ (n : ℕ). (ok n, part.put w' m')) (of_le-le_bytes 4 v (omega arith))
      ∙ ap (λ u. (ok v, u)) (part.put-put w m' m')

  -- The end of the test, by what `read32` did.
  compared : ℕ → Result ℕ × W → Result (Unit {0}) × W
  compared v u = elim u.0 [
    | ok value ↦ (if value == v then ok tt else threw ram_mismatch, u.1)
    | threw e ↦ (threw e, u.1)
  ]

  -- A word that is written into a RAM behind the bus and read back is the word that was written,
  -- with no exception, and the test of the RAM passes; only these four bytes change.
  pub check_ram-stored :
      (w : W) (addr v : ℕ)
      → (part.get w).read_only ≡ false
      → length (part.get w).storage ≡ size
      → base ≤ addr
      → addr + 4 ≤ base + size
      → v < 2 ^ 32
      → (write32 bus addr v w ≡ (ok tt, stored w addr v))
        × (read32 bus addr (stored w addr v) ≡ (ok v, stored w addr v))
        × (check_ram bus addr v w ≡ (ok tt, stored w addr v))
  unfolding check_ram compared
  check_ram-stored w addr v ram fits low high small =
      let wrote = write32-stored w addr v ram fits low high in
      let got = read32-stored w addr v ram fits low high small in
      let same : (v == v) ≡ true = ground arith in
      (
        wrote,
        got,
        ap (λ u. elim u.0 [ ok a ↦ compared v (read32 bus addr u.1) | threw e ↦ (threw e, u.1) ])
              wrote
            ∙ ap (compared v) got
            ∙ ap (λ b. (if b then ok tt else threw ram_mismatch, stored w addr v)) same,
      )
