-- ===== src/Platform/SocAccess.antt =====
-- What the accesses of a program to the registers of riscv_custom_soc do, over its bus.
use cdc_vp.Base.{
  ℕ, ◌+◌, ◌-◌, ◌/◌, ◌%◌, ◌^◌, ◌≤◌, ◌<◌, ◌≡◌, refl, ap, ◌∙◌, Bool, true, false, none, some, List, [],
  ◌∷◌, if◌then◌else◌, ltb, bit, le_bytes, of_le, take, arith,
}
use cdc_vp.Tlm.{Payload, read_command, write_command, SimTime, ok_response, set_address}
use cdc_vp.Clint
use cdc_vp.Clint.{ClintTlm, now_mtime}
use cdc_vp.Clint.Registers.{with_half, store_half, read_mtime}
use cdc_vp.Plic
use cdc_vp.Plic.Single.{
  Setting, priority_of_source, enable_word, threshold_word, setting_at, with_setting,
  b_transport-configure, single, b_transport-claim, b_transport-claim_nothing, b_transport_complete,
  b_transport-complete_nothing,
}
use cdc_vp.Router.Transport.{b_transport_forwards}
use cdc_vp.Device.{Transport, Part, Serves, router-Serves}
use cdc_vp.Stub.{ok, word_write_failed, access, check, write32, read32, write_uart}
use cdc_vp.Stub.Words.{Accepts, fed, write_uart-fed, write32-left, read32-Serves, taken}
use cdc_vp.Platform.CustomSoc.{
  CustomSoc, bus_map, bus, targets, regions-IsMap, uart_base, i2c_base, plic_base, clint_base,
  clint_size, region_size, plic_part, serves_plic,
}

-- The I2C controller after the write of 1 to a register.
unfoldable pub i2c_set : {I : Type 0} → Transport I → ℕ → I → I
i2c_set i2c local x = (i2c x (access write_command local (le_bytes 4 1)) 0).0

-- It answers the write of 1 to a register by OK, in every state.
abbrev pub AnswersI2c : {I : Type 0} → Transport I → ℕ → Type 0
AnswersI2c {I} i2c local =
    (x : I) → (i2c x (access write_command local (le_bytes 4 1)) 0).1.response ≡ ok_response

settings_near : (reg : Setting) → setting_at reg < 0x200004
settings_near priority_of_source = omega arith
settings_near enable_word = omega arith
settings_near threshold_word = omega arith

-- The state after the store of a word to a half of the compare register.
abbrev pub armed : {U I : Type 0} → Bool → ℕ → CustomSoc U I → CustomSoc U I
armed upper word w = record w {
  clint = record w.clint { mtimecmp = with_half upper word w.clint.mtimecmp; notified = some 0 };
}

word_of_half :
    (upper : Bool) (t : ℕ)
    → of_le (take 4 (le_bytes 4 (if upper then t / 2 ^ 32 else t % 2 ^ 32)))
      ≡ (if upper then t / 2 ^ 32 % 2 ^ 32 else t % 2 ^ 32)
word_of_half true t = omega arith
word_of_half false t = omega arith

module _ {U I : Type 0} (unified : Bool) (uart : Transport U) (i2c : Transport I) where
  uart_part : Part (CustomSoc U I) U
  uart_part = record {
    get = λ w. w.uart;
    put = λ w u. record w { uart = u };
    get-put = λ w u. refl;
    put-get = λ w. refl;
    put-put = λ w u v. refl;
  }

  i2c_part : Part (CustomSoc U I) I
  i2c_part = record {
    get = λ w. w.i2c;
    put = λ w x. record w { i2c = x };
    get-put = λ w x. refl;
    put-get = λ w. refl;
    put-put = λ w x y. refl;
  }

  serves_uart : Serves (bus unified uart i2c) uart uart_part uart_base region_size
  unfolding bus targets uart_part
  serves_uart =
      router-Serves (targets unified uart i2c) uart uart_part (bus_map unified) 1
        (λ w trans delay. refl) regions-IsMap (omega arith)

  serves_i2c : Serves (bus unified uart i2c) i2c i2c_part i2c_base region_size
  unfolding bus targets i2c_part
  serves_i2c =
      router-Serves (targets unified uart i2c) i2c i2c_part (bus_map unified) 4
        (λ w trans delay. refl) regions-IsMap (omega arith)

  pub uart_said :
      (text : List ℕ) (w : CustomSoc U I)
      → Accepts uart 0
      → write_uart (bus unified uart i2c) uart_base text w
        ≡ (ok tt, record w { uart = fed uart 0 text w.uart })
  unfolding uart_part
  uart_said text w accepts =
      write_uart-fed serves_uart text w uart_base (omega arith) (omega arith) accepts

  pub i2c_written :
      (w : CustomSoc U I) (local : ℕ)
      → local < 0x1000
      → AnswersI2c i2c local
      → write32 (bus unified uart i2c) (i2c_base + local) 1 w
        ≡ (ok tt, record w { i2c = i2c_set i2c local w.i2c })
  unfolding i2c_set i2c_part
  i2c_written w local small answers =
      let same : i2c_base + local - i2c_base ≡ local = omega arith in
      write32-left serves_i2c w (i2c_base + local) 1 (i2c_set i2c local w.i2c) (omega arith)
        (omega arith) (ap (λ l. (i2c w.i2c (access write_command l (le_bytes 4 1)) 0).0) same)
        (ap (λ l. (i2c w.i2c (access write_command l (le_bytes 4 1)) 0).1.response) same
          ∙ answers w.i2c)

  module _ (unused : ℕ) (idle : Bool) (prio en limit : ℕ) (set : bit en 1 ≡ true)
      (above : ltb limit prio ≡ true) where
    claim_word : Payload
    claim_word = access read_command 0x200004 (0 ∷ 0 ∷ 0 ∷ 0 ∷ [])

    -- The claim, by the level of the line.
    pub plic_claimed :
        (w : CustomSoc U I) (line level : Bool)
        → w.plic ≡ single unused idle prio en limit line false level
        → read32 (bus unified uart i2c) (plic_base + 0x200004) w ≡ (
          ok (if line then 1 else 0),
          record w { plic = single unused idle prio en limit line line false },
        )
    unfolding plic_part claim_word
    plic_claimed w true level p =
        let (left, got, answer) =
          b_transport-claim unused idle prio en limit set above level claim_word 0
            (0 ∷ 0 ∷ 0 ∷ 0 ∷ []) refl refl refl refl in
        read32-Serves (serves_plic unified uart i2c) w (plic_base + 0x200004)
          (single unused idle prio en limit true true false) (le_bytes 4 1) (omega arith)
          (omega arith) (ap (λ q. (Plic.b_transport q claim_word 0).0) p ∙ left)
          (ap (λ q. (Plic.b_transport q claim_word 0).1.buffer) p ∙ got)
          (ap (λ q. (Plic.b_transport q claim_word 0).1.response) p ∙ answer)
    plic_claimed w false level p =
        let (left, got, answer) =
          b_transport-claim_nothing unused idle prio en limit set above level claim_word 0
            (0 ∷ 0 ∷ 0 ∷ 0 ∷ []) refl refl refl refl in
        read32-Serves (serves_plic unified uart i2c) w (plic_base + 0x200004)
          (single unused idle prio en limit false false false) (le_bytes 4 0) (omega arith)
          (omega arith) (ap (λ q. (Plic.b_transport q claim_word 0).0) p ∙ left)
          (ap (λ q. (Plic.b_transport q claim_word 0).1.buffer) p ∙ got)
          (ap (λ q. (Plic.b_transport q claim_word 0).1.response) p ∙ answer)

    complete_word : ℕ → Payload
    complete_word id = access write_command 0x200004 (le_bytes 4 id)

    -- The completion, by the id and by whether the source is being serviced.
    pub plic_completed :
        (w : CustomSoc U I) (line taken level : Bool)
        → w.plic ≡ single unused idle prio en limit line taken level
        → write32 (bus unified uart i2c) (plic_base + 0x200004) (if taken then 1 else 0) w
          ≡ (ok tt, record w { plic = single unused idle prio en limit line false line })
    unfolding plic_part complete_word
    plic_completed w line true level p =
        let (left, answer) =
          b_transport_complete unused idle prio en limit set above line level (complete_word 1) 0
            (le_bytes 4 1) refl refl refl refl refl in
        write32-left (serves_plic unified uart i2c) w (plic_base + 0x200004) 1
          (single unused idle prio en limit line false line) (omega arith) (omega arith)
          (ap (λ q. (Plic.b_transport q (complete_word 1) 0).0) p ∙ left)
          (ap (λ q. (Plic.b_transport q (complete_word 1) 0).1.response) p ∙ answer)
    plic_completed w line false level p =
        let (left, answer) =
          b_transport-complete_nothing unused idle prio en limit set above line level
            (complete_word 0) 0 (le_bytes 4 0) refl refl refl refl refl in
        write32-left (serves_plic unified uart i2c) w (plic_base + 0x200004) 0
          (single unused idle prio en limit line false line) (omega arith) (omega arith)
          (ap (λ q. (Plic.b_transport q (complete_word 0) 0).0) p ∙ left)
          (ap (λ q. (Plic.b_transport q (complete_word 0) 0).1.response) p ∙ answer)

  -- A write to a configuration register of the interrupt controller while the line is low.
  pub plic_configured :
      (reg : Setting) (w : CustomSoc U I) (prio en limit v : ℕ)
      → v < 2 ^ 32
      → w.plic ≡ single 0 false prio en limit false false false
      → write32 (bus unified uart i2c) (plic_base + setting_at reg) v w
        ≡ (ok tt, record w { plic = with_setting reg v prio en limit })
  unfolding plic_part
  plic_configured reg w prio en limit v small p =
      let near : setting_at reg < 0x200004 = settings_near reg in
      let sent = access write_command (plic_base + setting_at reg - plic_base) (le_bytes 4 v) in
      let (left, answer) =
        b_transport-configure reg prio en limit v sent 0 (le_bytes 4 v) (omega arith) refl refl refl
          (omega arith) in
      write32-left (serves_plic unified uart i2c) w (plic_base + setting_at reg) v
        (with_setting reg v prio en limit) (omega arith) (omega (arith, near))
        (ap (λ q. (Plic.b_transport q sent 0).0) p ∙ left)
        (ap (λ q. (Plic.b_transport q sent 0).1.response) p ∙ answer)

  -- A transaction to the CLINT that it defines.
  clint_forwards :
      (w : CustomSoc U I) (trans : Payload) (c : ClintTlm) (t : Payload) (d : SimTime)
      → clint_base ≤ trans.address
      → trans.address < clint_base + clint_size
      → Clint.b_transport w.clint (set_address trans (trans.address - clint_base)) 0 w.now
        ≡ some (c, t, d)
      → bus unified uart i2c w trans 0 ≡ (record w { clint = c }, set_address t trans.address, d)
  unfolding bus targets
  clint_forwards w trans c t d low high e =
      b_transport_forwards (targets unified uart i2c) (bus_map unified) w trans 0 2 regions-IsMap
        (omega arith) (omega arith, omega arith)
      ∙ ap
          (λ r.
            let (w', t', d') : CustomSoc U I × Payload × SimTime = elim r [
              | none ↦
                  (record w { faulted = true }, set_address trans (trans.address - clint_base), 0)
              | some (c', t', d') ↦ (record w { clint = c' }, t', d')
            ] in
            (w', set_address t' trans.address, d'))
          e

  pub compare_written :
      (w : CustomSoc U I) (upper : Bool) (word : ℕ)
      → word < 2 ^ 32
      → w.clint.mtimecmp < 2 ^ 64
      → write32 (bus unified uart i2c) (clint_base + (if upper then 0x4004 else 0x4000)) word w
        ≡ (ok tt, armed upper word w)
  unfolding write32
  compare_written w upper word small fits =
      let at : ℕ = if upper then 0x4004 else 0x4000 in
      let sent = access write_command (clint_base + at) (le_bytes 4 word) in
      let near : at < clint_size = ground arith in
      ap (λ (u : CustomSoc U I × Payload × SimTime). (check word_write_failed u.1.response, u.0))
        (clint_forwards w sent _ _ _ (omega arith) (omega (arith, near)) (
          store_half w.clint (set_address sent (clint_base + at - clint_base)) 0 w.now upper word
            (omega arith) refl refl refl small fits))

  pub mtime_read :
      (w : CustomSoc U I) (upper : Bool)
      → read32 (bus unified uart i2c) (clint_base + (if upper then 0xBFFC else 0xBFF8)) w
        ≡ (ok (if upper then now_mtime w.now / 2 ^ 32 % 2 ^ 32 else now_mtime w.now % 2 ^ 32), w)
  unfolding read32 taken
  mtime_read w upper =
      let at : ℕ = if upper then 0xBFFC else 0xBFF8 in
      let half : ℕ = if upper then now_mtime w.now / 2 ^ 32 else now_mtime w.now % 2 ^ 32 in
      let sent = access read_command (clint_base + at) (0 ∷ 0 ∷ 0 ∷ 0 ∷ []) in
      let near : at < clint_size = ground arith in
      let value : of_le (take 4 (le_bytes 4 half))
          ≡ (if upper then now_mtime w.now / 2 ^ 32 % 2 ^ 32 else now_mtime w.now % 2 ^ 32) =
        word_of_half upper (now_mtime w.now) in
      ap (λ (u : CustomSoc U I × Payload × SimTime). (taken u.1.buffer u.1.response, u.0))
        (clint_forwards w sent _ _ _ (omega arith) (omega (arith, near)) (
          read_mtime w.clint (set_address sent (clint_base + at - clint_base)) 0 w.now upper
            (omega arith) refl refl refl))
      ∙ ap (λ v. (ok v, w)) value
