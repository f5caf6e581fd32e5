-- ===== src/Platform/CustomSoc.antt =====
-- platforms/riscv_custom_soc/src/riscv_custom_soc_top.cpp. The processor's side of the two interrupt
-- controllers is the levels that they hold; the UART and the I2C controller are parameters.
use cdc_vp.Base.{
  ℕ, zero, suc, ◌+◌, ◌-◌, ◌≡◌, refl, ap, ◌∙◌, Bool, true, false, Option, none, some, List, [], ◌∷◌,
  ltb, bit, overwrite, take, le_bytes, of_le, if◌then◌else◌, arith,
}
use cdc_vp.Tlm.{Payload, SimTime, is_read, ok_response, set_address}
use cdc_vp.Range.{AddressRange}
use cdc_vp.Memory
use cdc_vp.Memory.{MemoryTlm}
use cdc_vp.Clint
use cdc_vp.Clint.{ClintTlm}
use cdc_vp.Plic
use cdc_vp.Plic.{PlicTlm, on_sources}
use cdc_vp.Plic.Single.{
  single, on_sources-single, on_sources-taken, b_transport-claim, b_transport_complete,
}
use cdc_vp.Router.{BusRouter, CpuPort, b_transport}
use cdc_vp.Router.Decode.{IsMap}
use cdc_vp.Device.{Transport, Part, Serves, router-Serves}
use cdc_vp.Platform.CpuEval.{connect}

abbrev pub ram_base : ℕ
ram_base = 0x80000000

abbrev pub ram_size : ℕ
ram_size = 0x10000

abbrev pub uart_base : ℕ
uart_base = 0x10000000

abbrev pub clint_base : ℕ
clint_base = 0x02000000

abbrev pub clint_size : ℕ
clint_size = 0x10000

abbrev pub plic_base : ℕ
plic_base = 0x0C000000

abbrev pub plic_size : ℕ
plic_size = 0x400000

abbrev pub i2c_base : ℕ
i2c_base = 0x10010000

abbrev pub region_size : ℕ
region_size = 0x1000

abbrev pub num_plic_sources : ℕ
num_plic_sources = 1

-- The regions in the order of the calls of `add_target`.
abbrev pub regions : List AddressRange
regions =
    record { base = ram_base; size = ram_size }
    ∷ record { base = uart_base; size = region_size }
    ∷ record { base = clint_base; size = clint_size }
    ∷ record { base = plic_base; size = plic_size }
    ∷ record { base = i2c_base; size = region_size }
    ∷ []

-- `impl`
unfoldable pub custom_soc_bus : Bool → Option (List CpuPort × BusRouter)
unfolding connect
custom_soc_bus unified = connect 5 unified regions

-- What stands when `impl` is constructed.
abbrev pub bus_map : Bool → BusRouter
bus_map unified = record {
  ranges = regions;
  num_sockets = 5;
  num_extra_ports = if unified then 0 else 1;
}

pub regions-IsMap : IsMap regions
regions-IsMap = ground arith

-- The components that the transactions reach, and the simulation time. `faulted` says that an access
-- to the interruptor was undefined behaviour.
pub record CustomSoc (U I : Type 0) : Type 0 where
  pub ram : MemoryTlm
  pub uart : U
  pub clint : ClintTlm
  pub plic : PlicTlm
  pub i2c : I
  pub now : SimTime
  pub faulted : Bool

-- `i2c_irq` takes a level, which is source 1 of the interrupt controller.
unfoldable pub i2c_irq : {U I : Type 0} → Bool → CustomSoc U I → CustomSoc U I
i2c_irq level w = record w { plic = on_sources w.plic (level ∷ []) }

module _ {U I : Type 0} (unified : Bool) (uart : Transport U) (i2c : Transport I) where
  -- The socket of an index is bound to this component.
  unfoldable pub targets : ℕ → Transport (CustomSoc U I)
  targets zero w trans delay =
      let (m, t, d) = Memory.b_transport w.ram trans delay in (record w { ram = m }, t, d)
  targets (suc zero) w trans delay =
      let (u, t, d) = uart w.uart trans delay in (record w { uart = u }, t, d)
  targets (suc (suc zero)) w trans delay = elim (Clint.b_transport w.clint trans delay w.now) [
    | none ↦ (record w { faulted = true }, trans, delay)
    | some (c, t, d) ↦ (record w { clint = c }, t, d)
  ]
  targets (suc (suc (suc zero))) w trans delay =
      let (p, t, d) = Plic.b_transport w.plic trans delay in (record w { plic = p }, t, d)
  targets (suc (suc (suc (suc k)))) w trans delay =
      let (x, t, d) = i2c w.i2c trans delay in (record w { i2c = x }, t, d)

  unfoldable pub bus : Transport (CustomSoc U I)
  unfolding targets
  bus = b_transport targets (bus_map unified)

  unfoldable pub plic_part : Part (CustomSoc U I) PlicTlm
  plic_part = record {
    get = λ w. w.plic;
    put = λ w p. record w { plic = p };
    get-put = λ w p. refl;
    put-get = λ w. refl;
    put-put = λ w p q. refl;
  }

  pub serves_plic : Serves bus Plic.b_transport plic_part plic_base plic_size
  unfolding bus targets plic_part
  serves_plic =
      router-Serves targets Plic.b_transport plic_part (bus_map unified) 3 (λ w trans delay. refl)
        regions-IsMap (omega arith)

  -- A word access to the claim register over the bus.
  abbrev pub AtClaim : Payload → Bool → List ℕ → Type 0
  AtClaim trans read bytes =
      (trans.address ≡ plic_base + 0x200004)
      × (trans.data_length ≡ 4)
      × (is_read trans.command ≡ read)
      × (trans.buffer ≡ some bytes)

  module _ (unused : ℕ) (idle : Bool) (prio en limit : ℕ) (set : bit en 1 ≡ true)
      (above : ltb limit prio ≡ true) where
    claim_over_bus :
        (w : CustomSoc U I) (level : Bool) (trans : Payload) (delay : SimTime) (bytes : List ℕ)
        → w.plic ≡ single unused idle prio en limit true false level
        → AtClaim trans true bytes
        → let (w', t', d) = bus w trans delay in
          (w' ≡ record w { plic = single unused idle prio en limit true true false })
          × (t'.buffer ≡ some (overwrite bytes 0 (le_bytes 4 1)))
          × (t'.response ≡ ok_response)
    unfolding plic_part
    claim_over_bus w level trans delay bytes p (a, l, r, b) =
        let (left, got, answer) =
          b_transport-claim unused idle prio en limit set above level
            (set_address trans (trans.address - plic_base)) delay bytes (omega (arith, a)) l r b in
        rw (serves_plic.serve w trans delay (omega (arith, a)) (omega (arith, a)), p)
          (ap (λ q. record w { plic = q }) left, got, answer)

    complete_over_bus :
        (w : CustomSoc U I) (line level : Bool) (trans : Payload) (delay : SimTime) (bytes : List ℕ)
        → w.plic ≡ single unused idle prio en limit line true level
        → AtClaim trans false bytes
        → of_le (take 4 bytes) ≡ 1
        → let (w', t', d) = bus w trans delay in
          (w' ≡ record w { plic = single unused idle prio en limit line false line })
          × (t'.response ≡ ok_response)
    unfolding plic_part
    complete_over_bus w line level trans delay bytes p (a, l, r, b) id =
        let (left, answer) =
          b_transport_complete unused idle prio en limit set above line level
            (set_address trans (trans.address - plic_base)) delay bytes (omega (arith, a)) l r b
            id in
        rw (serves_plic.serve w trans delay (omega (arith, a)) (omega (arith, a)), p)
          (ap (λ q. record w { plic = q }) left, answer)

    -- An interrupt of the I2C controller is serviced over the bus of the system. The source is enabled
    -- with a priority above the threshold, and not being serviced. When the line of the controller
    -- rises, the external interrupt of the processor is raised; the read of the claim register gives
    -- the source's id 1 and lowers the interrupt, which stays low whatever the line does until the id
    -- is written back; then the interrupt is the level of the line, and nothing else has changed in
    -- the system.
    pub interrupt_round :
        (w : CustomSoc U I) (level line : Bool) (claim complete : Payload) (delay delay' : SimTime)
        (bytes bytes' : List ℕ)
        → w.plic ≡ single unused idle prio en limit false false level
        → AtClaim claim true bytes
        → AtClaim complete false bytes'
        → of_le (take 4 bytes') ≡ 1
        → let w1 = i2c_irq true w in
          let (w2, t2, d2) = bus w1 claim delay in
          let w3 = i2c_irq line w2 in
          let (w4, t4, d4) = bus w3 complete delay' in
          (w1.plic.irq ≡ true)
          × (t2.buffer ≡ some (overwrite bytes 0 (le_bytes 4 1)))
          × (t2.response ≡ ok_response)
          × (w2.plic.irq ≡ false)
          × (w3.plic.irq ≡ false)
          × (t4.response ≡ ok_response)
          × (w4 ≡ record w { plic = single unused idle prio en limit line false line })
    unfolding i2c_irq
    interrupt_round w level line claim complete delay delay' bytes bytes' p at_claim at_complete
          id =
        let raised =
          ap (λ q. on_sources q (true ∷ [])) p
          ∙ on_sources-single unused idle prio en limit set above false level true in
        let (after, got, answer) =
          claim_over_bus (i2c_irq true w) true claim delay bytes raised at_claim in
        let kept =
          ap (λ u. on_sources u.plic (line ∷ [])) after
          ∙ on_sources-taken unused idle prio en limit set above true false line in
        let (last, answer') =
          complete_over_bus (i2c_irq line (bus (i2c_irq true w) claim delay).0) line false complete
            delay' bytes' kept at_complete id in
        (
          ap (λ q. q.irq) raised,
          got,
          answer,
          ap (λ u. u.plic.irq) after,
          ap (λ q. q.irq) kept,
          answer',
          last
              ∙ ap
                  (λ (u : CustomSoc U I). record u {
                    plic = single unused idle prio en limit line false line;
                  })
                  after,
        )
