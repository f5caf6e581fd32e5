-- ===== src/Platform/Interrupts.antt =====
-- riscv_custom_soc with the riscv-vp backend: what the core knows of the interrupts, whatever happens in
-- the system.
use cdc_vp.Base.{
  ℕ, zero, suc, ◌≡◌, ◌⊎◌, inl, inr, refl, sym, ap, ◌∙◌, Bool, true, false, not, ◌==◌, Option, none,
  some, List, [], ◌∷◌, arith,
}
use cdc_vp.Tlm.{Payload, SimTime}
use cdc_vp.Clint
use cdc_vp.Clint.{ClintTlm, clint_tlm, timer_proc, cause_timer}
use cdc_vp.Clint.Software.{
  SoftwareIsCurrent, Tells, After, b_transport-Tells, timer_proc-SoftwareIsCurrent,
  timer_proc-software,
}
use cdc_vp.Plic
use cdc_vp.Plic.{PlicTlm, plic_tlm, any_eligible, update_meip, meip_call}
use cdc_vp.Plic.Calls
use cdc_vp.Plic.Line
use cdc_vp.Plic.Line.{
  LineIsCurrent, step, run, step-LineIsCurrent, run-plic_tlm-LineIsCurrent,
  update_meip-LineIsCurrent,
}
use cdc_vp.Router.Transport.{b_transport_cases}
use cdc_vp.Device.{Transport}
use cdc_vp.Cpu.{set_irqs}
use cdc_vp.Cpu.Vp.{Iss, IssLaws, vp_backend}
use cdc_vp.Cpu.Levels.{last_level, set_irqs-last_level}
use cdc_vp.Platform.CustomSoc.{CustomSoc, bus_map, targets, num_plic_sources}
use cdc_vp.Platform.System.{
  System, sense, wake_timer, calls_at, system_targets, system_bus, Reach, here, access, line,
  sensed, timer_round, time_passes,
}

module _ {U I C : Type 0} (unified : Bool) (uart : Transport U) (i2c : Transport I) (core : Iss C)
    (laws : IssLaws core) where
  -- What the core has pending is what the controllers last gave, and that is current.
  record IsInformed (ready : Bool) (s : System U I C) : Type 0 where
    pub msip : SoftwareIsCurrent s.soc.clint
    pub external_current : LineIsCurrent s.soc.plic ⊎ (ready ≡ true)
    pub software : laws.software s.cpu.iss ≡ s.soc.clint.software_irq
    pub timer : laws.timer s.cpu.iss ≡ s.soc.clint.timer_irq
    pub external : laws.external s.cpu.iss ≡ s.soc.plic.irq

  abbrev IfDefined : Bool → System U I C → Type 0
  IfDefined ready s = s.soc.faulted ≡ false → IsInformed ready s

  -- The calls of a step: what they say of the levels, and what the core has pending then.
  informed :
      (ready : Bool) (s : System U I C) (w : CustomSoc U I) (calls : List (ℕ × Bool))
      → IsInformed ready s
      → SoftwareIsCurrent w.clint
      → LineIsCurrent w.plic ⊎ (ready ≡ true)
      → last_level 3 s.soc.clint.software_irq calls ≡ w.clint.software_irq
      → last_level 7 s.soc.clint.timer_irq calls ≡ w.clint.timer_irq
      → last_level 11 s.soc.plic.irq calls ≡ w.plic.irq
      → IsInformed ready (record { soc = w; cpu = set_irqs (vp_backend core) calls s.cpu })
  informed ready s w calls h msip current a3 a7 a11 =
      let (a, b, c, d) = set_irqs-last_level core laws calls s.cpu in
      record {
        msip = msip;
        external_current = current;
        software = a ∙ ap (λ l. last_level 3 l calls) h.software ∙ a3;
        timer = b ∙ ap (λ l. last_level 7 l calls) h.timer ∙ a7;
        external = c ∙ ap (λ l. last_level 11 l calls) h.external ∙ a11;
      }

  clint-IsInformed :
      (ready : Bool) (s : System U I C) (trans : Payload) (delay : SimTime)
      (r : Option (ClintTlm × Payload × SimTime))
      → IsInformed ready s
      → After (λ c. Tells s.soc.clint (Clint.irq_calls trans c) c) r
      → let (w, t, d) : CustomSoc U I × Payload × SimTime = elim r [
        | none ↦ (record s.soc { faulted = true }, trans, delay)
        | some (c, t, d) ↦ (record s.soc { clint = c }, t, d)
      ] in
        IfDefined ready (record {
          soc = w;
          cpu = set_irqs (vp_backend core) (Clint.irq_calls trans w.clint) s.cpu;
        })
  clint-IsInformed ready s trans delay none h k defined = ground (arith, defined)
  clint-IsInformed ready s trans delay (some (c, t, d)) h k defined =
      informed ready s (record s.soc { clint = c }) (Clint.irq_calls trans c) h k.0
        h.external_current k.1 (k.2 _ ∙ sym k.4) (k.3 _)

  targets-IsInformed :
      (ready : Bool) (s : System U I C) (delay : SimTime)
      → IsInformed ready s
      → (idx : ℕ) (t : Payload)
      → IfDefined ready (system_targets unified uart i2c core idx s t delay).0
  unfolding system_targets calls_at targets step
  targets-IsInformed ready s delay h zero t defined =
      informed ready s _ [] h h.msip h.external_current refl refl refl
  targets-IsInformed ready s delay h (suc zero) t defined =
      informed ready s _ [] h h.msip h.external_current refl refl refl
  targets-IsInformed ready s delay h (suc (suc zero)) t defined =
      clint-IsInformed ready s t delay (Clint.b_transport s.soc.clint t delay s.soc.now) h
        (b_transport-Tells s.soc.clint t delay s.soc.now h.msip) defined
  targets-IsInformed ready s delay h (suc (suc (suc zero))) t defined =
      let p = s.soc.plic in
      let p' = (Plic.b_transport p t delay).0 in
      let (external, software, timer) = Calls.b_transport-Tells p t delay in
      let current : LineIsCurrent p' ⊎ (ready ≡ true) = elim h.external_current [
        | inl now ↦ inl (step-LineIsCurrent p (Line.bus t delay) now)
        | inr waits ↦ inr waits
      ] in
      informed ready s (record s.soc { plic = p' }) (Plic.irq_calls p t p') h h.msip current
        (software _) (timer _) external
  targets-IsInformed ready s delay h (suc (suc (suc (suc k)))) t defined =
      informed ready s _ [] h h.msip h.external_current refl refl refl

  bus-IsInformed :
      (ready : Bool) (s : System U I C) (trans : Payload) (delay : SimTime)
      → IsInformed ready s
      → IfDefined ready (system_bus unified uart i2c core s trans delay).0
  unfolding system_bus
  bus-IsInformed ready s trans delay h =
      b_transport_cases (system_targets unified uart i2c core) (IfDefined ready) (bus_map unified) s
        trans delay (λ e. h) (targets-IsInformed ready s delay h)

  sense-IsInformed : (s : System U I C) → IsInformed true s → IsInformed false (sense core s)
  unfolding sense update_meip
  sense-IsInformed s h =
      let p = update_meip s.soc.plic in
      let told =
        informed true s (record s.soc { plic = p }) (meip_call p) h h.msip (inr refl) refl refl
          refl in
      record {
        msip = told.msip;
        external_current = inl (update_meip-LineIsCurrent s.soc.plic);
        software = told.software;
        timer = told.timer;
        external = told.external;
      }

  wake_timer-IsInformed :
      (ready : Bool) (s : System U I C) → IsInformed ready s → IsInformed ready (wake_timer core s)
  unfolding wake_timer
  wake_timer-IsInformed ready s h =
      let c = timer_proc s.soc.clint s.soc.now in
      informed ready s (record s.soc { clint = c }) ((cause_timer, c.timer_irq) ∷ []) h
        (timer_proc-SoftwareIsCurrent s.soc.clint s.soc.now h.msip) h.external_current
        (sym (timer_proc-software s.soc.clint s.soc.now)) refl refl

  Reach-IsInformed :
      {s t : System U I C} {ready : Bool}
      → Reach unified uart i2c core s t ready
      → IsInformed false s
      → IsInformed ready t
  Reach-IsInformed here h = h
  Reach-IsInformed (access {t} {ready} trans delay r defined) h =
      bus-IsInformed ready t trans delay (Reach-IsInformed r h) defined
  Reach-IsInformed (line level r) h =
      let k = Reach-IsInformed r h in
      record {
        msip = k.msip;
        external_current = inr refl;
        software = k.software;
        timer = k.timer;
        external = k.external;
      }
  Reach-IsInformed (sensed {t} r) h = sense-IsInformed t (Reach-IsInformed r h)
  Reach-IsInformed (timer_round {t} {ready} r) h =
      wake_timer-IsInformed ready t (Reach-IsInformed r h)
  Reach-IsInformed (time_passes d r) h =
      let k = Reach-IsInformed r h in
      record {
        msip = k.msip;
        external_current = k.external_current;
        software = k.software;
        timer = k.timer;
        external = k.external;
      }

  -- From the construction of the system on, with a core that has nothing pending, through any
  -- transactions that are defined, changes of the I2C controller's line, runs of the method that is
  -- sensitive to it, rounds of the timer's thread and passing of time, in any order, where a change of
  -- the line makes the method ready to run and the calls of `set_irq` are those that the controllers
  -- make: the software interrupt is pending in the core exactly if `msip` is not 0, the timer
  -- interrupt exactly if the last round of the thread asserted it, and the external interrupt exactly
  -- if some source is eligible in the interrupt controller, unless the method has yet to run.
  pub Reach-pending :
      {s : System U I C} {ready : Bool} (s0 : System U I C)
      → s0.soc.clint ≡ clint_tlm
      → s0.soc.plic ≡ plic_tlm num_plic_sources
      → laws.software s0.cpu.iss ≡ false
      → laws.timer s0.cpu.iss ≡ false
      → laws.external s0.cpu.iss ≡ false
      → Reach unified uart i2c core s0 s ready
      → (laws.software s.cpu.iss ≡ not (s.soc.clint.msip == 0))
        × (laws.timer s.cpu.iss ≡ s.soc.clint.timer_irq)
        × ((laws.external s.cpu.iss ≡ any_eligible s.soc.plic) ⊎ (ready ≡ true))
  unfolding clint_tlm plic_tlm run
  Reach-pending s0 clint plic no_software no_timer no_external r =
      let start : IsInformed false s0 = record {
        msip = rw clint refl;
        external_current = inl (rw plic (run-plic_tlm-LineIsCurrent num_plic_sources []));
        software = no_software ∙ sym (ap (λ c. c.software_irq) clint);
        timer = no_timer ∙ sym (ap (λ c. c.timer_irq) clint);
        external = no_external ∙ sym (ap (λ p. p.irq) plic);
      } in
      let told = Reach-IsInformed r start in
      (
        told.software ∙ told.msip,
        told.timer,
        elim told.external_current [ inl now ↦ inl (told.external ∙ now) | inr waits ↦ inr waits ],
      )
