-- ===== src/Cpu/Levels.antt =====
-- What the interrupt inputs of the two wrappers do to the cores, over any calls.
use cdc_vp.Base.{ℕ, ◌≡◌, refl, ap, ◌∙◌, Bool, List, [], ◌∷◌, ◌==◌, if◌then◌else◌, arith}
use cdc_vp.Cpu.{set_irqs}
use cdc_vp.Cpu.Vp.{Iss, IssLaws, RiscvVpCpu, set_irq, vp_backend}

-- The level that the last call for this cause gave, or the level before.
abbrev pub last_level : ℕ → Bool → List (ℕ × Bool) → Bool
last_level cause level [] = level
last_level cause level ((k, l) ∷ calls) = last_level cause (if k == cause then l else level) calls

module _ {C : Type 0} (core : Iss C) (laws : IssLaws core) where
  -- One call.
  pub set_irq-levels :
      (k : ℕ) (l : Bool) (cpu : RiscvVpCpu C)
      → let cpu' = set_irq core k l cpu in
        (laws.software cpu'.iss ≡ (if k == 3 then l else laws.software cpu.iss))
        × (laws.timer cpu'.iss ≡ (if k == 7 then l else laws.timer cpu.iss))
        × (laws.external cpu'.iss ≡ (if k == 11 then l else laws.external cpu.iss))
        × (cpu'.entry_pc ≡ cpu.entry_pc)
  unfolding set_irq
  set_irq-levels k l cpu = ground (
    arith,
    laws.software_set l cpu.iss,
    laws.software_timer l cpu.iss,
    laws.software_external cpu.iss,
    laws.software_clear cpu.iss,
    laws.timer_set l cpu.iss,
    laws.timer_software l cpu.iss,
    laws.timer_external cpu.iss,
    laws.timer_clear cpu.iss,
    laws.external_set cpu.iss,
    laws.external_clear cpu.iss,
    laws.external_software l cpu.iss,
    laws.external_timer l cpu.iss,
  )

  -- After any calls of `set_irq`, the software, timer and external interrupt of the riscv-vp core
  -- are pending exactly if the last call for cause 3, 7 or 11 said so, or as before if there was
  -- none; calls for other causes change nothing.
  pub set_irqs-last_level :
      (calls : List (ℕ × Bool)) (cpu : RiscvVpCpu C)
      → let cpu' = set_irqs (vp_backend core) calls cpu in
        (laws.software cpu'.iss ≡ last_level 3 (laws.software cpu.iss) calls)
        × (laws.timer cpu'.iss ≡ last_level 7 (laws.timer cpu.iss) calls)
        × (laws.external cpu'.iss ≡ last_level 11 (laws.external cpu.iss) calls)
        × (cpu'.entry_pc ≡ cpu.entry_pc)
  unfolding set_irqs vp_backend
  set_irqs-last_level [] cpu = (refl, refl, refl, refl)
  set_irqs-last_level ((k, l) ∷ calls) cpu =
      let (a, b, c, d) = set_irq-levels k l cpu in
      let (a', b', c', d') = set_irqs-last_level calls (set_irq core k l cpu) in
      (
        a' ∙ ap (λ x. last_level 3 x calls) a,
        b' ∙ ap (λ x. last_level 7 x calls) b,
        c' ∙ ap (λ x. last_level 11 x calls) c,
        d' ∙ d,
      )
