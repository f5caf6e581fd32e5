-- ===== src/Platform/Start.antt =====
-- `sc_main` of riscv_cpu_eval and of riscv_custom_soc, up to the start of the simulation, with the
-- riscv-vp backend. `std::stoull` and the conversion of nanoseconds to `sc_time` are parameters.
-- Output and the measurement of host time are left out.
use cdc_vp.Base.{
  ℕ, ◌≤◌, ◌≡◌, refl, Option, none, some, List, [], ◌∷◌, if◌then◌else◌, ltb, Bool-cases, inl, inr,
  arith,
}
use cdc_vp.Tlm.{SimTime, nanoseconds}
use cdc_vp.Cpu.Vp.{RiscvVpCpu, riscv_vp_cpu, set_elf_path, quantum_init}
use cdc_vp.Platform.Options.{Text, get_opt, has_flag}

abbrev pub fw_option : Text
fw_option = b'-' ∷ b'-' ∷ b'f' ∷ b'w' ∷ []

abbrev pub quantum_option : Text
quantum_option = b'-' ∷ b'-' ∷ b'q' ∷ b'u' ∷ b'a' ∷ b'n' ∷ b't' ∷ b'u' ∷ b'm' ∷ []

abbrev pub sim_ms_option : Text
sim_ms_option = b'-' ∷ b'-' ∷ b's' ∷ b'i' ∷ b'm' ∷ b'-' ∷ b'm' ∷ b's' ∷ []

abbrev pub bench_option : Text
bench_option = b'-' ∷ b'-' ∷ b'b' ∷ b'e' ∷ b'n' ∷ b'c' ∷ b'h' ∷ []

abbrev pub default_quantum : Text
default_quantum = b'1' ∷ b'0' ∷ b'0' ∷ b'0' ∷ []

abbrev pub default_sim_ms : Text
default_sim_ms = b'2' ∷ b'0' ∷ []

-- The processor with what `load_firmware` was given; an empty path is no call.
abbrev pub with_firmware : {C : Type 0} → Text → RiscvVpCpu C → RiscvVpCpu C
with_firmware [] cpu = cpu
with_firmware (c ∷ path) cpu = set_elf_path (c ∷ path) cpu

with_firmware_lem :
    {C : Type 0} (path : Text) (iss : C)
    → let cpu = with_firmware path (riscv_vp_cpu iss) in (cpu.iss ≡ iss) × (cpu.elf_path ≡ path)
with_firmware_lem [] iss = (refl, refl)
with_firmware_lem (c ∷ path) iss = (refl, refl)

quantum_init_lem :
    (gq : SimTime)
    → (nanoseconds 10 ≤ quantum_init gq) × (nanoseconds 10 ≤ gq → quantum_init gq ≡ gq)
unfolding quantum_init
quantum_init_lem gq = elim (Bool-cases (ltb gq (nanoseconds 10))) [
  | inl low ↦ rw low (omega arith, λ h. absurd (ground arith))
  | inr fine ↦ rw fine (ground arith, λ h. refl)
]

module _ (stoull : Text → Option ℕ) (ns : ℕ → SimTime) where
  -- The processor and the global quantum when the simulation starts; `none` is an exception of
  -- `std::stoull`.
  unfoldable pub start : {C : Type 0} → List Text → C → Option (RiscvVpCpu C × SimTime)
  start args iss =
      let fw = get_opt args fw_option [] in
      elim (stoull (get_opt args quantum_option default_quantum)) [
        | none ↦ none
        | some quantum_ns ↦ some (with_firmware fw (riscv_vp_cpu iss), quantum_init (ns quantum_ns))
      ]

  -- The simulated time of riscv_cpu_eval, in milliseconds.
  unfoldable pub cpu_eval_ms : List Text → Option ℕ
  cpu_eval_ms args =
      if has_flag args bench_option
      then stoull (get_opt args sim_ms_option default_sim_ms)
      else some 1

  -- When the quantum is a number, the platform starts, with the processor told to load exactly the
  -- path of `--fw`, or nothing if there is none, and with a global quantum that is at least the 10
  -- nanoseconds of a cycle of the core and is the one asked for if that is.
  pub start_lem :
      {C : Type 0} (args : List Text) (iss : C) (quantum_ns : ℕ)
      → stoull (get_opt args quantum_option default_quantum) ≡ some quantum_ns
      → (cpu : RiscvVpCpu C) × (gq : SimTime) × (start args iss ≡ some (cpu, gq))
        × (cpu.iss ≡ iss)
        × (cpu.elf_path ≡ get_opt args fw_option [])
        × (nanoseconds 10 ≤ gq)
        × (nanoseconds 10 ≤ ns quantum_ns → gq ≡ ns quantum_ns)
  unfolding start
  start_lem args iss quantum_ns e =
      let fw = get_opt args fw_option [] in
      let (same_iss, path) = with_firmware_lem fw iss in
      let (least, kept) = quantum_init_lem (ns quantum_ns) in
      (
        with_firmware fw (riscv_vp_cpu iss),
        quantum_init (ns quantum_ns),
        rw (start, e) refl,
        same_iss,
        path,
        least,
        kept,
      )
