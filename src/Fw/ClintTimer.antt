-- ===== src/Fw/ClintTimer.antt =====
-- fw/clint_timer_riscv/src/main.c as a machine, in the way of Fw.SocIrq: the program and its trap handler
-- go on in steps, and between any two of them come the timer interrupt, rounds of the CLINT's thread and
-- time. The handler, in which the core takes no interrupt, is one step.
pub mod State
pub mod Main
pub mod Timely
pub mod Invariant
pub mod Demo
use cdc_vp.Base.{
  ℕ, suc, ◌+◌, ◌%◌, ◌^◌, Bool, true, false, not, ◌&&◌, List, [], ◌∷◌, ltb, if◌then◌else◌,
}
use cdc_vp.Tlm.{SimTime}
use cdc_vp.Clint.{timer_proc}
use cdc_vp.Device.{Transport}
use cdc_vp.Stub.{Action, ok, threw, write32, read32}
use cdc_vp.Platform.CustomSoc.{CustomSoc, bus, clint_base}
use cdc_vp.Fw.{uart_puts, hello, timer_text, done_text}

-- Where `main` is: before the accesses to `CLINT_MTIME_HI`, `CLINT_MTIME_LO`, `CLINT_MTIMECMP_HI` and
-- `CLINT_MTIMECMP_LO`, before the bits of `mie` and `mstatus` are set, in the loop that waits for the
-- interrupt, sending what is left of the last text, and in the last loop.
pub data MainPc : Type 0 where
  read_hi read_lo write_hi write_lo set_mie set_mstatus waiting : MainPc
  finishing : List ℕ → MainPc
  parked : MainPc

-- The system with the program's variables, the bits of `mie` and `mstatus` that it sets, where `main` is
-- and whether the trap handler was entered. `crashed` says that an access failed.
pub record Machine (U I : Type 0) : Type 0 where
  pub soc : CustomSoc U I
  pub ticks : ℕ
  pub hi : ℕ
  pub lo : ℕ
  pub mtie : Bool
  pub mstatus_mie : Bool
  pub main : MainPc
  pub trapped : Bool
  pub crashed : Bool

pub data Event : Type 0 where
  program timer_round trap : Event
  time_passes : SimTime → Event

-- The start of `main`. The locals have no value there that is read.
abbrev pub main_entry : {U I : Type 0} → CustomSoc U I → Machine U I
main_entry w = record {
  soc = w;
  ticks = 0;
  hi = 0;
  lo = 0;
  mtie = false;
  mstatus_mie = false;
  main = read_hi;
  trapped = false;
  crashed = false;
}

-- The time that passes in them.
abbrev pub elapsed : List Event → SimTime
elapsed [] = 0
elapsed (time_passes d ∷ es) = d + elapsed es
elapsed (_ ∷ es) = elapsed es

module _ {U I : Type 0} (unified : Bool) (uart : Transport U) (i2c : Transport I) where
  pub perform :
      {A : Type 0}
      → Action (CustomSoc U I) A
      → (A → Machine U I → Machine U I)
      → Machine U I
      → Machine U I
  perform act next m =
      let (r, w) = act m.soc in
      elim r [
        | ok x ↦ next x (record m { soc = w })
        | threw _ ↦ record m { soc = w; crashed = true }
      ]

  -- The machine before the access to `CLINT_MTIME_HI`.
  pub boot : CustomSoc U I → Machine U I
  unfolding perform
  boot w = perform (uart_puts unified uart i2c hello) (λ _ m. m) (main_entry w)

  pub main_step : MainPc → Machine U I → Machine U I
  main_step read_hi m =
      perform (read32 (bus unified uart i2c) (clint_base + 0xBFFC))
        (λ v m'. record m' { hi = v; main = read_lo }) m
  main_step read_lo m =
      perform (read32 (bus unified uart i2c) (clint_base + 0xBFF8))
        (λ v m'. record m' { lo = v; main = write_hi }) m
  main_step write_hi m =
      perform (write32 (bus unified uart i2c) (clint_base + 0x4004) m.hi)
        (λ _ m'. record m' { main = write_lo }) m
  main_step write_lo m =
      perform (write32 (bus unified uart i2c) (clint_base + 0x4000) ((m.lo + 100) % 2 ^ 32))
        (λ _ m'. record m' { main = set_mie }) m
  main_step set_mie m = record m { mtie = true; main = set_mstatus }
  main_step set_mstatus m = record m { mstatus_mie = true; main = waiting }
  main_step waiting m = if ltb 0 m.ticks then record m { main = finishing done_text } else m
  main_step (finishing []) m = record m { main = parked }
  main_step (finishing (c ∷ text)) m =
      perform (uart_puts unified uart i2c (c ∷ [])) (λ _ m'. record m' { main = finishing text }) m
  main_step parked m = m

  pub trap_handler : Machine U I → Machine U I
  trap_handler m =
      perform (uart_puts unified uart i2c timer_text)
        (λ _ m'. record m' { ticks = suc m'.ticks; mtie = false; trapped = false }) m

  pub step : Event → Machine U I → Machine U I
  unfolding main_step trap_handler
  step program m = if m.trapped then trap_handler m else main_step m.main m
  step trap m =
      if not m.trapped && m.mstatus_mie && m.mtie && m.soc.clint.timer_irq
      then record m { trapped = true }
      else m
  step timer_round m = record m { soc = record m.soc { clint = timer_proc m.soc.clint m.soc.now } }
  step (time_passes d) m = record m { soc = record m.soc { now = m.soc.now + d } }

  pub run : List Event → Machine U I → Machine U I
  unfolding step
  run [] m = m
  run (e ∷ es) m = run es (step e m)
