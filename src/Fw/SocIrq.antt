-- ===== src/Fw/SocIrq.antt =====
-- fw/soc_irq_riscv/src/main.c, from the arming of the timer on as a machine: the program and its
-- trap handler go on in steps, and between any two of them come the traps that the core takes and
-- what the devices do. A step is an access, or the sending of a text by the handler, in which no
-- trap is taken; the set-up runs before the interrupts are enabled and while the line is low. The
-- core's part is that of the RISC-V privileged architecture: it takes a machine interrupt only while
-- it is pending and enabled, and none in the handler.
pub mod Log
pub mod Controllers
pub mod State
pub mod Main
pub mod Handler
pub mod Invariant
pub mod Boot
pub mod Arm
pub mod Progress
pub mod Finish
use cdc_vp.Base.{
  ℕ, ◌+◌, ◌%◌, ◌^◌, Bool, true, false, not, ◌&&◌, Option, none, some, List, [], ◌∷◌, ◌==◌,
  if◌then◌else◌,
}
use cdc_vp.Tlm.{SimTime}
use cdc_vp.Clint.{timer_proc}
use cdc_vp.Device.{Transport}
use cdc_vp.Stub.{Action, Result, ok, threw, ◌>>◌, ◌>>=◌, write32, read32}
use cdc_vp.Platform.CustomSoc.{CustomSoc, bus, i2c_irq, clint_base, plic_base, i2c_base}
use cdc_vp.Fw.{uart_puts, hello, timer_text, ext_text, done_text}

-- Where `main` is: before the accesses to `CLINT_MTIME_HI`, `CLINT_MTIME_LO`, `CLINT_MTIMECMP_HI`,
-- `CLINT_MTIMECMP_LO`, `I2C_IIER`, `I2C_IER` and `I2C_ICTLR`, in the loop that waits for the interrupts,
-- sending what is left of the last text, and in the last loop.
pub data MainPc : Type 0 where
  read_hi : MainPc
  read_lo : ℕ → MainPc
  write_hi write_lo : ℕ → ℕ → MainPc
  set_iier set_ier set_ictlr waiting : MainPc
  finishing : List ℕ → MainPc
  parked : MainPc

-- Where `trap_handler` is: before the test of the code, before `I2C_IICR` is written, before the text
-- is sent, and before the completion.
pub data HandlerPc : Type 0 where
  dispatch : ℕ → HandlerPc
  clear_source announce : HandlerPc
  complete : ℕ → HandlerPc

-- The system with the program's variables, the bits of `mie` and `mstatus` that it sets, and where it is;
-- `handler` is `none` outside of the trap handler. `crashed` says that an access failed.
pub record Machine (U I : Type 0) : Type 0 where
  pub soc : CustomSoc U I
  pub timer_done : Bool
  pub ext_done : Bool
  pub mtie : Bool
  pub meie : Bool
  pub mstatus_mie : Bool
  pub main : MainPc
  pub handler : Option HandlerPc
  pub crashed : Bool

-- What happens: a step of the program, a trap with this code, a level of the I2C controller's line, a
-- round of the CLINT's thread, and time.
pub data Event : Type 0 where
  program timer_round : Event
  trap : ℕ → Event
  line : Bool → Event
  time_passes : SimTime → Event

-- Is the interrupt of this code pending in the controllers and enabled?
abbrev pub pending : {U I : Type 0} → ℕ → Machine U I → Bool
pending code m =
    if code == 7
    then m.mtie && m.soc.clint.timer_irq
    else if code == 11
    then m.meie && m.soc.plic.irq
    else false

-- A trap that the core may take, or none.
pub take_trap : {U I : Type 0} → ℕ → Machine U I → Machine U I
take_trap code m = elim m.handler [
  | none ↦
      if m.mstatus_mie && pending code m then record m { handler = some (dispatch code) } else m
  | some _ ↦ m
]

module _ {U I : Type 0} (unified : Bool) (uart : Transport U) (i2c : Transport I) where
  -- `main` up to the arming of the timer, but for the control registers.
  pub set_up : Action (CustomSoc U I) (Unit {0})
  set_up = do
    uart_puts unified uart i2c hello
    write32 (bus unified uart i2c) (plic_base + 0x000004) 1
    write32 (bus unified uart i2c) (plic_base + 0x002000) 2
    write32 (bus unified uart i2c) (plic_base + 0x200000) 0

  -- The machine when the interrupts have been enabled.
  pub boot : CustomSoc U I → Machine U I
  unfolding set_up
  boot w =
      let (r, w') = set_up w in
      record {
        soc = w';
        timer_done = false;
        ext_done = false;
        mtie = true;
        meie = true;
        mstatus_mie = true;
        main = read_hi;
        handler = none;
        crashed = elim r [ ok _ ↦ false | threw _ ↦ true ];
      }

  -- An access or several, and what the program does with the result.
  pub perform :
      {A : Type 0}
      → Action (CustomSoc U I) A
      → (A → Machine U I → Machine U I)
      → Machine U I
      → Machine U I
  perform act next m =
      let (r, w) = act m.soc in
      elim r [
        | ok x ↦ next x (record m { soc = w })
        | threw _ ↦ record m { soc = w; crashed = true }
      ]

  pub main_step : MainPc → Machine U I → Machine U I
  main_step read_hi m =
      perform (read32 (bus unified uart i2c) (clint_base + 0xBFFC))
        (λ hi m'. record m' { main = read_lo hi }) m
  main_step (read_lo hi) m =
      perform (read32 (bus unified uart i2c) (clint_base + 0xBFF8))
        (λ lo m'. record m' { main = write_hi hi lo }) m
  main_step (write_hi hi lo) m =
      perform (write32 (bus unified uart i2c) (clint_base + 0x4004) hi)
        (λ _ m'. record m' { main = write_lo hi lo }) m
  main_step (write_lo hi lo) m =
      perform (write32 (bus unified uart i2c) (clint_base + 0x4000) ((lo + 100) % 2 ^ 32))
        (λ _ m'. record m' { main = set_iier }) m
  main_step set_iier m =
      perform (write32 (bus unified uart i2c) (i2c_base + 0x4C) 1)
        (λ _ m'. record m' { main = set_ier }) m
  main_step set_ier m =
      perform (write32 (bus unified uart i2c) (i2c_base + 0x00) 1)
        (λ _ m'. record m' { main = set_ictlr }) m
  main_step set_ictlr m =
      perform (write32 (bus unified uart i2c) (i2c_base + 0x04) 1)
        (λ _ m'. record m' { main = waiting }) m
  main_step waiting m =
      if m.timer_done && m.ext_done then record m { main = finishing done_text } else m
  main_step (finishing []) m = record m { main = parked }
  main_step (finishing (c ∷ text)) m =
      perform (uart_puts unified uart i2c (c ∷ [])) (λ _ m'. record m' { main = finishing text }) m
  main_step parked m = m

  pub handler_step : HandlerPc → Machine U I → Machine U I
  handler_step (dispatch code) m =
      if code == 7
      then perform (uart_puts unified uart i2c timer_text)
          (λ _ m'. record m' { timer_done = true; mtie = false; handler = none }) m
      else if code == 11
      then perform (read32 (bus unified uart i2c) (plic_base + 0x200004))
          (λ id m'. record m' { handler = some (if id == 1 then clear_source else complete id) }) m
      else record m { handler = none }
  handler_step clear_source m =
      perform (write32 (bus unified uart i2c) (i2c_base + 0x50) 1)
        (λ _ m'. record m' { handler = some announce }) m
  handler_step announce m =
      perform (uart_puts unified uart i2c ext_text)
        (λ _ m'. record m' { ext_done = true; handler = some (complete 1) }) m
  handler_step (complete id) m =
      perform (write32 (bus unified uart i2c) (plic_base + 0x200004) id)
        (λ _ m'. record m' { handler = none }) m

  pub program_step : Machine U I → Machine U I
  unfolding main_step handler_step
  program_step m = elim m.handler [ none ↦ main_step m.main m | some pc ↦ handler_step pc m ]

  pub step : Event → Machine U I → Machine U I
  unfolding program_step take_trap
  step program m = program_step m
  step (trap code) m = take_trap code m
  step (line level) m = record m { soc = i2c_irq level m.soc }
  step timer_round m = record m { soc = record m.soc { clint = timer_proc m.soc.clint m.soc.now } }
  step (time_passes d) m = record m { soc = record m.soc { now = m.soc.now + d } }

  pub run : List Event → Machine U I → Machine U I
  unfolding step
  run [] m = m
  run (e ∷ es) m = run es (step e m)
