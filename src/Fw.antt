-- ===== src/Fw.antt =====
-- fw/clint_timer_riscv and fw/soc_irq_riscv: the firmware of riscv_custom_soc, by what it does on the
-- bus. An access is the one of Stub, with an exception where the bus does not answer by OK.
pub mod ClintTimer
pub mod SocIrq
mod Tests
use cdc_vp.Base.{ℕ, Bool, List, [], ◌∷◌}
use cdc_vp.Device.{Transport}
use cdc_vp.Stub.{Action, write_uart}
use cdc_vp.Platform.CustomSoc.{CustomSoc, bus, uart_base}

-- "Hello from custom SoC\n"
abbrev pub hello : List ℕ
hello =
    b'H' ∷ b'e' ∷ b'l' ∷ b'l' ∷ b'o' ∷ b' ' ∷ b'f' ∷ b'r' ∷ b'o' ∷ b'm' ∷ b' ' ∷ b'c' ∷ b'u' ∷ b's'
    ∷ b't' ∷ b'o' ∷ b'm' ∷ b' ' ∷ b'S' ∷ b'o' ∷ b'C' ∷ 10 ∷ []

-- "TIMER\n"
abbrev pub timer_text : List ℕ
timer_text = b'T' ∷ b'I' ∷ b'M' ∷ b'E' ∷ b'R' ∷ 10 ∷ []

-- "EXT IRQ\n"
abbrev pub ext_text : List ℕ
ext_text = b'E' ∷ b'X' ∷ b'T' ∷ b' ' ∷ b'I' ∷ b'R' ∷ b'Q' ∷ 10 ∷ []

-- "done\n"
abbrev pub done_text : List ℕ
done_text = b'd' ∷ b'o' ∷ b'n' ∷ b'e' ∷ 10 ∷ []

module _ {U I : Type 0} (unified : Bool) (uart : Transport U) (i2c : Transport I) where
  abbrev pub uart_puts : List ℕ → Action (CustomSoc U I) (Unit {0})
  uart_puts text = write_uart (bus unified uart i2c) uart_base text
