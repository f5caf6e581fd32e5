-- ===== src/Platform.antt =====
-- The platforms, platforms/*/src/*_top.cpp: components bound to a router at the addresses of a
-- memory map. The UART, the I2C controller and the timer of components/ that they use are not in
-- the repository, and are parameters.
pub mod MiniTlm
pub mod MiniSoc
pub mod CpuEval
pub mod CustomSoc
pub mod Options
pub mod Start
pub mod Maps
pub mod Firmware
pub mod System
pub mod Interrupts
pub mod TimerInterrupt
pub mod SocAccess
mod Tests
mod TimerTests
