-- ===== src/Lib.antt =====
-- Models and proofs of CDC-VP, a virtual platform of SystemC TLM-2.0 components for RISC-V systems.
--
-- Processors and stubs send transactions into the bus router (components/bus_router), which finds
-- the region of the address and forwards to the component mapped there: memories, the interrupt
-- controllers CLINT and PLIC, the watchdog, the PWM generator, the timer, the SPI controller. The
-- interrupt controllers call back into the processor by `set_irq`, and the other components drive
-- signals.
--
-- A module here is named for a component. Its state is a record with the members of the C++ class;
-- each member function is a function from the state to the new state and its results, `b_transport`
-- among them, which takes the payload (Tlm) and the delay and gives them back changed. A thread is
-- the function of one round of its loop from where its wait returns, so that a theorem ranges over
-- the events that end the waits. The simulation kernel, TLM and the processor cores are libraries:
-- of TLM the payload's attributes are modelled (Tlm), what a socket is bound to is a parameter, and
-- the kernel is not modelled beyond the rounds and deliveries that the theorems quantify over.
--
--   Base           numbers, lists, bytes and bits that all modules share; `memcpy` by `overwrite`
--                  and `slice`; integers lie in memory with the least significant byte first
--   Tlm, Fixtures  payloads; transactions for tests
--   Range          components/common/include/common.h
--   Router         components/bus_router (Decode, Build, Transport)
--   Memory         components/memory_tlm (Access, Safety, Debug, History)
--   Plic           components/plic_tlm (Select, Line, Calls, Gateway; Single is a controller of one source)
--   Watchdog       components/wdt_tlm/watchdog.cpp (Outputs, Locking, Timeout, Bounds; Bench is the
--                  test bench, components/wdt_tlm/test.cpp)
--   Pwm            components/pwm_tlm/pwm.cpp (Registers, Rounds, Duty; Bench is the test cases of
--                  components/pwm_tlm/tb.cpp)
--   Clint          components/clint_tlm (Registers, Timer, Software)
--   Timer          components/timer_tlm/timer.cpp (Period, Bus)
--   Spi            components/spi_tlm/spi.cpp and spi.h (Transmit is the thread; Line, Registers,
--                  Interrupts, Rounds, Frames, Drain)
--   Fifo           the interface of SystemC's FIFO that the SPI controller uses, with its laws
--   Elf            cpu_models/include/cdc/cpu/elf_loader.h (Load is the reference that reads all
--                  headers first, Install what lies in memory after, Defined which images are read
--                  inside the file only, Bus the router and a memory behind the loader's socket)
--   Cpu            cpu_models/include/cdc/cpu/cpu_base.h; Cpu.Vp and Cpu.Tlm are the wrappers of
--                  cpu_models/riscv_vp and cpu_models/riscv_tlm (Levels, Boot)
--   Device         what it means that a device is mapped behind a bus: the interface between the
--                  router and those who send transactions
--   Stub           `cpu_stub` of platforms/mini_tlm and platforms/mini_soc (Words)
--   Platform       platforms: MiniTlm, MiniSoc, CpuEval and CustomSoc are the top modules, Maps
--                  their memory maps together, Options and Start their `sc_main`, Firmware
--                  the whole way from there to a loaded image; System is riscv_custom_soc with its
--                  processor as a step relation, Interrupts what the core then has pending,
--                  TimerInterrupt the way of the timer interrupt from the processor's stores to the
--                  core; SocAccess what a program's accesses to riscv_custom_soc do
--   Fw             fw: the programs for riscv_custom_soc with their trap handlers, access by access on
--                  its bus: SocIrq is fw/soc_irq_riscv (State is its invariant, kept by Main, Handler
--                  and Invariant; Boot, Arm, Progress, Finish), ClintTimer is fw/clint_timer_riscv
--   Probe          tests/support/tlm_probe.h, and the tests of memory_tlm, bus_router, clint_tlm
--                  and plic_tlm (MemoryTest, RouterTest, ClintTest, PlicTest)
--
-- Integers are natural numbers with the wrap of their width written out where the code can wrap;
-- registers are read from four bytes, those of the SPI controller from two. Times are picoseconds,
-- the units of `sc_time::value()`, and delays do not wrap. `none` is an exception or, where a file
-- says so, undefined behaviour; the ELF loader has a result of three kinds for values, exceptions
-- and undefined behaviour, and the stub one of two. The PLIC is modelled for fewer than 32 sources,
-- since wider shifts are undefined. The endless loops of the threads are modelled by their rounds.
-- Every other loop is bounded in the source and is a recursion on its rounds; the loops that empty
-- the FIFOs of the SPI controller have one round more than there are values, and a wait in the
-- test of the CLINT has fuel for two rounds of its thread, which are all that come.
--
-- Not modelled: printing and tracing, since they change no state; loggers, the bus lock and the
-- time source that the wrappers hand to their cores; the cores, the UART, the I2C controller and
-- the timer of the platforms, whose code is not in the repository: they are parameters; the test
-- benches of the timer and of the SPI controller, whose course depends on how the kernel orders
-- the processes at one time; the firmware for the other platforms, whose devices are not in the
-- repository, its benchmark and its startup code. Of the core that runs the firmware no
-- instruction is modelled: the accesses of the C programs are, and the traps, as the RISC-V
-- privileged architecture allows them: an interrupt that is pending and enabled may be taken, or
-- not yet, and none is taken in a handler.
pub mod Base
pub mod Tlm
mod Fixtures
pub mod Range
pub mod Router
pub mod Memory
pub mod Plic
pub mod Watchdog
pub mod Pwm
pub mod Clint
pub mod Timer
pub mod Fifo
pub mod Spi
pub mod Elf
pub mod Device
pub mod Stub
pub mod Cpu
pub mod Platform
pub mod Fw
pub mod Probe
