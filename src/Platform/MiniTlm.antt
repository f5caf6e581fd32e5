-- ===== src/Platform/MiniTlm.antt =====
-- platforms/mini_tlm/src/mini_tlm_top.cpp.
use cdc_vp.Base.{
  ℕ, zero, suc, ◌≡◌, refl, ◌∙◌, false, Option, List, [], ◌∷◌, length, overwrite, le_bytes, arith,
}
use cdc_vp.Tlm.{write_command, ok_response}
use cdc_vp.Range.{AddressRange}
use cdc_vp.Memory
use cdc_vp.Memory.{MemoryTlm}
use cdc_vp.Router.{BusRouter, bus_router, b_transport}
use cdc_vp.Router.Build.{add_targets}
use cdc_vp.Router.Decode.{IsMap}
use cdc_vp.Device.{Transport, Part, Serves, router-Serves}
use cdc_vp.Stub.{Action, ok, ◌>>◌, access, write32, write_uart, check_ram}
use cdc_vp.Stub.Words.{
  Accepts, fed, write_uart-fed, write32-Serves, stored, check_ram-stored, >>-ok,
}

abbrev pub uart_base : ℕ
uart_base = 0x10000000

abbrev pub timer_base : ℕ
timer_base = 0x10001000

abbrev pub ram_base : ℕ
ram_base = 0x80000000

abbrev pub region_size : ℕ
region_size = 0x1000

-- The regions in the order of the calls of `add_target`.
abbrev pub regions : List AddressRange
regions =
    record { base = uart_base; size = region_size }
    ∷ record { base = timer_base; size = region_size }
    ∷ record { base = ram_base; size = region_size }
    ∷ []

-- The router of `impl`; `none` is an exception of its construction.
unfoldable pub mini_tlm_bus : Option BusRouter
mini_tlm_bus = add_targets (bus_router 3 1) regions

-- What stands when `impl` is constructed.
abbrev pub bus_map : BusRouter
bus_map = record { ranges = regions; num_sockets = 3; num_extra_ports = 0 }

pub regions-IsMap : IsMap regions
regions-IsMap = ground arith

-- The components that the transactions reach.
pub record MiniTlm (U T : Type 0) : Type 0 where
  pub uart : U
  pub timer : T
  pub ram : MemoryTlm

-- "Hello from mini VP\n"
abbrev pub hello : List ℕ
hello =
    b'H' ∷ b'e' ∷ b'l' ∷ b'l' ∷ b'o' ∷ b' ' ∷ b'f' ∷ b'r' ∷ b'o' ∷ b'm' ∷ b' ' ∷ b'm' ∷ b'i' ∷ b'n'
    ∷ b'i' ∷ b' ' ∷ b'V' ∷ b'P' ∷ 10 ∷ []

-- "Timer IRQ fired at 10ms\n"
abbrev pub fired : List ℕ
fired =
    b'T' ∷ b'i' ∷ b'm' ∷ b'e' ∷ b'r' ∷ b' ' ∷ b'I' ∷ b'R' ∷ b'Q' ∷ b' ' ∷ b'f' ∷ b'i' ∷ b'r' ∷ b'e'
    ∷ b'd' ∷ b' ' ∷ b'a' ∷ b't' ∷ b' ' ∷ b'1' ∷ b'0' ∷ b'm' ∷ b's' ∷ 10 ∷ []

abbrev pub pattern_word : ℕ
pattern_word = 0xCAFEBABE

module _ {U T : Type 0} (uart : Transport U) (timer : Transport T) where
  -- The socket of an index is bound to this component.
  unfoldable pub targets : ℕ → Transport (MiniTlm U T)
  targets zero w trans delay =
      let (u, t, d) = uart w.uart trans delay in (record w { uart = u }, t, d)
  targets (suc zero) w trans delay =
      let (x, t, d) = timer w.timer trans delay in (record w { timer = x }, t, d)
  targets (suc (suc k)) w trans delay =
      let (m, t, d) = Memory.b_transport w.ram trans delay in (record w { ram = m }, t, d)

  unfoldable pub bus : Transport (MiniTlm U T)
  bus = b_transport targets bus_map

  -- `run`, up to the wait for the interrupt of the timer.
  unfoldable pub run : Action (MiniTlm U T) (Unit {0})
  run = do
    write_uart bus uart_base hello
    check_ram bus ram_base pattern_word
    write32 bus timer_base 1

  -- `run` from the interrupt on.
  unfoldable pub run_after_irq : Action (MiniTlm U T) (Unit {0})
  run_after_irq = write_uart bus uart_base fired

  uart_part : Part (MiniTlm U T) U
  uart_part = record {
    get = λ w. w.uart;
    put = λ w u. record w { uart = u };
    get-put = λ w u. refl;
    put-get = λ w. refl;
    put-put = λ w u v. refl;
  }

  timer_part : Part (MiniTlm U T) T
  timer_part = record {
    get = λ w. w.timer;
    put = λ w x. record w { timer = x };
    get-put = λ w x. refl;
    put-get = λ w. refl;
    put-put = λ w x y. refl;
  }

  ram_part : Part (MiniTlm U T) MemoryTlm
  ram_part = record {
    get = λ w. w.ram;
    put = λ w m. record w { ram = m };
    get-put = λ w m. refl;
    put-get = λ w. refl;
    put-put = λ w m n. refl;
  }

  serves_uart : Serves bus uart uart_part uart_base region_size
  unfolding bus targets uart_part
  serves_uart =
      router-Serves targets uart uart_part bus_map 0 (λ w trans delay. refl) regions-IsMap
        (omega arith)

  serves_timer : Serves bus timer timer_part timer_base region_size
  unfolding bus targets timer_part
  serves_timer =
      router-Serves targets timer timer_part bus_map 1 (λ w trans delay. refl) regions-IsMap
        (omega arith)

  serves_ram : Serves bus Memory.b_transport ram_part ram_base region_size
  unfolding bus targets ram_part
  serves_ram =
      router-Serves targets Memory.b_transport ram_part bus_map 2 (λ w trans delay. refl)
        regions-IsMap (omega arith)

  -- If the UART accepts bytes and the timer the word 1 in every state, and the RAM is as it was
  -- constructed or written since, then the stub reaches its wait with no exception: the UART has got
  -- exactly the bytes of the greeting, in order, the RAM holds the pattern at its start and is
  -- otherwise unchanged, and the timer has got the word. From the interrupt on, whatever the state
  -- then is, it only sends the second text to the UART, and ends with no exception.
  pub run_reaches_wait :
      (w : MiniTlm U T)
      → Accepts uart 0
      → ((x : T) → (timer x (access write_command 0 (le_bytes 4 1)) 0).1.response ≡ ok_response)
      → w.ram.read_only ≡ false
      → length w.ram.storage ≡ region_size
      → (run w ≡ (
        ok tt,
        record {
          uart = fed uart 0 hello w.uart;
          timer = (timer w.timer (access write_command 0 (le_bytes 4 1)) 0).0;
          ram = record w.ram { storage = overwrite w.ram.storage 0 (le_bytes 4 pattern_word) };
        },
      ))
        × ((u : MiniTlm U T)
            → run_after_irq u ≡ (ok tt, record u { uart = fed uart 0 fired u.uart }))
  unfolding run run_after_irq uart_part timer_part ram_part stored
  run_reaches_wait w accepts answers ram fits =
      let w1 : MiniTlm U T = record w { uart = fed uart 0 hello w.uart } in
      let w2 : MiniTlm U T = record w1 {
        ram = record w.ram { storage = overwrite w.ram.storage 0 (le_bytes 4 pattern_word) };
      } in
      (
        >>-ok (write_uart bus uart_base hello)
              (check_ram bus ram_base pattern_word >> write32 bus timer_base 1) w w1
              (write_uart-fed serves_uart hello w uart_base (omega arith) (omega arith) accepts)
            ∙ >>-ok (check_ram bus ram_base pattern_word) (write32 bus timer_base 1) w1 w2
                (check_ram-stored serves_ram w1 ram_base pattern_word ram fits (omega arith)
                  (omega arith) (omega arith)).2
            ∙ write32-Serves serves_timer w2 timer_base 1 (omega arith) (omega arith)
                (answers w.timer),
        λ u. write_uart-fed serves_uart fired u uart_base (omega arith) (omega arith) accepts,
      )
