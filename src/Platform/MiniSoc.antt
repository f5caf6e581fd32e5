-- ===== src/Platform/MiniSoc.antt =====
-- platforms/mini_soc/src/mini_soc_top.cpp.
use cdc_vp.Base.{
  ℕ, zero, suc, ◌+◌, ◌≡◌, refl, ◌∙◌, false, Option, List, [], ◌∷◌, length, overwrite, le_bytes,
  arith,
}
use cdc_vp.Tlm.{write_command, ok_response}
use cdc_vp.Range.{AddressRange}
use cdc_vp.Memory
use cdc_vp.Memory.{MemoryTlm}
use cdc_vp.Router.{BusRouter, bus_router, b_transport}
use cdc_vp.Router.Build.{add_targets}
use cdc_vp.Router.Decode.{IsMap}
use cdc_vp.Device.{Transport, Part, Serves, router-Serves}
use cdc_vp.Stub.{Action, ok, ◌>>◌, access, write32, write_uart, check_ram}
use cdc_vp.Stub.Words.{
  Accepts, fed, write_uart-fed, write32-Serves, stored, check_ram-stored, >>-ok,
}

abbrev pub uart_base : ℕ
uart_base = 0x10000000

abbrev pub i2c_base : ℕ
i2c_base = 0x10010000

abbrev pub ram_base : ℕ
ram_base = 0x80000000

abbrev pub region_size : ℕ
region_size = 0x1000

abbrev pub ram_size : ℕ
ram_size = 0x10000

-- The regions in the order of the calls of `add_target`.
abbrev pub regions : List AddressRange
regions =
    record { base = uart_base; size = region_size }
    ∷ record { base = i2c_base; size = region_size }
    ∷ record { base = ram_base; size = ram_size }
    ∷ []

-- The router of `impl`; `none` is an exception of its construction.
unfoldable pub mini_soc_bus : Option BusRouter
mini_soc_bus = add_targets (bus_router 3 1) regions

-- What stands when `impl` is constructed.
abbrev pub bus_map : BusRouter
bus_map = record { ranges = regions; num_sockets = 3; num_extra_ports = 0 }

pub regions-IsMap : IsMap regions
regions-IsMap = ground arith

-- The components that the transactions reach.
pub record MiniSoc (U I : Type 0) : Type 0 where
  pub uart : U
  pub i2c : I
  pub ram : MemoryTlm

-- "Hello from mini SoC \n"
abbrev pub hello : List ℕ
hello =
    b'H' ∷ b'e' ∷ b'l' ∷ b'l' ∷ b'o' ∷ b' ' ∷ b'f' ∷ b'r' ∷ b'o' ∷ b'm' ∷ b' ' ∷ b'm' ∷ b'i' ∷ b'n'
    ∷ b'i' ∷ b' ' ∷ b'S' ∷ b'o' ∷ b'C' ∷ b' ' ∷ 10 ∷ []

-- "I2C IRQ fired\n"
abbrev pub fired : List ℕ
fired =
    b'I' ∷ b'2' ∷ b'C' ∷ b' ' ∷ b'I' ∷ b'R' ∷ b'Q' ∷ b' ' ∷ b'f' ∷ b'i' ∷ b'r' ∷ b'e' ∷ b'd' ∷ 10
    ∷ []

abbrev pub pattern_word : ℕ
pattern_word = 0xCAFEBABE

module _ {U I : Type 0} (uart : Transport U) (i2c : Transport I) where
  -- The socket of an index is bound to this component.
  unfoldable pub targets : ℕ → Transport (MiniSoc U I)
  targets zero w trans delay =
      let (u, t, d) = uart w.uart trans delay in (record w { uart = u }, t, d)
  targets (suc zero) w trans delay =
      let (x, t, d) = i2c w.i2c trans delay in (record w { i2c = x }, t, d)
  targets (suc (suc k)) w trans delay =
      let (m, t, d) = Memory.b_transport w.ram trans delay in (record w { ram = m }, t, d)

  unfoldable pub bus : Transport (MiniSoc U I)
  bus = b_transport targets bus_map

  -- The start of a transfer by the I2C controller: interrupt enable, source enable, start.
  unfoldable pub start_i2c : Action (MiniSoc U I) (Unit {0})
  start_i2c = do
    write32 bus (i2c_base + 0x4C) 1
    write32 bus i2c_base 1
    write32 bus (i2c_base + 0x04) 1

  -- `run`, up to the wait for the interrupt of the I2C controller.
  unfoldable pub run : Action (MiniSoc U I) (Unit {0})
  run = do write_uart bus uart_base hello; check_ram bus ram_base pattern_word; start_i2c

  -- `run` from the interrupt on.
  unfoldable pub run_after_irq : Action (MiniSoc U I) (Unit {0})
  run_after_irq = write_uart bus uart_base fired

  uart_part : Part (MiniSoc U I) U
  uart_part = record {
    get = λ w. w.uart;
    put = λ w u. record w { uart = u };
    get-put = λ w u. refl;
    put-get = λ w. refl;
    put-put = λ w u v. refl;
  }

  i2c_part : Part (MiniSoc U I) I
  i2c_part = record {
    get = λ w. w.i2c;
    put = λ w x. record w { i2c = x };
    get-put = λ w x. refl;
    put-get = λ w. refl;
    put-put = λ w x y. refl;
  }

  ram_part : Part (MiniSoc U I) MemoryTlm
  ram_part = record {
    get = λ w. w.ram;
    put = λ w m. record w { ram = m };
    get-put = λ w m. refl;
    put-get = λ w. refl;
    put-put = λ w m n. refl;
  }

  serves_uart : Serves bus uart uart_part uart_base region_size
  unfolding bus targets uart_part
  serves_uart =
      router-Serves targets uart uart_part bus_map 0 (λ w trans delay. refl) regions-IsMap
        (omega arith)

  serves_i2c : Serves bus i2c i2c_part i2c_base region_size
  unfolding bus targets i2c_part
  serves_i2c =
      router-Serves targets i2c i2c_part bus_map 1 (λ w trans delay. refl) regions-IsMap
        (omega arith)

  serves_ram : Serves bus Memory.b_transport ram_part ram_base ram_size
  unfolding bus targets ram_part
  serves_ram =
      router-Serves targets Memory.b_transport ram_part bus_map 2 (λ w trans delay. refl)
        regions-IsMap (omega arith)

  -- The I2C controller after the write of 1 to a register.
  unfoldable pub i2c_set : ℕ → I → I
  i2c_set local x = (i2c x (access write_command local (le_bytes 4 1)) 0).0

  -- It answers the write of 1 to a register by OK, in every state.
  abbrev pub AnswersI2c : ℕ → Type 0
  AnswersI2c local =
      (x : I) → (i2c x (access write_command local (le_bytes 4 1)) 0).1.response ≡ ok_response

  start_i2c_lem :
      (w : MiniSoc U I)
      → AnswersI2c 0x4C
      → AnswersI2c 0x00
      → AnswersI2c 0x04
      → start_i2c w ≡ (ok tt, record w { i2c = i2c_set 0x04 (i2c_set 0x00 (i2c_set 0x4C w.i2c)) })
  unfolding start_i2c i2c_set i2c_part
  start_i2c_lem w a b c =
      let x : I = i2c_set 0x4C w.i2c in
      let y : I = i2c_set 0x00 x in
      >>-ok (write32 bus (i2c_base + 0x4C) 1)
        (write32 bus i2c_base 1 >> write32 bus (i2c_base + 0x04) 1) w (record w { i2c = x })
        (write32-Serves serves_i2c w (i2c_base + 0x4C) 1 (omega arith) (omega arith) (a w.i2c))
      ∙ >>-ok (write32 bus i2c_base 1) (write32 bus (i2c_base + 0x04) 1) (record w { i2c = x })
          (record w { i2c = y })
          (write32-Serves serves_i2c (record w { i2c = x }) i2c_base 1 (omega arith) (omega arith)
            (b x))
      ∙ write32-Serves serves_i2c (record w { i2c = y }) (i2c_base + 0x04) 1 (omega arith)
          (omega arith) (c y)

  -- If the UART accepts bytes, the I2C controller the word 1 at its three registers, and the RAM is
  -- as it was constructed or written since, then the stub reaches its wait with no exception: the
  -- UART has got exactly the bytes of the greeting, in order, the RAM holds the pattern at its start
  -- and is otherwise unchanged, and the I2C controller has got its interrupt enabled before it was
  -- enabled and started. From the interrupt on, whatever the state then is, it only sends the second
  -- text to the UART, and ends with no exception.
  pub soc_reaches_wait :
      (w : MiniSoc U I)
      → Accepts uart 0
      → AnswersI2c 0x4C
      → AnswersI2c 0x00
      → AnswersI2c 0x04
      → w.ram.read_only ≡ false
      → length w.ram.storage ≡ ram_size
      → (run w ≡ (
        ok tt,
        record {
          uart = fed uart 0 hello w.uart;
          i2c = i2c_set 0x04 (i2c_set 0x00 (i2c_set 0x4C w.i2c));
          ram = record w.ram { storage = overwrite w.ram.storage 0 (le_bytes 4 pattern_word) };
        },
      ))
        × ((u : MiniSoc U I)
            → run_after_irq u ≡ (ok tt, record u { uart = fed uart 0 fired u.uart }))
  unfolding run run_after_irq uart_part ram_part stored
  soc_reaches_wait w accepts a b c ram fits =
      let w1 : MiniSoc U I = record w { uart = fed uart 0 hello w.uart } in
      let w2 : MiniSoc U I = record w1 {
        ram = record w.ram { storage = overwrite w.ram.storage 0 (le_bytes 4 pattern_word) };
      } in
      (
        >>-ok (write_uart bus uart_base hello) (check_ram bus ram_base pattern_word >> start_i2c) w
              w1 (write_uart-fed serves_uart hello w uart_base (omega arith) (omega arith) accepts)
            ∙ >>-ok (check_ram bus ram_base pattern_word) start_i2c w1 w2
                (check_ram-stored serves_ram w1 ram_base pattern_word ram fits (omega arith)
                  (omega arith) (omega arith)).2
            ∙ start_i2c_lem w2 a b c,
        λ u. write_uart-fed serves_uart fired u uart_base (omega arith) (omega arith) accepts,
      )
