-- ===== src/Memory/Tests.antt =====
-- Memories at concrete transactions.
use cdc_vp.Base.{
  ◌<◌, ◌≤◌, get_or, ◌≡◌, ◌↔◌, refl, true, false, none, some, List, [], ◌∷◌, inr, le_bytes, slice,
  ◌≢◌, arith,
}
use cdc_vp.Tlm.{ok_response, address_error, command_error, read_command}
use cdc_vp.Fixtures.{write_word, read_word}
use cdc_vp.Memory.{
  MemoryTlm, memory_tlm, size, b_transport, transport_dbg, load, get_direct_mem_ptr,
}
use cdc_vp.Memory.History.{effect, last_written, apply_all-last_written}
use cdc_vp.Memory.Access.{read-write, b_transport-frame}
use cdc_vp.Memory.Safety.{
  Access, timed, debug, backdoor, apply_all, rom-apply_all, SameShape, apply_all-SameShape,
}
use cdc_vp.Memory.Debug.{
  transport_dbg-b_transport, get_direct_mem_ptr_window, transport_dbg_count, load_lem,
}
use cdc_vp.Memory.Access.{expected_response, response-b_transport}

abbrev ram : MemoryTlm
ram = record {
  storage = 1 ∷ 2 ∷ 3 ∷ 4 ∷ 5 ∷ 6 ∷ 7 ∷ 8 ∷ [];
  read_only = false;
  access_latency = 10;
}

abbrev rom : MemoryTlm
rom = record { storage = 1 ∷ 2 ∷ 3 ∷ 4 ∷ []; read_only = true; access_latency = 10 }

fresh : (size (memory_tlm 3 false 10) ≡ 3) × ((memory_tlm 3 false 10).storage ≡ 0 ∷ 0 ∷ 0 ∷ [])
unfolding memory_tlm size
fresh = (refl, refl)

outcomes :
    ((b_transport ram (read_word 4) 0).1.buffer ≡ some (5 ∷ 6 ∷ 7 ∷ 8 ∷ []))
    × ((b_transport ram (read_word 5) 0).1.response ≡ address_error)
    × ((b_transport rom (write_word 0 9) 0).1.response ≡ command_error)
unfolding b_transport
outcomes = (refl, refl, refl)

write_answered : (b_transport ram (write_word 2 0xCAFEBABE) 0).1.response ≡ ok_response
unfolding b_transport
write_answered = refl

read-write_example :
    let answer = (b_transport (b_transport ram (write_word 2 0xCAFEBABE) 0).0 (read_word 2) 0).1 in
    (answer.response ≡ ok_response) × (answer.buffer ≡ some (le_bytes 4 0xCAFEBABE))
read-write_example =
    read-write ram (write_word 2 0xCAFEBABE) (read_word 2) 0 0 (le_bytes 4 0xCAFEBABE)
      (0 ∷ 0 ∷ 0 ∷ 0 ∷ []) refl refl (refl, omega arith) refl refl refl refl write_answered

b_transport-frame_example :
    (b_transport (b_transport ram (write_word 0 9) 0).0 (read_word 4) 0).1
    ≡ (b_transport ram (read_word 4) 0).1
b_transport-frame_example =
    b_transport-frame ram (write_word 0 9) (read_word 4) 0 0 (inr (omega arith))

response-b_transport_example :
    (b_transport rom (write_word 0 9) 0).1.response ≡ expected_response rom (write_word 0 9)
response-b_transport_example = response-b_transport rom (write_word 0 9) 0

abbrev attacks : List Access
attacks = timed (write_word 0 9) 0 ∷ debug (write_word 0 9) ∷ []

rom-apply_all_example : apply_all rom attacks ≡ rom
rom-apply_all_example = rom-apply_all rom attacks refl (tt, (tt, tt))

apply_all-SameShape_example : SameShape ram (apply_all ram attacks)
apply_all-SameShape_example = apply_all-SameShape ram attacks

transport_dbg-b_transport_example : transport_dbg ram (write_word 2 0xCAFEBABE) ≡ (
  (b_transport ram (write_word 2 0xCAFEBABE) 0).0,
  record (b_transport ram (write_word 2 0xCAFEBABE) 0).1 { dmi_allowed = false },
  4,
)
transport_dbg-b_transport_example =
    transport_dbg-b_transport ram (write_word 2 0xCAFEBABE) 0 (omega arith) write_answered

get_direct_mem_ptr_window_example :
    let g = get_direct_mem_ptr ram in
    (((g.start_address ≤ 7) × (7 ≤ g.end_address)) ↔ (7 < 8))
    × ((g.may_write ≡ true) ↔ (ram.read_only ≡ false))
get_direct_mem_ptr_window_example = get_direct_mem_ptr_window ram 7 (omega arith)

transport_dbg_count_example :
    let n = (transport_dbg ram (read_word 6)).2 in
    (n ≤ 4) × (n ≤ 2) × ((read_word 6).command ≡ read_command → (read_word 6).buffer ≢ none → n ≡ 2)
transport_dbg_count_example = transport_dbg_count ram (read_word 6)

load_lem_example :
    let (m', reported) = load ram (9 ∷ 9 ∷ []) 2 3 in
    ((reported ≡ true) ↔ (8 < 5))
    × (reported ≡ true → m' ≡ ram)
    × (reported ≡ false → slice m'.storage 3 2 ≡ 9 ∷ 9 ∷ [])
load_lem_example = load_lem ram (9 ∷ 9 ∷ []) 3

-- A word at 2, a debug write at 6 of which two bytes fit, and a load of a byte at 0.
abbrev history : List Access
history =
    timed (write_word 2 0xCAFEBABE) 0 ∷ debug (write_word 6 0x04030201) ∷ backdoor (9 ∷ []) 1 0 ∷ []

apply_all-last_written_example :
    get_or (apply_all ram history).storage 7 0 ≡ last_written 8 false history 7 8
apply_all-last_written_example = apply_all-last_written ram history 7 (omega arith)

byte_seven : last_written 8 false history 7 8 ≡ 2
unfolding last_written effect
byte_seven = refl
