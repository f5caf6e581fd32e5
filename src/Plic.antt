-- ===== src/Plic.antt =====
-- components/plic_tlm: the interrupt controller. The input lines are part of the state, as the
-- signals that `irq_in` reads; the calls of `cpu_.set_irq` are results.
pub mod Select
pub mod Line
pub mod Calls
pub mod Gateway
pub mod Single
mod Tests
use cdc_vp.Base.{
  ℕ, zero, suc, ◌+◌, ◌-◌, ◌*◌, ◌/◌, ◌%◌, ◌^◌, Bool, true, false, not, ◌&&◌, ◌||◌, Option, none,
  some, List, [], ◌∷◌, ltb, leb, ◌==◌, if◌then◌else◌, bit, get_or, set, replicate, overwrite, take,
  le_bytes, of_le,
}
use cdc_vp.Tlm.{
  Payload, Command, is_read, SimTime, nanoseconds, ok_response, address_error, respond,
}

-- `plic_tlm`. `lines` holds `irq_in[0..n-1]`, and `irq` the level last given to the CPU for the
-- external interrupt, `kCauseExternal`.
pub record PlicTlm : Type 0 where
  pub n : ℕ
  pub priority : List ℕ
  pub claimed : List Bool
  pub enable : ℕ
  pub threshold : ℕ
  pub lines : List Bool
  pub irq : Bool

-- The constructor, with all lines low. `dont_initialize` keeps `on_sources` from running at once.
unfoldable pub plic_tlm : ℕ → PlicTlm
plic_tlm num_sources = record {
  n = num_sources;
  priority = replicate (suc num_sources) 0;
  claimed = replicate (suc num_sources) false;
  enable = 0;
  threshold = 0;
  lines = replicate num_sources false;
  irq = false;
}

abbrev pub line_of : PlicTlm → ℕ → Bool
line_of p id = get_or p.lines (id - 1) false

abbrev pub priority_of : PlicTlm → ℕ → ℕ
priority_of p id = get_or p.priority id 0

abbrev pub claimed_of : PlicTlm → ℕ → Bool
claimed_of p id = get_or p.claimed id false

-- `enable_ >> id` is a shift of 32 bits: the model is for ids below 32.
unfoldable pub eligible : PlicTlm → ℕ → Bool
eligible p id =
    if ltb id 1 || ltb p.n id
    then false
    else line_of p id
      && bit p.enable id
      && not (claimed_of p id)
      && ltb p.threshold (priority_of p id)

-- The loop of `update_meip` from `id` on, `left` rounds before its end.
any_eligible_from : PlicTlm → ℕ → ℕ → Bool
any_eligible_from p zero id = false
any_eligible_from p (suc left) id =
    let rest = any_eligible_from p left (suc id) in if eligible p id then true else rest

unfoldable pub any_eligible : PlicTlm → Bool
unfolding any_eligible_from
any_eligible p = any_eligible_from p p.n 1

-- The call of `cpu_.set_irq(kCauseExternal, any)` sets `irq`.
unfoldable pub update_meip : PlicTlm → PlicTlm
update_meip p = record p { irq = any_eligible p }

-- The lines change, and `on_sources`, which is sensitive to them, runs.
unfoldable pub on_sources : PlicTlm → List Bool → PlicTlm
unfolding update_meip
on_sources p lines = update_meip (record p { lines = lines })

-- The loop of `do_claim`: `best` and `best_prio` are its variables.
best_from : PlicTlm → ℕ → ℕ → ℕ → ℕ → ℕ
best_from p zero id best best_prio = best
best_from p (suc left) id best best_prio =
    let better = eligible p id && ltb best_prio (priority_of p id) in
    best_from p left (suc id) (if better then id else best)
      (if better then priority_of p id else best_prio)

unfoldable pub best_source : PlicTlm → ℕ
unfolding best_from
best_source p = best_from p p.n 1 0 0

unfoldable pub do_claim : PlicTlm → ℕ × PlicTlm
unfolding update_meip
do_claim p =
    let best = best_source p in
    (best, update_meip (if best == 0 then p else record p { claimed = set p.claimed best true }))

-- The loop over the pending word. Bits are distinct, so the `|=` of a new one adds it.
pending_from : PlicTlm → ℕ → ℕ → ℕ → ℕ
pending_from p zero id value = value
pending_from p (suc left) id value =
    pending_from p left (suc id) (if line_of p id then value + 2 ^ id else value)

pub pending_word : PlicTlm → ℕ
unfolding pending_from
pending_word p = pending_from p p.n 1 0

-- The registers, by address. `none` is an address of no register.
pub data Register : Type 0 where
  priority_reg : ℕ → Register
  pending_reg enable_reg threshold_reg claim_reg : Register

unfoldable pub register_at : PlicTlm → ℕ → Option Register
register_at p addr =
    if ltb addr (4 * (p.n + 1))
    then some (priority_reg (addr / 4))
    else if addr == 0x1000
    then some pending_reg
    else if addr == 0x2000
    then some enable_reg
    else if addr == 0x200000
    then some threshold_reg
    else if addr == 0x200004
    then some claim_reg
    else none

-- The value read, and the state after.
unfoldable pub read_register : PlicTlm → Register → ℕ × PlicTlm
read_register p (priority_reg id) = (if leb id p.n then priority_of p id else 0, p)
read_register p pending_reg = (pending_word p, p)
read_register p enable_reg = (p.enable, p)
read_register p threshold_reg = (p.threshold, p)
read_register p claim_reg = do_claim p

unfoldable pub write_register : PlicTlm → Register → ℕ → PlicTlm
write_register p (priority_reg id) value =
    if leb 1 id && leb id p.n
    then update_meip (record p { priority = set p.priority id value })
    else p
write_register p pending_reg value = p
write_register p enable_reg value = update_meip (record p { enable = value })
write_register p threshold_reg value = update_meip (record p { threshold = value })
write_register p claim_reg value =
    update_meip
      (if leb 1 value && leb value p.n then record p { claimed = set p.claimed value false } else p)

-- The access behind the guards, `bytes` being the payload's data. What is no read writes.
unfoldable pub access : Bool → PlicTlm → Payload → List ℕ → Register → PlicTlm × Payload
access true p trans bytes reg =
    let (value, p') = read_register p reg in
    (
      p',
      record trans { buffer = some (overwrite bytes 0 (le_bytes 4 value)); response = ok_response },
    )
access false p trans bytes reg =
    (write_register p reg (of_le (take 4 bytes)), respond trans ok_response)

unfoldable pub b_transport : PlicTlm → Payload → SimTime → PlicTlm × Payload × SimTime
b_transport p trans delay =
    let (p', t') : PlicTlm × Payload = (elim trans.buffer [
      | none ↦ (p, respond trans address_error)
      | some bytes ↦
          if trans.data_length == 4
          then elim (register_at p trans.address) [
            | none ↦ (p, respond trans address_error)
            | some reg ↦ access (is_read trans.command) p trans bytes reg
          ]
          else (p, respond trans address_error)
    ]) in
    (p', t', delay + nanoseconds 10)

-- `kCauseExternal`.
abbrev pub cause_external : ℕ
cause_external = 11

-- The call of `set_irq` in `update_meip`, with the state after.
abbrev pub meip_call : PlicTlm → List (ℕ × Bool)
meip_call p = (cause_external, p.irq) ∷ []

-- The calls in an access to a register, with the states before and after.
abbrev pub register_calls : Bool → PlicTlm → PlicTlm → Register → List (ℕ × Bool)
register_calls true p p' claim_reg = meip_call p'
register_calls false p p' (priority_reg id) = if leb 1 id && leb id p.n then meip_call p' else []
register_calls false p p' enable_reg = meip_call p'
register_calls false p p' threshold_reg = meip_call p'
register_calls false p p' claim_reg = meip_call p'
register_calls _ p p' _ = []

-- Those of a transaction.
unfoldable pub irq_calls : PlicTlm → Payload → PlicTlm → List (ℕ × Bool)
irq_calls p trans p' = elim trans.buffer [
  | none ↦ []
  | some bytes ↦
      if trans.data_length == 4
      then elim (register_at p trans.address) [
        | none ↦ []
        | some reg ↦ register_calls (is_read trans.command) p p' reg
      ]
      else []
]
