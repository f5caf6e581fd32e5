-- ===== src/Timer/Bus.antt =====
-- Transactions of the timer, what its thread makes of them, and its reset.
use cdc_vp.Base.{
  ℕ, ◌-◌, ◌≤◌, ◌<◌, ◌≡◌, ◌≢◌, ◌⊎◌, Bool, true, false, Option, none, some, List, [], ◌∷◌, take,
  of_le, bit, Option-cases, inl, inr, arith,
}
use cdc_vp.Tlm.{Payload, write_command, ok_response, respond}
use cdc_vp.Timer.{
  Timer, Wake, in_reset, disabled, external, ticking, reset_asserted, Process, enabled, deliver,
  timer, write_register, notify, dispatch, bus_access,
}
use cdc_vp.Timer.Period.{IsTicking}

-- A write of four bytes to a register, as the handler accepts it.
pub record WritesWord (trans : Payload) (adr : ℕ) (bytes : List ℕ) : Type 0 where
  pub is_write : trans.command ≡ write_command
  pub at : trans.address ≡ adr
  pub word : trans.data_length ≡ 4
  pub whole : trans.data_length ≤ trans.streaming_width
  pub plain : trans.byte_enables ≡ false
  pub data_ptr : trans.buffer ≡ some bytes

-- A transaction while the thread waits, and the run of the thread behind it, if it has become runnable.
abbrev pub access_and_run : Timer → Payload → Bool → Bool → Option (Timer × Payload)
access_and_run t trans prstn extin =
    elim (bus_access (record { timer = t; runnable = false }) trans) [
      | none ↦ none
      | some (p, trans') ↦ some ((dispatch p prstn extin).timer, trans')
    ]

-- An event that comes while the thread waits, and the run of the thread behind it.
pub dispatch-notify :
    (t : Timer) (e : Wake) (prstn extin : Bool)
    → dispatch (notify (record { timer = t; runnable = false }) e) prstn extin
      ≡ record { timer = deliver t e prstn extin; runnable = false }
unfolding dispatch notify deliver
dispatch-notify t e prstn extin = ground arith

-- A write of 1 to the interrupt status register of a timer that ticks clears the status and the
-- interrupt line when the thread has run, and changes nothing else; in particular no count is lost.
pub clear_while_ticking :
    (t : Timer) (trans : Payload) (bytes : List ℕ) (extin : Bool)
    → IsTicking t
    → WritesWord trans 0x0C bytes
    → bit (of_le (take 4 bytes)) 0 ≡ true
    → access_and_run t trans true extin
      ≡ some (record t { intr_status = false; timerint = false }, respond trans ok_response)
unfolding bus_access write_register notify dispatch
clear_while_ticking t trans bytes extin r w one = ground arith

-- The same write to a timer that is disabled does not wake the thread: the status is cleared, and
-- the interrupt line stays as it was.
pub clear_while_disabled :
    (t : Timer) (trans : Payload) (bytes : List ℕ) (prstn extin : Bool)
    → t.waits ≡ disabled
    → WritesWord trans 0x0C bytes
    → bit (of_le (take 4 bytes)) 0 ≡ true
    → access_and_run t trans prstn extin
      ≡ some (record t { intr_status = false; intr_clear_inc = true }, respond trans ok_response)
unfolding bus_access write_register notify dispatch
clear_while_disabled t trans bytes prstn extin d w one = ground arith

-- A write of a value other than 0 to the reload register of a timer that ticks wakes the thread,
-- which counts down by one although no tick has passed.
pub reload_loses_count :
    (t : Timer) (trans : Payload) (bytes : List ℕ) (extin : Bool)
    → IsTicking t
    → WritesWord trans 0x08 bytes
    → let value = of_le (take 4 bytes) in
      0 < value
      → access_and_run t trans true extin
        ≡ some (record t { reload_reg = value; value_reg = value - 1 }, respond trans ok_response)
unfolding bus_access write_register notify dispatch
reload_loses_count t trans bytes extin r w pos = ground arith

-- The falling edge of the reset input takes every wait but that of the reset itself to the reset
-- state: all registers 0, the interrupt status and the line cleared.
pub deliver-reset :
    (t : Timer) (extin : Bool)
    → t.waits ≢ in_reset
    → let u = deliver t reset_asserted false extin in
      (u.ctrl_reg ≡ 0)
      × (u.value_reg ≡ 0)
      × (u.reload_reg ≡ 0)
      × (u.intr_status ≡ false)
      × (u.timerint ≡ false)
      × (u.waits ≡ in_reset)
unfolding deliver
deliver-reset t extin h = ground arith

-- What happens to the module: a transaction, an event that ends a wait, or the kernel runs the thread, with
-- the levels of `prstn` and `extin` then.
pub data Event : Type 0 where
  bus : Payload → Event
  wake : Wake → Event
  run_thread : Bool → Bool → Event

-- A transaction that is undefined ends the run.
unfoldable pub step : Process → Event → Option Process
step p (bus trans) = elim (bus_access p trans) [ none ↦ none | some (p', trans') ↦ some p' ]
step p (wake e) = some (notify p e)
step p (run_thread prstn extin) = some (dispatch p prstn extin)

unfoldable pub run : Process → List Event → Option Process
run p [] = some p
run p (e ∷ es) = elim (step p e) [ none ↦ none | some p' ↦ run p' es ]

-- From the constructor, with the thread at its first wait.
abbrev pub start : Bool → Process
start prstn = record { timer = timer prstn; runnable = false }

-- The line is raised only with the status, or while a clear is under way; and a thread that waits and is
-- not runnable waits as a disabled or as a running timer does exactly according to the control register.
pub record IsConsistent (p : Process) : Type 0 where
  pub line :
      p.timer.timerint ≡ true → (p.timer.intr_status ≡ true) ⊎ (p.timer.intr_clear_inc ≡ true)
  pub disabled_waits : p.runnable ≡ false → p.timer.waits ≡ disabled → enabled p.timer ≡ false
  pub external_waits : p.runnable ≡ false → p.timer.waits ≡ external → enabled p.timer ≡ true
  pub ticking_waits : p.runnable ≡ false → p.timer.waits ≡ ticking → enabled p.timer ≡ true

start-IsConsistent : (prstn : Bool) → IsConsistent (start prstn)
unfolding timer
start-IsConsistent prstn = ground arith

notify-IsConsistent : (p : Process) (e : Wake) → IsConsistent p → IsConsistent (notify p e)
unfolding notify
notify-IsConsistent p e c = ground arith

dispatch-IsConsistent :
    (p : Process) (prstn extin : Bool) → IsConsistent p → IsConsistent (dispatch p prstn extin)
unfolding dispatch
dispatch-IsConsistent p prstn extin c = ground arith

-- What a register write and its notification leave.
abbrev written : Process → Timer → Option Wake → Process
written p t none = record p { timer = t }
written p t (some e) = notify (record p { timer = t }) e

write_register-IsConsistent :
    (p : Process) (t : Timer) (adr value : ℕ) (e : Option Wake)
    → IsConsistent p
    → write_register p.timer adr value ≡ some (t, e)
    → IsConsistent (written p t e)
unfolding write_register notify
write_register-IsConsistent p t adr value e c h = ground arith

bus_access-IsConsistent :
    (p p' : Process) (trans trans' : Payload)
    → IsConsistent p
    → bus_access p trans ≡ some (p', trans')
    → IsConsistent p'
unfolding bus_access
bus_access-IsConsistent p p' trans trans' c h = elim (Option-cases trans.buffer) [
  | inl null ↦ ground arith
  | inr (bytes, data_ptr) ↦
      elim (Option-cases (write_register p.timer trans.address (of_le (take 4 bytes)))) [
        | inl unmapped ↦ ground arith
        | inr ((t, notified), wrote) ↦ ground (
          arith,
          write_register-IsConsistent p t trans.address (of_le (take 4 bytes)) notified c wrote,
        )
      ]
]

step-IsConsistent :
    (p p' : Process) (e : Event) → IsConsistent p → step p e ≡ some p' → IsConsistent p'
unfolding step
step-IsConsistent p p' (bus trans) c h = elim (Option-cases (bus_access p trans)) [
  | inl fault ↦ ground arith
  | inr ((q, trans'), done) ↦ ground (arith, bus_access-IsConsistent p q trans trans' c done)
]
step-IsConsistent p p' (wake e) c h = ground (arith, notify-IsConsistent p e c)
step-IsConsistent p p' (run_thread prstn extin) c h =
    ground (arith, dispatch-IsConsistent p prstn extin c)

run-IsConsistent :
    (p p' : Process) (es : List Event) → IsConsistent p → run p es ≡ some p' → IsConsistent p'
unfolding run
run-IsConsistent p p' [] c h = ground arith
run-IsConsistent p p' (e ∷ es) c h = elim (Option-cases (step p e)) [
  | inl fault ↦ ground arith
  | inr (q, done) ↦ run-IsConsistent q p' es (step-IsConsistent p q e c done) (rw (done, run) at h)
]

-- From the start of the simulation on, through any transactions, any events that end a wait, and any runs
-- of the thread with any levels of the two inputs, in any order, so that several transactions and events
-- may come before the thread runs: the interrupt line is raised only while the interrupt status is set or
-- a clear is under way; and whenever the thread is not runnable, it waits as disabled only if the enable
-- bit is clear, and as running only if it is set.
pub run-timer-IsConsistent :
    (prstn : Bool) (es : List Event) (p : Process) → run (start prstn) es ≡ some p → IsConsistent p
run-timer-IsConsistent prstn es p h =
    run-IsConsistent (start prstn) p es (start-IsConsistent prstn) h
