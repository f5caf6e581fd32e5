-- ===== src/Watchdog/Outputs.antt =====
-- The outputs follow the registers, through any sequence of events.
use cdc_vp.Base.{
  ℕ, ◌≤◌, ◌<◌, ◌≡◌, refl, false, ◌&&◌, ◌^◌, ◌%◌, if◌then◌else◌, List, [], ◌∷◌, Option-cases, inl,
  inr, some, take, of_le, arith, Bool-cases, ltb,
}
use cdc_vp.Tlm.{Payload, Command, SimTime, read_command, write_command, ignore_command}
use cdc_vp.Watchdog.{
  Watchdog, watchdog, interrupt_enabled, ris_asserted, update_outputs, drive_outputs, read_reg,
  write_reg, access, b_transport, tick,
}

-- What happens to the watchdog: a transaction, a tick of its clock, or the delta cycle that
-- delivers `m_output_changed`.
pub data Event : Type 0 where
  bus : Payload → SimTime → Event
  clock_tick delta : Event

unfoldable pub step : Watchdog → Event → Watchdog
step w (bus trans delay) = (b_transport w trans delay).0
step w clock_tick = tick w
step w delta = drive_outputs w

unfoldable pub run : Watchdog → List Event → Watchdog
run w [] = w
run w (e ∷ es) = run (step w e) es

-- The raw interrupt is one bit and the control register two; the masked interrupt, the levels and,
-- with no delivery due, the ports are what the registers say.
pub record IsCoherent (w : Watchdog) : Type 0 where
  pub ris_bit : w.ris ≤ 1
  pub control_bits : w.control < 4
  pub masked : w.mis ≡ (if ris_asserted w && interrupt_enabled w then 1 else 0)
  pub irq_follows : w.irq_level ≡ ris_asserted w && interrupt_enabled w
  pub reset_follows : w.reset_level ≡ w.reset_asserted
  pub irq_port : w.notified ≡ false → w.irq ≡ w.irq_level
  pub reset_port : w.notified ≡ false → w.reset_o ≡ w.reset_level

watchdog-IsCoherent : IsCoherent watchdog
unfolding watchdog
watchdog-IsCoherent = ground arith

update_outputs-IsCoherent :
    (w : Watchdog) → w.ris ≤ 1 → w.control < 4 → IsCoherent (update_outputs w)
unfolding update_outputs
update_outputs-IsCoherent w h k = ground arith

write_reg-IsCoherent :
    (w : Watchdog) (addr value : ℕ) → IsCoherent w → IsCoherent (write_reg w addr value)
unfolding write_reg update_outputs
write_reg-IsCoherent w addr value c = ground arith

tick-IsCoherent : (w : Watchdog) → IsCoherent w → IsCoherent (tick w)
unfolding tick
tick-IsCoherent w c = ground arith

drive_outputs-IsCoherent : (w : Watchdog) → IsCoherent w → IsCoherent (drive_outputs w)
unfolding drive_outputs
drive_outputs-IsCoherent w c = ground arith

access_cases {ℓ} :
    (P : Watchdog → Type ℓ) (c : Command) (w : Watchdog) (trans : Payload) (bytes : List ℕ)
    (addr : ℕ)
    → P w
    → P (update_outputs w)
    → (c ≡ write_command → P (write_reg w addr (of_le (take 4 bytes))))
    → P (access c w trans bytes addr).0
unfolding access read_reg
access_cases P read_command w trans bytes addr same reads writes = reads
access_cases P write_command w trans bytes addr same reads writes = writes refl
access_cases P ignore_command w trans bytes addr same reads writes = same

-- A transaction leaves the state, has the effect of a register read, or that of a register write.
pub b_transport_cases {ℓ} :
    (P : Watchdog → Type ℓ) (w : Watchdog) (trans : Payload) (delay : SimTime)
    → P w
    → P (update_outputs w)
    → ((bytes : List ℕ)
        → trans.buffer ≡ some bytes
        → trans.command ≡ write_command
        → P (write_reg w (trans.address % 2 ^ 12) (of_le (take 4 bytes))))
    → P (b_transport w trans delay).0
unfolding b_transport
b_transport_cases P w trans delay same reads writes = elim (Bool-cases trans.byte_enables) [
  | inl enables ↦ rw (enables, b_transport) same
  | inr plain ↦ elim (Bool-cases (ltb trans.data_length 4)) [
    | inl short ↦ rw (plain, b_transport, short) same
    | inr word ↦ elim (Option-cases trans.buffer) [
      | inl null ↦ rw (plain, b_transport, word, null) same
      | inr (bytes, data_ptr) ↦
          rw (plain, b_transport, word, data_ptr)
            (access_cases P trans.command w trans bytes (trans.address % 2 ^ 12) same reads
              (writes bytes data_ptr))
    ]
  ]
]

step-IsCoherent : (w : Watchdog) (e : Event) → IsCoherent w → IsCoherent (step w e)
unfolding step
step-IsCoherent w (bus trans delay) c =
    b_transport_cases IsCoherent w trans delay c
      (update_outputs-IsCoherent w c.ris_bit c.control_bits)
      (λ bytes _ _. write_reg-IsCoherent w (trans.address % 2 ^ 12) (of_le (take 4 bytes)) c)
step-IsCoherent w clock_tick c = tick-IsCoherent w c
step-IsCoherent w delta c = drive_outputs-IsCoherent w c

run-IsCoherent : (w : Watchdog) (es : List Event) → IsCoherent w → IsCoherent (run w es)
unfolding run
run-IsCoherent w [] c = c
run-IsCoherent w (e ∷ es) c = run-IsCoherent (step w e) es (step-IsCoherent w e c)

-- From the constructor on, through any transactions, ticks and delta cycles: the interrupt level is
-- the raw interrupt masked by INTEN, the reset level is the latched reset, and the two ports carry
-- these levels whenever no delivery is due.
pub run-watchdog-IsCoherent : (es : List Event) → IsCoherent (run watchdog es)
run-watchdog-IsCoherent es = run-IsCoherent watchdog es watchdog-IsCoherent
