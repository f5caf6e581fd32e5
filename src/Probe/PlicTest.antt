-- ===== src/Probe/PlicTest.antt =====
-- components/plic_tlm/tests/test_plic_tlm.cpp. A wait of the test lets one delta cycle pass, in which the
-- signal takes its new value; in the next, the method of the controller that is sensitive to the signal
-- and the test are ready at the same time, and `method_first` says which of them the kernel runs first.
use cdc_vp.Base.{
  ℕ, ◌≡◌, refl, Bool, true, false, not, Option, none, some, [], ◌∷◌, ◌==◌, if◌then◌else◌,
}
use cdc_vp.Tlm.{Payload, SimTime}
use cdc_vp.Plic
use cdc_vp.Plic.{PlicTlm, plic_tlm, on_sources}
use cdc_vp.Probe.{cdc_check, is_ok, word_in, write, read}

-- `src` is the value of the signal, `written` one that was written to it since the last delta cycle.
-- `ready` says that the method has yet to run. `meip` of the test's processor is `plic.irq`.
pub record PlicBench : Type 0 where
  pub plic : PlicTlm
  pub src : Bool
  pub written : Option Bool
  pub ready : Bool

sense : PlicBench → PlicBench
sense s = record s { plic = on_sources s.plic (s.src ∷ []); ready = false }

pub wait_zero : Bool → PlicBench → PlicBench
unfolding sense
wait_zero method_first s =
    let idle = if s.ready then sense s else s in
    elim idle.written [
      | none ↦ idle
      | some level ↦
          let plic' = record idle.plic { lines = level ∷ [] } in
          let s' = record idle { plic = plic'; src = level; written = none } in
          let changed = if level then not idle.src else idle.src in
          if not changed then s' else if method_first then sense s' else record s' { ready = true }
    ]

abbrev bus_of : PlicBench → Payload → SimTime → PlicBench × Payload × SimTime
bus_of s trans delay =
    let (p, t, d) = Plic.b_transport s.plic trans delay in (record s { plic = p }, t, d)

abbrev plic_bench : PlicBench
plic_bench = record { plic = plic_tlm 1; src = false; written = none; ready = false }

-- The number of failures.
pub plic_test : Bool → ℕ
unfolding wait_zero
plic_test method_first =
    let (s1, r1, b1) = write bus_of 0x4 1 plic_bench in
    let (s2, r2, b2) = write bus_of 0x2000 2 s1 in
    let (s3, r3, b3) = write bus_of 0x200000 0 s2 in
    let s4 = wait_zero method_first s3 in
    let f1 = cdc_check (not s4.plic.irq) 0 in
    let s5 = wait_zero method_first (record s4 { written = some true }) in
    let f2 = cdc_check s5.plic.irq f1 in
    let (s6, got, id) = read bus_of 0x200004 0 s5 in
    let f3 = cdc_check (is_ok got) f2 in
    let f4 = cdc_check (word_in id == 1) f3 in
    let s7 = wait_zero method_first s6 in
    let f5 = cdc_check (not s7.plic.irq) f4 in
    let s8 = wait_zero method_first (record s7 { written = some false }) in
    let (s9, r9, b9) = write bus_of 0x200004 1 s8 in
    let s10 = wait_zero method_first s9 in cdc_check (not s10.plic.irq) f5

-- The test finds no failure if the kernel runs the method first, and one otherwise.
pub plic_test_by_order : (plic_test true ≡ 0) × (plic_test false ≡ 1)
unfolding plic_test Plic.b_transport plic_tlm Plic.access Plic.register_at Plic.read_register
    Plic.write_register Plic.do_claim Plic.best_source Plic.eligible Plic.update_meip
    Plic.any_eligible on_sources
plic_test_by_order = (refl, refl)
