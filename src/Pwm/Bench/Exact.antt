-- ===== src/Pwm/Bench/Exact.antt =====
-- Each test case of the PWM's test bench sees its duty cycle.
use native.Mathlib.Nat.{mod-lt}
use cdc_vp.Base.{
  ℕ, zero, suc, ◌+◌, ◌%◌, ◌^◌, ◌≤◌, ◌<◌, ◌≡◌, refl, sym, ap, ◌∙◌, Bool, true, false, some, List, [],
  ◌∷◌, bit, min, le_bytes, of_le, take, if◌then◌else◌, Bool-cases, inl, inr, arith,
}
use cdc_vp.Pwm
use cdc_vp.Pwm.{Pwm, counter_enable, round, rounds, write_register}
use cdc_vp.Pwm.Duty.{whole_period, rounds-suc, count_active}
use cdc_vp.Pwm.Bench.{TestCase, setup, configure, run_cases, run}

-- The values fit their registers, and the phase the period.
abbrev pub Suits : ℕ → TestCase → Type 0
Suits period c = (c.enable < 2 ^ 32) × (c.invert < 2 ^ 32) × (c.phase ≤ period) × (c.duty < 2 ^ 32)

-- In how many rounds of a period a case asks for the active level.
abbrev pub active_rounds : ℕ → TestCase → ℕ
active_rounds period c = if bit c.enable 0 then min c.duty period else 0

abbrev pub AllSuit : ℕ → List TestCase → Type 0
AllSuit period [] = Unit {0}
AllSuit period (c ∷ cs) = Suits period c × AllSuit period cs

-- In each trace the output is active as often as its case asks for.
abbrev pub Exact : ℕ → List TestCase → List (List Bool) → Type 0
Exact period [] [] = Unit {0}
Exact period (c ∷ cs) (trace ∷ traces) =
    (count_active (bit c.invert 0) trace ≡ active_rounds period c) × Exact period cs traces
Exact period _ _ = ⊥

word_back : (v : ℕ) → v < 2 ^ 32 → of_le (take 4 (le_bytes 4 v)) ≡ v
word_back v h = omega arith

setup_lem :
    (period : ℕ) (p : Pwm)
    → period < 2 ^ 32
    → setup period p ≡ some (record p { cfg = 0x80000000; period = period })
unfolding setup write_register Pwm.b_transport
setup_lem period p h =
    ap (λ v. some (record p { cfg = 0x80000000; period = v })) (word_back period h)

abbrev configured : TestCase → Pwm → Pwm
configured c p = record p {
  pwm_en = c.enable;
  invert = c.invert;
  phase_delay = c.phase;
  duty_cycle = c.duty;
}

configure_lem :
    (c : TestCase) (p : Pwm)
    → c.enable < 2 ^ 32
    → c.invert < 2 ^ 32
    → c.phase < 2 ^ 32
    → c.duty < 2 ^ 32
    → configure c p ≡ some (configured c p)
unfolding configure write_register Pwm.b_transport
configure_lem c p e a b d i = some (record p {
  pwm_en = word_back c.enable e i;
  invert = word_back c.invert a i;
  phase_delay = word_back c.phase b i;
  duty_cycle = word_back c.duty d i;
})

-- The counter runs inside the period; the phase and the enabling of the output may be any.
record IsSetUp (period : ℕ) (p : Pwm) : Type 0 where
  counting : counter_enable p ≡ true
  has_period : p.period ≡ period
  in_period : p.counter < period

-- As many rounds, in which the output is active so often.
record Shows (period : ℕ) (p : Pwm) (n k : ℕ) : Type 0 where
  trace : List Bool
  end : Pwm
  runs : rounds n p ≡ some (trace, end)
  actives : count_active (bit p.invert 0) trace ≡ k
  set_up : IsSetUp period end

-- A round with the output disabled.
disabled_round :
    (period : ℕ) (p : Pwm)
    → IsSetUp period p
    → bit p.pwm_en 0 ≡ false
    → let c = (p.counter + 1) % p.period % 2 ^ 16 in
      round p ≡ some (record p { counter = c; pwm_out = bit p.invert 0 })
unfolding round
disabled_round period p s off = ground (arith, s.counting, s.has_period, s.in_period)

disabled-Shows :
    (period n : ℕ) (p : Pwm) → IsSetUp period p → bit p.pwm_en 0 ≡ false → Shows period p n 0
unfolding rounds
disabled-Shows period zero p s off = record {
  trace = [];
  end = p;
  runs = refl;
  actives = refl;
  set_up = s;
}
disabled-Shows period (suc n) p s off =
    let c = (p.counter + 1) % p.period % 2 ^ 16 in
    let q : Pwm = record p { counter = c; pwm_out = bit p.invert 0 } in
    let w =
      disabled-Shows period n q
        (record {
          counting = s.counting;
          has_period = s.has_period;
          in_period = omega (
            arith,
            mod-lt (p.counter + 1) {m = p.period} (omega (arith, s.has_period, s.in_period)),
            s.has_period,
            s.in_period,
          );
        })
        off in
    record {
      trace = bit p.invert 0 ∷ w.trace;
      end = w.end;
      runs = rounds-suc n p q w.end w.trace (disabled_round period p s off) w.runs;
      actives = ground (arith, w.actives);
      set_up = w.set_up;
    }

-- The period behind a case.
configured-Shows :
    (period : ℕ) (c : TestCase) (p : Pwm)
    → period ≤ 2 ^ 16
    → c.phase ≤ period
    → IsSetUp period p
    → Shows period (configured c p) period (active_rounds period c)
configured-Shows period c p fits phase s = elim (Bool-cases (bit c.enable 0)) [
  | inl on ↦
      let w = whole_period (configured c p) (record {
        counting = s.counting;
        pulsing = on;
        has_period = omega (arith, s.has_period, s.in_period);
        fits = omega (arith, s.has_period, fits);
        phase = omega (arith, s.has_period, phase);
        in_period = omega (arith, s.has_period, s.in_period);
      }) in
      let same = w.settings.same_period ∙ s.has_period in
      record {
        trace = w.levels;
        end = w.end;
        runs = ap (λ n. rounds n (configured c p)) (sym s.has_period) ∙ w.runs;
        actives = rw on (w.actives ∙ ap (min c.duty) s.has_period);
        set_up = record {
          counting = w.running.counting;
          has_period = same;
          in_period = omega (arith, w.running.in_period, same);
        };
      }
  | inr off ↦ rw off (
      disabled-Shows period period (configured c p)
        (record { counting = s.counting; has_period = s.has_period; in_period = s.in_period }) off)
]

run_cases-cons :
    (n : ℕ) (c : TestCase) (cs : List TestCase) (p p' q r : Pwm) (trace : List Bool)
    (traces : List (List Bool))
    → configure c p ≡ some p'
    → rounds n p' ≡ some (trace, q)
    → run_cases n cs q ≡ some (traces, r)
    → run_cases n (c ∷ cs) p ≡ some (trace ∷ traces, r)
unfolding run_cases
run_cases-cons n c cs p p' q r trace traces e f g = rw (e, run_cases, f, g) refl

run_cases-Exact :
    (period : ℕ) (cs : List TestCase) (p : Pwm)
    → period ≤ 2 ^ 16
    → IsSetUp period p
    → AllSuit period cs
    → (traces : List (List Bool)) × (q : Pwm) × (run_cases period cs p ≡ some (traces, q))
      × Exact period cs traces
unfolding run_cases
run_cases-Exact period [] p fits s suits = ([], p, refl, tt)
run_cases-Exact period (c ∷ cs) p fits s ((e, a, b, d), suits) =
    let w = configured-Shows period c p fits b s in
    let (traces, q, runs, exact) = run_cases-Exact period cs w.end fits w.set_up suits in
    (
      w.trace ∷ traces,
      q,
      run_cases-cons period c cs p (configured c p) w.end q w.trace traces
          (configure_lem c p e a (omega (arith, b, fits)) d) w.runs runs,
      (w.actives, exact),
    )

-- The counter is enabled and the period set over the bus, to a period that fits the counter, whatever
-- the registers held, the counter being inside the period. Then, in any sequence of test cases whose
-- values fit their registers and whose phase is at most the period, the output is active in the period
-- behind each case in exactly `duty` rounds, or in all if `duty` is the period or more, and in none if
-- the case disables it; nothing undefined happens.
pub run-Exact :
    (period : ℕ) (cs : List TestCase) (p : Pwm)
    → p.counter < period
    → period ≤ 2 ^ 16
    → AllSuit period cs
    → (traces : List (List Bool)) × (q : Pwm) × (run period cs p ≡ some (traces, q))
      × Exact period cs traces
unfolding run
run-Exact period cs p inside fits suits =
    let p' : Pwm = record p { cfg = 0x80000000; period = period } in
    let (traces, q, runs, exact) =
      run_cases-Exact period cs p' fits
        (record { counting = refl; has_period = refl; in_period = inside }) suits in
    (traces, q, rw (setup_lem period p (omega (arith, fits)), run) runs, exact)
