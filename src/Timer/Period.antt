-- ===== src/Timer/Period.antt =====
-- Ticks of the running timer, with its reset input high.
use cdc_vp.Base.{
  ℕ, zero, suc, ◌+◌, ◌-◌, ◌*◌, ◌≤◌, ◌<◌, ◌≡◌, refl, ap, sym, ◌∙◌, Bool, true, false, ◌||◌, ◌&&◌,
  leb, if◌then◌else◌, Bool-cases, inl, inr, arith,
}
use native.Mathlib.Nat.{zero-add, suc-add}
use cdc_vp.Timer.{
  Timer, ticking, period_over, enabled, ext_enabled, ext_clocked, intr_enabled, deliver,
}

-- Counting its own ticks, with no clearing of the interrupt under way.
pub record IsTicking (t : Timer) : Type 0 where
  pub is_enabled : enabled t ≡ true
  pub no_gate : ext_enabled t ≡ false
  pub own_clock : ext_clocked t ≡ false
  pub no_clear : t.intr_clear_inc ≡ false
  pub waiting : t.waits ≡ ticking

-- `n` tick periods that pass with no other event.
pub ticks : ℕ → Bool → Timer → Timer
ticks zero extin t = t
ticks (suc n) extin t = ticks n extin (deliver t period_over true extin)

ticks-add :
    (m n : ℕ) (extin : Bool) (t : Timer) → ticks (m + n) extin t ≡ ticks n extin (ticks m extin t)
unfolding ticks
ticks-add zero n extin t = rw zero-add
ticks-add (suc m) n extin t = rw suc-add (ticks-add m n extin (deliver t period_over true extin))

tick_down :
    (t : Timer) (extin : Bool)
    → IsTicking t
    → 0 < t.value_reg
    → deliver t period_over true extin ≡ record t { value_reg = t.value_reg - 1 }
unfolding deliver
tick_down t extin r h = ground arith

-- The timeout of a counter at 0.
abbrev fire : Timer → Timer
fire t = record t {
  value_reg = t.reload_reg;
  intr_status = true;
  timerint = if intr_enabled t then true else t.timerint;
}

tick_zero :
    (t : Timer) (extin : Bool)
    → IsTicking t
    → t.value_reg ≡ 0
    → deliver t period_over true extin ≡ fire t
unfolding deliver
tick_zero t extin r h = ground arith

ticks_down :
    (n : ℕ) (t : Timer) (extin : Bool)
    → IsTicking t
    → n ≤ t.value_reg
    → ticks n extin t ≡ record t { value_reg = t.value_reg - n }
unfolding ticks
ticks_down zero t extin r h = ground arith
ticks_down (suc n) t extin r h = rw (tick_down t extin r (omega arith)) (
    ticks_down n (record t { value_reg = t.value_reg - 1 }) extin
      (record {
        is_enabled = r.is_enabled;
        no_gate = r.no_gate;
        own_clock = r.own_clock;
        no_clear = r.no_clear;
        waiting = r.waiting;
      })
      (omega arith)
    ∙ ground arith)

-- From the value v, v + 1 ticks reload the counter and raise the interrupt.
pub ticks-fire : (t : Timer) (extin : Bool) → IsTicking t → ticks (t.value_reg + 1) extin t ≡ fire t
unfolding ticks
ticks-fire t extin r =
    ticks-add t.value_reg 1 extin t
    ∙ rw (ticks_down t.value_reg t extin r (omega arith)) (
        tick_zero (record t { value_reg = t.value_reg - t.value_reg }) extin
          (record {
            is_enabled = r.is_enabled;
            no_gate = r.no_gate;
            own_clock = r.own_clock;
            no_clear = r.no_clear;
            waiting = r.waiting;
          })
          (omega arith)
        ∙ refl)

-- A tick after the interrupt has been raised leaves it raised.
tick_keep :
    (t : Timer) (extin : Bool)
    → IsTicking t
    → t.intr_status ≡ true
    → (intr_enabled t ≡ true → t.timerint ≡ true)
    → let u = deliver t period_over true extin in
      IsTicking u
      × (u.intr_status ≡ true)
      × (intr_enabled u ≡ true → u.timerint ≡ true)
      × (u.timerint ≡ t.timerint)
unfolding deliver
tick_keep t extin r status line = ground arith

ticks_keep :
    (n : ℕ) (t : Timer) (extin : Bool)
    → IsTicking t
    → t.intr_status ≡ true
    → (intr_enabled t ≡ true → t.timerint ≡ true)
    → ((ticks n extin t).intr_status ≡ true) × ((ticks n extin t).timerint ≡ t.timerint)
unfolding ticks
ticks_keep zero t extin r status line = (status, refl)
ticks_keep (suc n) t extin r status line =
    let (r', status', line', same) = tick_keep t extin r status line in
    let (status'', same') =
      ticks_keep n (deliver t period_over true extin) extin r' status' line' in
    (status'', same' ∙ same)

fire-IsTicking : (t : Timer) → IsTicking t → IsTicking (fire t)
fire-IsTicking t r = record {
  is_enabled = r.is_enabled;
  no_gate = r.no_gate;
  own_clock = r.own_clock;
  no_clear = r.no_clear;
  waiting = r.waiting;
}

-- A timer that counts its own ticks from the value v has raised its interrupt status after n ticks
-- exactly if n is at least v + 1, or if it was raised before; and its interrupt line likewise if the
-- interrupt is enabled, while it leaves the line as it was if not.
pub interrupt_deadline :
    (n : ℕ) (t : Timer) (extin : Bool)
    → IsTicking t
    → let u = ticks n extin t in
      let expired = leb (t.value_reg + 1) n in
      (u.intr_status ≡ t.intr_status || expired)
      × (u.timerint ≡ t.timerint || (intr_enabled t && expired))
interrupt_deadline n t extin r = elim (Bool-cases (leb (t.value_reg + 1) n)) [
  | inl late ↦
      let k : ℕ = n - (t.value_reg + 1) in
      let split : n ≡ (t.value_reg + 1) + k = ground arith in
      let reached : ticks n extin t ≡ ticks k extin (fire t) =
        ap (λ m. ticks m extin t) split
        ∙ ticks-add (t.value_reg + 1) k extin t
        ∙ ap (ticks k extin) (ticks-fire t extin r) in
      let (status, line) =
        ticks_keep k (fire t) extin (fire-IsTicking t r) refl (λ e. ground arith) in
      (
        ap (λ u. u.intr_status) reached ∙ status ∙ ground arith,
        ap (λ u. u.timerint) reached ∙ line ∙ ground arith,
      )
  | inr early ↦
      let down = ticks_down n t extin r (ground arith) in
      (ap (λ u. u.intr_status) down ∙ ground arith, ap (λ u. u.timerint) down ∙ ground arith)
]

fire_again :
    (t : Timer) (extin : Bool) → IsTicking t → ticks (t.reload_reg + 1) extin (fire t) ≡ fire t
fire_again t extin r = ticks-fire (fire t) extin (fire-IsTicking t r) ∙ ground arith

-- Once it has fired, the timer is in the same state again after each reload + 1 ticks: its period
-- is one tick longer than the reload value.
pub ticks_period :
    (k : ℕ) (t : Timer) (extin : Bool)
    → IsTicking t
    → ticks (t.value_reg + 1 + k * (t.reload_reg + 1)) extin t ≡ ticks (t.value_reg + 1) extin t
unfolding ticks
ticks_period zero t extin r = ap (λ m. ticks m extin t) none_more
  where
    none_more : t.value_reg + 1 + 0 * (t.reload_reg + 1) ≡ t.value_reg + 1
    none_more = omega arith
ticks_period (suc k) t extin r =
    ap (λ m. ticks m extin t) regroup
    ∙ ticks-add (t.value_reg + 1) (t.reload_reg + 1 + k * (t.reload_reg + 1)) extin t
    ∙ ap (ticks (t.reload_reg + 1 + k * (t.reload_reg + 1)) extin) (ticks-fire t extin r)
    ∙ ticks-add (t.reload_reg + 1) (k * (t.reload_reg + 1)) extin (fire t)
    ∙ ap (ticks (k * (t.reload_reg + 1)) extin) (fire_again t extin r ∙ sym (ticks-fire t extin r))
    ∙ sym (ticks-add (t.value_reg + 1) (k * (t.reload_reg + 1)) extin t)
    ∙ ticks_period k t extin r
  where
    regroup :
        t.value_reg + 1 + suc k * (t.reload_reg + 1)
        ≡ t.value_reg + 1 + (t.reload_reg + 1 + k * (t.reload_reg + 1))
    regroup = omega arith
