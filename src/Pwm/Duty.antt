-- ===== src/Pwm/Duty.antt =====
-- The duty cycle: how long the output is active in a period.
use cdc_vp.Base.{
  ℕ, zero, suc, ◌+◌, ◌-◌, ◌<◌, ◌≡◌, refl, ◌∙◌, Bool, not, some, List, [], ◌∷◌, ◌++◌, ltb,
  if◌then◌else◌, bit, min, Option-cases, inl, inr, arith,
}
use native.Mathlib.Nat.{zero-add, suc-add}
use cdc_vp.Pwm.{Pwm, round, rounds}
use cdc_vp.Pwm.Rounds.{IsRunning, position, next_position, SameSettings, Steps, after, round-Steps}

-- How often a level is the active one, which `invert` makes low.
abbrev pub count_active : Bool → List Bool → ℕ
count_active inverted [] = 0
count_active inverted (l ∷ ls) =
    let rest = count_active inverted ls in
    if (if inverted then not l else l) then suc rest else rest

count_active-append :
    (inverted : Bool) (ls ms : List Bool)
    → count_active inverted (ls ++ ms) ≡ count_active inverted ls + count_active inverted ms
count_active-append inverted [] ms = omega arith
count_active-append inverted (l ∷ ls) ms = ground (arith, count_active-append inverted ls ms)

-- `n` rounds from `p` end at position `s`, with the output active in `k` of them.
pub record Walk (p : Pwm) (n s k : ℕ) : Type 0 where
  pub levels : List Bool
  pub end : Pwm
  pub runs : rounds n p ≡ some (levels, end)
  pub running : IsRunning end
  pub arrives : position end ≡ s
  pub actives : count_active (bit p.invert 0) levels ≡ k
  pub settings : SameSettings p end

pub rounds-suc :
    (n : ℕ) (p q r : Pwm) (ls : List Bool)
    → round p ≡ some q
    → rounds n q ≡ some (ls, r)
    → rounds (suc n) p ≡ some (q.pwm_out ∷ ls, r)
unfolding rounds
rounds-suc n p q r ls e f = rw (e, rounds) (rw (f, rounds))

-- One more round in front.
Walk-suc :
    (p : Pwm) (n s k : ℕ)
    → IsRunning p
    → Walk (after p) n s k
    → Walk p (suc n) s ((if ltb (position (after p)) p.duty_cycle then 1 else 0) + k)
Walk-suc p n s k r w =
    let st = round-Steps p r in
    record {
      levels = (after p).pwm_out ∷ w.levels;
      end = w.end;
      runs = rounds-suc n p (after p) w.end w.levels st.runs w.runs;
      running = w.running;
      arrives = w.arrives;
      actives = ground (arith, st, w.actives, st.settings.same_invert);
      settings = record {
        same_period = w.settings.same_period ∙ st.settings.same_period;
        same_duty = w.settings.same_duty ∙ st.settings.same_duty;
        same_invert = w.settings.same_invert ∙ st.settings.same_invert;
      };
    }

Walk-cast : {p : Pwm} {n s k m t l : ℕ} → Walk p n s k → n ≡ m → s ≡ t → k ≡ l → Walk p m t l
Walk-cast w e f g = record {
  levels = w.levels;
  end = w.end;
  runs = rw (← e) w.runs;
  running = w.running;
  arrives = w.arrives ∙ f;
  actives = w.actives ∙ g;
  settings = w.settings;
}

Walk-zero : (p : Pwm) (s : ℕ) → IsRunning p → position p ≡ s → Walk p 0 s 0
unfolding rounds
Walk-zero p s r e = record {
  levels = [];
  end = p;
  runs = refl;
  running = r;
  arrives = e;
  actives = refl;
  settings = record { same_period = refl; same_duty = refl; same_invert = refl };
}

-- The number of positions below `d` from `s` on, among the next `n`.
abbrev pulses : ℕ → ℕ → ℕ → ℕ
pulses d s n = min d (s + n) - min d s

-- Rounds that do not pass the end of the period.
Walk-up :
    (n : ℕ) (p : Pwm) (s : ℕ)
    → IsRunning p
    → position p ≡ s
    → s + n < p.period
    → Walk p n (s + n) (pulses p.duty_cycle (suc s) n)
Walk-up zero p s r e h = Walk-cast (Walk-zero p s r e) refl (omega arith) (omega arith)
Walk-up (suc n) p s r e h =
    let st = round-Steps p r in
    let moved : position (after p) ≡ suc s = unfold next_position in ground (arith, st.moves) in
    let rest =
      Walk-up n (after p) (suc s) st.running moved (omega (arith, st.settings.same_period)) in
    Walk-cast (Walk-suc p n (suc s + n) _ r rest) refl (omega arith)
      (ground (arith, moved, st.settings.same_duty))

rounds-add :
    (m n : ℕ) (p q r : Pwm) (ls ms : List Bool)
    → rounds m p ≡ some (ls, q)
    → rounds n q ≡ some (ms, r)
    → rounds (m + n) p ≡ some (ls ++ ms, r)
unfolding rounds
rounds-add zero n p q r ls ms e f = rw zero-add (ground arith)
rounds-add (suc m) n p q r ls ms e f = elim (Option-cases (round p)) [
  | inl fault ↦ absurd (ground arith)
  | inr (p', one) ↦ elim (Option-cases (rounds m p')) [
    | inl fault ↦ absurd (ground arith)
    | inr ((ks, q'), more) ↦
        rw (suc-add, rounds, one) (ground (arith, rounds-add m n p' q' r ks ms more))
  ]
]

-- The walk of one walk and then another.
Walk-add :
    {p : Pwm} {m n s t k l : ℕ} → (w : Walk p m s k) → Walk w.end n t l → Walk p (m + n) t (k + l)
Walk-add {p} {m} {n} {s} {t} {k} {l} w v = record {
  levels = w.levels ++ v.levels;
  end = v.end;
  runs = rounds-add m n p w.end v.end w.levels v.levels w.runs v.runs;
  running = v.running;
  arrives = v.arrives;
  actives = ground (
    arith,
    count_active-append (bit p.invert 0) w.levels v.levels,
    w.actives,
    v.actives,
    w.settings.same_invert,
  );
  settings = record {
    same_period = v.settings.same_period ∙ w.settings.same_period;
    same_duty = v.settings.same_duty ∙ w.settings.same_duty;
    same_invert = v.settings.same_invert ∙ w.settings.same_invert;
  };
}

position-lt : (p : Pwm) → IsRunning p → position p < p.period
position-lt p r = ground arith

-- The whole period, from any position.
pub whole_period :
    (p : Pwm) → IsRunning p → Walk p p.period (position p) (min p.duty_cycle p.period)
whole_period p r = whole
  where
    s : ℕ
    s = position p

    inside : s < p.period
    inside = position-lt p r

    to_end :
        Walk p
          (p.period - 1 - s)
          (s + (p.period - 1 - s))
          (pulses p.duty_cycle (suc s) (p.period - 1 - s))
    to_end = Walk-up (p.period - 1 - s) p s r refl (omega (arith, inside))

    wrap : Steps to_end.end (after to_end.end)
    wrap = round-Steps to_end.end to_end.running

    at_start : position (after to_end.end) ≡ 0
    at_start =
        unfold next_position in
        ground (arith, wrap.moves, to_end.arrives, to_end.settings.same_period, inside)

    to_start : Walk (after to_end.end) s (0 + s) (pulses (after to_end.end).duty_cycle 1 s)
    to_start =
        Walk-up s (after to_end.end) 0 wrap.running at_start
          (omega (arith, inside, wrap.settings.same_period, to_end.settings.same_period))

    whole : Walk p p.period s (min p.duty_cycle p.period)
    whole =
        Walk-cast (Walk-add to_end (Walk-suc to_end.end s (0 + s) _ to_end.running to_start))
          (omega (arith, inside)) (omega arith)
          (ground (arith, at_start, wrap.settings.same_duty, to_end.settings.same_duty, inside))

-- From any position of a running generator, in the next `period` rounds the output is at its active
-- level (high, or low if inverted) in exactly `duty_cycle` rounds, or in all if the duty cycle is
-- the period or more; no round is undefined, and the generator is back where it was in the period.
pub duty_cycle_exact :
    (p : Pwm)
    → IsRunning p
    → (levels : List Bool) × (q : Pwm) × (rounds p.period p ≡ some (levels, q))
      × (count_active (bit p.invert 0) levels ≡ min p.duty_cycle p.period)
      × (position q ≡ position p)
duty_cycle_exact p r = let w = whole_period p r in (w.levels, w.end, w.runs, w.actives, w.arrives)
