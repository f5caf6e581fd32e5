-- ===== src/Plic/Select.antt =====
-- Which source a claim picks, and when the CPU is interrupted.
use cdc_vp.Base.{
  ℕ, zero, suc, ◌+◌, ◌≤◌, ◌<◌, ◌≡◌, ◌≢◌, refl, true, false, ◌&&◌, ltb, ◌==◌, if◌then◌else◌,
  Bool-cases, inl, inr, arith,
}
use native.Mathlib.Nat.{add-zero}
use cdc_vp.Plic.{
  PlicTlm, eligible, priority_of, any_eligible_from, any_eligible, best_from, best_source,
}

-- An eligible source is one of the controller's, and its priority is above the threshold.
pub eligible_bounds :
    (p : PlicTlm) (id : ℕ)
    → eligible p id ≡ true
    → (1 ≤ id) × (id ≤ p.n) × (p.threshold < priority_of p id)
unfolding eligible
eligible_bounds p id h = ground arith

-- `best` is the right choice among the sources below `id`.
record IsBestBelow (p : PlicTlm) (id best best_prio : ℕ) : Type 0 where
  is_priority : best ≢ 0 → best_prio ≡ priority_of p best
  none_yet : best ≡ 0 → best_prio ≡ 0
  is_eligible : best ≢ 0 → eligible p best ≡ true
  seen : best < id
  is_max :
      (j : ℕ)
      → j < id
      → eligible p j ≡ true
      → (priority_of p j ≤ best_prio) × (best ≢ 0) × (priority_of p j ≡ best_prio → best ≤ j)

IsBestBelow-take :
    (p : PlicTlm) (id best best_prio : ℕ)
    → IsBestBelow p id best best_prio
    → eligible p id ≡ true
    → best_prio < priority_of p id
    → IsBestBelow p (suc id) id (priority_of p id)
IsBestBelow-take p id best best_prio b e h = record {
  is_priority = λ ne. refl;
  none_yet = λ z. absurd (omega (arith, eligible_bounds p id e));
  is_eligible = λ ne. e;
  seen = omega arith;
  is_max = λ j lt ej. elim (Bool-cases (j == id)) [
    | inl here ↦ ground (arith, eligible_bounds p j ej)
    | inr earlier ↦ ground (arith, b.is_max j, eligible_bounds p id e)
  ];
}

IsBestBelow-keep :
    (p : PlicTlm) (id best best_prio : ℕ)
    → IsBestBelow p id best best_prio
    → (eligible p id ≡ true → priority_of p id ≤ best_prio)
    → IsBestBelow p (suc id) best best_prio
IsBestBelow-keep p id best best_prio b h = record {
  is_priority = b.is_priority;
  none_yet = b.none_yet;
  is_eligible = b.is_eligible;
  seen = omega (arith, b.seen);
  is_max = λ j lt ej. elim (Bool-cases (j == id)) [
    | inl here ↦ ground (arith, eligible_bounds p j ej, b.none_yet, b.seen, h)
    | inr earlier ↦ ground (arith, b.is_max j)
  ];
}

IsBestBelow-step :
    (p : PlicTlm) (id best best_prio : ℕ)
    → IsBestBelow p id best best_prio
    → let better = eligible p id && ltb best_prio (priority_of p id) in
      IsBestBelow p
        (suc id)
        (if better then id else best)
        (if better then priority_of p id else best_prio)
IsBestBelow-step p id best best_prio b =
    elim (Bool-cases (eligible p id && ltb best_prio (priority_of p id))) [
      | inl better ↦
          rw better (IsBestBelow-take p id best best_prio b (ground arith) (ground arith))
      | inr no_better ↦ rw no_better (IsBestBelow-keep p id best best_prio b (ground arith))
    ]

best_from-IsBestBelow :
    (p : PlicTlm) (left id best best_prio : ℕ)
    → IsBestBelow p id best best_prio
    → (prio : ℕ) × IsBestBelow p (id + left) (best_from p left id best best_prio) prio
unfolding best_from
best_from-IsBestBelow p zero id best best_prio b = (best_prio, rw add-zero b)
best_from-IsBestBelow p (suc left) id best best_prio b =
    let shift : id + suc left ≡ suc id + left = omega arith in
    rw shift (best_from-IsBestBelow p left (suc id) _ _ (IsBestBelow-step p id best best_prio b))

-- What `do_claim` returns: 0 exactly if no source is eligible; otherwise an eligible source of the
-- highest priority among the eligible ones, and of these the one with the lowest id.
pub best_source_lem :
    (p : PlicTlm)
    → let best = best_source p in
      (best ≡ 0 → (id : ℕ) → eligible p id ≡ false)
      × (best ≢ 0 → eligible p best ≡ true)
      × ((id : ℕ)
          → eligible p id ≡ true
          → (priority_of p id ≤ priority_of p best)
            × (priority_of p id ≡ priority_of p best → best ≤ id))
unfolding best_source
best_source_lem p = (
  λ none id. not_eligible id none,
  found.is_eligible,
  λ id e. let m = found.is_max id (in_bounds id e) e in ground (arith, m, found.is_priority),
)
  where
    start : IsBestBelow p 1 0 0
    start = record {
      is_priority = λ ne. absurd (ne refl);
      none_yet = λ z. refl;
      is_eligible = λ ne. absurd (ne refl);
      seen = omega arith;
      is_max = λ j lt e. absurd (omega (arith, eligible_bounds p j e));
    }

    result : (prio : ℕ) × IsBestBelow p (1 + p.n) (best_source p) prio
    result = best_from-IsBestBelow p p.n 1 0 0 start

    found : IsBestBelow p (1 + p.n) (best_source p) result.0
    found = result.1

    in_bounds : (id : ℕ) → eligible p id ≡ true → id < 1 + p.n
    in_bounds id e = omega (arith, eligible_bounds p id e)

    not_eligible : (id : ℕ) → best_source p ≡ 0 → eligible p id ≡ false
    not_eligible id z = elim (Bool-cases (eligible p id)) [
      | inl e ↦ absurd ((found.is_max id (in_bounds id e) e).1 z)
      | inr e ↦ e
    ]

any_eligible_from-true :
    (p : PlicTlm) (left id j : ℕ)
    → id ≤ j
    → j < id + left
    → eligible p j ≡ true
    → any_eligible_from p left id ≡ true
unfolding any_eligible_from
any_eligible_from-true p zero id j lo hi e = absurd (omega arith)
any_eligible_from-true p (suc left) id j lo hi e = elim (Bool-cases (id == j)) [
  | inl here ↦ ground arith
  | inr later ↦ ground (arith, any_eligible_from-true p left (suc id) j)
]

any_eligible_from-find :
    (p : PlicTlm) (left id : ℕ)
    → any_eligible_from p left id ≡ true
    → (j : ℕ) × (eligible p j ≡ true)
unfolding any_eligible_from
any_eligible_from-find p zero id h = absurd (cc)
any_eligible_from-find p (suc left) id h = elim (Bool-cases (eligible p id)) [
  | inl e ↦ (id, e)
  | inr e ↦ any_eligible_from-find p left (suc id) (ground arith)
]

-- The loop of `update_meip` finds an eligible source if there is one.
pub any_eligible_iff :
    (p : PlicTlm)
    → (any_eligible p ≡ true → (id : ℕ) × (eligible p id ≡ true))
      × ((id : ℕ) → eligible p id ≡ true → any_eligible p ≡ true)
unfolding any_eligible
any_eligible_iff p = (
  any_eligible_from-find p p.n 1,
  λ id e.
      any_eligible_from-true p p.n 1 id (eligible_bounds p id e).0
        (omega (arith, eligible_bounds p id e)) e,
)
