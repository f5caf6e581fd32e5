-- ===== src/Plic/Gateway.antt =====
-- The gateway: what a claim takes is not given again until it is completed.
use cdc_vp.Base.{
  ℕ, suc, ◌≤◌, ◌≡◌, ◌≢◌, refl, ap, ◌∙◌, sym, Bool, true, false, not, ◌&&◌, none, some, List, [],
  ◌∷◌, length, set, length-set, length-replicate, get_or-set_self, set-set_back, get_or-set_ne,
  take, of_le, Bool-cases, inl, inr, ◌==◌, leb, arith,
}
use cdc_vp.Tlm.{is_read}
use cdc_vp.Plic.{
  PlicTlm, plic_tlm, eligible, update_meip, on_sources, do_claim, best_source, claimed_of, Register,
  priority_reg, pending_reg, enable_reg, threshold_reg, claim_reg, register_at, read_register,
  write_register,
}
use cdc_vp.Plic.Select.{eligible_bounds, best_source_lem}
use cdc_vp.Plic.Line.{Event, bus, lines_change, any_eligible-irq, step, run, b_transport_cases}

-- The tables have an entry for each source and one for the unused id 0.
pub record IsSized (p : PlicTlm) : Type 0 where
  pub priorities : length p.priority ≡ suc p.n
  pub claims : length p.claimed ≡ suc p.n

pub plic_tlm-IsSized : (n : ℕ) → IsSized (plic_tlm n)
unfolding plic_tlm
plic_tlm-IsSized n = record {
  priorities = length-replicate (suc n) 0;
  claims = length-replicate (suc n) false;
}

read_register-IsSized : (p : PlicTlm) (reg : Register) → IsSized p → IsSized (read_register p reg).1
unfolding read_register do_claim update_meip
read_register-IsSized p claim_reg s = ground (arith, length-set p.claimed (best_source p) true)
read_register-IsSized p _ s = s

write_register-IsSized :
    (p : PlicTlm) (reg : Register) (value : ℕ) → IsSized p → IsSized (write_register p reg value)
unfolding write_register update_meip
write_register-IsSized p (priority_reg id) value s = ground (arith, length-set p.priority id value)
write_register-IsSized p claim_reg value s = ground (arith, length-set p.claimed value false)
write_register-IsSized p pending_reg value s = s
write_register-IsSized p enable_reg value s = ground arith
write_register-IsSized p threshold_reg value s = ground arith

step-IsSized : (p : PlicTlm) (e : Event) → IsSized p → IsSized (step p e)
unfolding step on_sources
step-IsSized p (bus trans delay) s =
    b_transport_cases IsSized p trans delay s (λ reg. read_register-IsSized p reg s)
      (λ reg bytes _ _ _. write_register-IsSized p reg (of_le (take 4 bytes)) s)
step-IsSized p (lines_change lines) s = record { priorities = s.priorities; claims = s.claims }

pub run-IsSized : (p : PlicTlm) (es : List Event) → IsSized p → IsSized (run p es)
unfolding run
run-IsSized p [] s = s
run-IsSized p (e ∷ es) s = run-IsSized (step p e) es (step-IsSized p e s)

-- A source that is being serviced is not eligible.
not_eligible-claimed : (p : PlicTlm) (id : ℕ) → claimed_of p id ≡ true → eligible p id ≡ false
unfolding eligible
not_eligible-claimed p id h = ground arith

not_claimed-eligible : (p : PlicTlm) (id : ℕ) → eligible p id ≡ true → claimed_of p id ≡ false
unfolding eligible
not_claimed-eligible p id h = ground arith

-- Does the event write the id `b` to the claim register?
abbrev pub completes : ℕ → Event → Bool
completes b (lines_change lines) = false
completes b (bus trans delay) =
    not (is_read trans.command)
    && trans.address == 0x200004
    && elim trans.buffer [ none ↦ false | some bytes ↦ of_le (take 4 bytes) == b ]

abbrev pub NoneCompletes : ℕ → List Event → Type 0
NoneCompletes b [] = Unit {0}
NoneCompletes b (e ∷ es) = (completes b e ≡ false) × NoneCompletes b es

read_register-claimed :
    (p : PlicTlm) (reg : Register) (b : ℕ)
    → IsSized p
    → b ≤ p.n
    → claimed_of p b ≡ true
    → claimed_of (read_register p reg).1 b ≡ true
unfolding read_register do_claim update_meip
read_register-claimed p claim_reg b s le c = elim (Bool-cases (best_source p == 0)) [
  | inl z ↦ ground arith
  | inr nz ↦ elim (Bool-cases (best_source p == b)) [
    | inl e ↦ ground (arith, get_or-set_self p.claimed b true false, s.claims)
    | inr ne ↦ ground (arith, get_or-set_ne p.claimed (best_source p) b true false)
  ]
]
read_register-claimed p _ b s le c = c

write_register-claimed :
    (p : PlicTlm) (reg : Register) (value b : ℕ)
    → claimed_of p b ≡ true
    → (reg ≡ claim_reg → value ≢ b)
    → claimed_of (write_register p reg value) b ≡ true
unfolding write_register update_meip
write_register-claimed p (priority_reg id) value b c h = ground arith
write_register-claimed p claim_reg value b c h =
    ground (arith, get_or-set_ne p.claimed value b false false (h refl))
write_register-claimed p pending_reg value b c h = c
write_register-claimed p enable_reg value b c h = c
write_register-claimed p threshold_reg value b c h = c

n-read_register : (p : PlicTlm) (reg : Register) → (read_register p reg).1.n ≡ p.n
unfolding read_register do_claim update_meip
n-read_register p claim_reg = ground arith
n-read_register p _ = refl

n-write_register : (p : PlicTlm) (reg : Register) (v : ℕ) → (write_register p reg v).n ≡ p.n
unfolding write_register update_meip
n-write_register p (priority_reg id) v = ground arith
n-write_register p claim_reg v = ground arith
n-write_register p pending_reg v = refl
n-write_register p _ v = refl

n-step : (p : PlicTlm) (e : Event) → (step p e).n ≡ p.n
unfolding step on_sources
n-step p (bus trans delay) =
    b_transport_cases (λ q. q.n ≡ p.n) p trans delay refl (n-read_register p)
      (λ reg bytes _ _ _. n-write_register p reg (of_le (take 4 bytes)))
n-step p (lines_change lines) = refl

-- The claim register has one address.
register_at-claim : (p : PlicTlm) (addr : ℕ) → register_at p addr ≡ some claim_reg → addr ≡ 0x200004
unfolding register_at
register_at-claim p addr h = ground arith

step-claimed :
    (p : PlicTlm) (e : Event) (b : ℕ)
    → IsSized p
    → b ≤ p.n
    → completes b e ≡ false
    → claimed_of p b ≡ true
    → claimed_of (step p e) b ≡ true
unfolding step on_sources
step-claimed p (lines_change lines) b s le undone c = c
step-claimed p (bus trans delay) b s le undone c =
    b_transport_cases (λ q. claimed_of q b ≡ true) p trans delay c
      (λ reg. read_register-claimed p reg b s le c)
      (λ reg bytes data_ptr wr mapped.
        write_register-claimed p reg (of_le (take 4 bytes)) b c (λ is_claim same.
          ground (arith, register_at-claim p trans.address (mapped ∙ ap some is_claim))))

run-claimed :
    (p : PlicTlm) (es : List Event) (b : ℕ)
    → IsSized p
    → b ≤ p.n
    → NoneCompletes b es
    → claimed_of p b ≡ true
    → claimed_of (run p es) b ≡ true
unfolding run
run-claimed p [] b s le undone c = c
run-claimed p (e ∷ es) b s le undone c =
    run-claimed (step p e) es b (step-IsSized p e s) (omega (arith, n-step p e)) undone.1
      (step-claimed p e b s le undone.0 c)

-- A claim marks the source that it returns.
do_claim-claimed :
    (p : PlicTlm)
    → IsSized p
    → best_source p ≢ 0
    → (best_source p ≤ p.n) × (claimed_of (do_claim p).1 (best_source p) ≡ true)
unfolding do_claim update_meip
do_claim-claimed p s nz =
    let e = (best_source_lem p).1 nz in
    let inside : best_source p ≤ p.n = (eligible_bounds p (best_source p) e).1 in
    (inside, ground (arith, get_or-set_self p.claimed (best_source p) true false, s.claims))

do_claim-best : (p : PlicTlm) → (do_claim p).0 ≡ best_source p
unfolding do_claim
do_claim-best p = refl

n-do_claim : (p : PlicTlm) → (do_claim p).1.n ≡ p.n
unfolding do_claim update_meip
n-do_claim p = ground arith

do_claim-IsSized : (p : PlicTlm) → IsSized p → IsSized (do_claim p).1
unfolding read_register
do_claim-IsSized p s = read_register-IsSized p claim_reg s

-- A source that a claim returned is not returned by a second claim, whatever transactions and line
-- changes lie between, as long as none of them writes its id to the claim register.
pub claim_exclusive :
    (p : PlicTlm) (es : List Event)
    → IsSized p
    → (do_claim p).0 ≢ 0
    → NoneCompletes (do_claim p).0 es
    → (do_claim (run (do_claim p).1 es)).0 ≢ (do_claim p).0
claim_exclusive p es s nz undone same =
    let nz' : best_source p ≢ 0 = rw (do_claim-best p) at nz in
    let again : best_source (run (do_claim p).1 es) ≡ best_source p =
      sym (do_claim-best _) ∙ same ∙ do_claim-best p in
    let held =
      run-claimed (do_claim p).1 es (best_source p) (do_claim-IsSized p s)
        (rw (n-do_claim p) (do_claim-claimed p s nz').0) (rw (do_claim-best p) at undone)
        (do_claim-claimed p s nz').1 in
    let picked = (best_source_lem (run (do_claim p).1 es)).1 (rw again nz') in
    let blocked = not_eligible-claimed (run (do_claim p).1 es) (best_source p) held in
    cc (again, picked, blocked)

-- Completing the source that a claim returned, before anything else happens, gives back the state
-- before the claim.
pub complete-claim :
    (p : PlicTlm)
    → IsSized p
    → (do_claim p).0 ≢ 0
    → write_register (do_claim p).1 claim_reg (do_claim p).0 ≡ update_meip p
unfolding do_claim write_register update_meip
complete-claim p s nz =
    rw (claims, in_table, back) (ap (λ l. record p { irq = l }) (any_eligible-irq p _))
  where
    b : ℕ
    b = best_source p

    picked : eligible p b ≡ true
    picked = (best_source_lem p).1 nz

    claims : (b == 0) ≡ false
    claims = ground (arith, nz)

    in_table : (leb 1 b && leb b p.n) ≡ true
    in_table = ground (arith, eligible_bounds p b picked)

    back : set (set p.claimed b true) b false ≡ p.claimed
    back =
        set-set_back p.claimed b true false false
          (omega (arith, eligible_bounds p b picked, s.claims)) (not_claimed-eligible p b picked)
