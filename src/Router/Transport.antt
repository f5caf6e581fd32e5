-- ===== src/Router/Transport.antt =====
-- What a transaction sees of the router, for any targets behind it.
use cdc_vp.Base.{ℕ, ◌-◌, ◌<◌, ◌≡◌, none, length, Option-cases, inl, inr, arith}
use cdc_vp.Tlm.{Payload, SimTime, address_error, respond, set_address}
use cdc_vp.Range.{InRange}
use cdc_vp.Router.{BusRouter, decode, range_at, local_address, b_transport, transport_dbg}
use cdc_vp.Router.Decode.{IsMap, IsMap-below, decode-IsMap}

-- The subtraction of a region's base does not wrap, and the local address is inside the region.
pub local_address_lem :
    (r : BusRouter) (idx addr : ℕ)
    → IsMap r.ranges
    → idx < length r.ranges
    → InRange (range_at r idx) addr
    → (local_address r idx addr ≡ addr - (range_at r idx).base)
      × (local_address r idx addr < (range_at r idx).size)
local_address_lem r idx addr m h n = omega (arith, IsMap-below r.ranges idx m h)

module _ {ℓ} {World : Type ℓ}
    (targets : ℕ → World → Payload → SimTime → World × Payload × SimTime) where
  -- A transaction on a mapped address reaches exactly the target of its region, at the address
  -- less the region's base; its state, response, data and delay come back unchanged, with the
  -- address put back.
  pub b_transport_forwards :
      (r : BusRouter) (w : World) (trans : Payload) (delay : SimTime) (idx : ℕ)
      → IsMap r.ranges
      → idx < length r.ranges
      → InRange (range_at r idx) trans.address
      → let (w', t', delay') =
          targets idx w (set_address trans (trans.address - (range_at r idx).base)) delay in
        b_transport targets r w trans delay ≡ (w', set_address t' trans.address, delay')
  unfolding b_transport
  b_transport_forwards r w trans delay idx m h n = rw (
    decode-IsMap r idx trans.address m h n,
    b_transport,
    (local_address_lem r idx trans.address m h n).0,
  )

  -- A transaction changes nothing or does what a target does with a transaction.
  pub b_transport_cases {κ} :
      (P : World → Type κ) (r : BusRouter) (w : World) (trans : Payload) (delay : SimTime)
      → P w
      → ((idx : ℕ) (t : Payload) → P (targets idx w t delay).0)
      → P (b_transport targets r w trans delay).0
  unfolding b_transport
  b_transport_cases P r w trans delay same reached = elim (Option-cases (decode r trans.address)) [
    | inl unmapped ↦ rw (unmapped, b_transport) same
    | inr (idx, mapped) ↦
        rw (mapped, b_transport)
          (reached idx (set_address trans (local_address r idx trans.address)))
  ]

  -- Whatever the targets do, the initiator finds its address unchanged.
  pub address-b_transport :
      (r : BusRouter) (w : World) (trans : Payload) (delay : SimTime)
      → (b_transport targets r w trans delay).1.address ≡ trans.address
  unfolding b_transport
  address-b_transport r w trans delay = elim (Option-cases (decode r trans.address)) [
    | inl e ↦ rw (e, b_transport)
    | inr (idx, e) ↦ rw (e, b_transport)
  ]

  -- A transaction on an address of no region touches no target and costs no time: it only gets
  -- the response `TLM_ADDRESS_ERROR_RESPONSE`.
  pub b_transport_unmapped :
      (r : BusRouter) (w : World) (trans : Payload) (delay : SimTime)
      → decode r trans.address ≡ none
      → b_transport targets r w trans delay ≡ (w, respond trans address_error, delay)
  unfolding b_transport
  b_transport_unmapped r w trans delay e = rw (e, b_transport)

module _ {ℓ} {World : Type ℓ} (targets : ℕ → World → Payload → World × Payload × ℕ) where
  -- The debug transport is routed as the timed one is.
  pub transport_dbg_forwards :
      (r : BusRouter) (w : World) (trans : Payload) (idx : ℕ)
      → IsMap r.ranges
      → idx < length r.ranges
      → InRange (range_at r idx) trans.address
      → let (w', t', n) =
          targets idx w (set_address trans (trans.address - (range_at r idx).base)) in
        transport_dbg targets r w trans ≡ (w', set_address t' trans.address, n)
  unfolding transport_dbg
  transport_dbg_forwards r w trans idx m h n = rw (
    decode-IsMap r idx trans.address m h n,
    transport_dbg,
    (local_address_lem r idx trans.address m h n).0,
  )
