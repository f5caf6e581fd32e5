-- ===== src/Device.antt =====
-- What it means that a device is mapped behind a bus, as the platforms bind components to the router.
use cdc_vp.Base.{ℕ, ◌+◌, ◌-◌, ◌≤◌, ◌<◌, ◌≡◌, ◌∙◌, ap, length}
use cdc_vp.Tlm.{Payload, SimTime, set_address}
use cdc_vp.Router.{BusRouter, range_at, b_transport}
use cdc_vp.Router.Decode.{IsMap}
use cdc_vp.Router.Transport.{b_transport_forwards}

-- A part of a world.
pub record Part (W D : Type 0) : Type 0 where
  pub get : W → D
  pub put : W → D → W
  pub get-put : (w : W) (x : D) → get (put w x) ≡ x
  pub put-get : (w : W) → put w (get w) ≡ w
  pub put-put : (w : W) (x y : D) → put (put w x) y ≡ put w y

-- A blocking transport: of a device, or of a bus.
abbrev pub Transport : Type 0 → Type 0
Transport D = D → Payload → SimTime → D × Payload × SimTime

-- Transactions on the region go to the device, at addresses local to it, and touch nothing else.
pub record Serves {W D : Type 0} (bus : Transport W) (device : Transport D) (part : Part W D)
    (base size : ℕ) : Type 0 where
  pub serve :
      (w : W) (trans : Payload) (delay : SimTime)
      → base ≤ trans.address
      → trans.address < base + size
      → let (x, t, d) = device (part.get w) (set_address trans (trans.address - base)) delay in
        bus w trans delay ≡ (part.put w x, set_address t trans.address, d)

-- A device that is bound to a socket of the router is served in the region of that socket.
pub router-Serves :
    {W D : Type 0} (targets : ℕ → Transport W) (device : Transport D) (part : Part W D)
    (r : BusRouter) (idx : ℕ)
    → ((w : W) (trans : Payload) (delay : SimTime)
        → targets idx w trans delay
          ≡ (let (x, t, d) = device (part.get w) trans delay in (part.put w x, t, d)))
    → IsMap r.ranges
    → idx < length r.ranges
    → Serves (b_transport targets r) device part (range_at r idx).base (range_at r idx).size
router-Serves targets device part r idx bound m h = record {
  serve = λ w trans delay low high.
      b_transport_forwards targets r w trans delay idx m h (low, high)
      ∙ ap (λ u. (u.0, set_address u.1 trans.address, u.2))
          (bound w (set_address trans (trans.address - (range_at r idx).base)) delay);
}
