-- ===== src/Net/Lifecycle/Laws.antt =====
-- A network device of driver/net/device.c from its allocation to its end, and the buffers that the
-- drivers accept.
use driver_arinc.Prelude.{
  ℕ, ◌⊎◌, ◌+◌, ◌≡◌, ◌≢◌, refl, Bool, true, false, Option, none, some, Result, ok, err, arith,
}
use driver_arinc.Net.Lifecycle.{
  NetDev, Registry, SkBuff, eth_p_avionics, avionics_device_alloc, avionics_device_priv,
  avionics_device_register, avionics_device_unregister, avionics_device_free, protocol_init_skb,
  protocol_alloc_send_skb, avionics_device_alloc_skb,
}

module _ {Private Ops : Type 0} where
  -- A driver gets a device exactly where it has functions and memory is there. The device has the
  -- driver's private data and functions, while a device of another type has no private data;
  -- whatever its registration answers, the answer is passed on, and what unregisters and frees it
  -- gives back exactly what was taken.
  pub device_lifecycle :
      (room : Bool) (zeros : Private) (given : Option Ops) (registered : Result (Unit {0}))
      (r : Registry)
      → let (made, r1) = avionics_device_alloc room zeros given r in
        (given ≡ none → made ≡ none)
        × (room ≡ false → made ≡ none)
        × (room ≡ true → given ≢ none → made ≢ none)
        × (made ≡ none → r1 ≡ r)
        × ((dev : NetDev Private Ops)
            → made ≡ some dev
            → let (answer, s) = avionics_device_register registered (dev, r1) in
              (avionics_device_priv dev ≡ some zeros)
              × ((type : ℕ) → type ≢ 281 → avionics_device_priv (record dev { type = type }) ≡ none)
              × (dev.ops ≡ given)
              × (answer ≡ registered)
              × (s.1.registered
                  ≡ (elim registered [ ok _ ↦ r.registered + 1 | err _ ↦ r.registered ]))
              × (avionics_device_free s.0 (avionics_device_unregister s.0 s.1) ≡ r))
  unfolding avionics_device_alloc avionics_device_priv avionics_device_register
      avionics_device_unregister avionics_device_free
  device_lifecycle room zeros none registered r =
      (λ h. refl, λ h. refl, λ h some_ops. absurd (some_ops refl), λ h. refl, λ dev h. cc)
  device_lifecycle false zeros (some ops) registered r =
      (λ h. cc, λ h. refl, λ h some_ops. cc, λ h. refl, λ dev h. cc)
  device_lifecycle true zeros (some ops) (ok x) r = (
    λ h. cc,
    λ h. cc,
    λ h some_ops none_made. cc,
    λ h. cc,
    λ dev h. (
      ground (arith, h),
      λ type other. ground arith,
      ground (arith, h),
      refl,
      refl,
      ground (arith, h),
    ),
  )
  device_lifecycle true zeros (some ops) (err e) r = (
    λ h. cc,
    λ h. cc,
    λ h some_ops none_made. cc,
    λ h. cc,
    λ dev h. (
      ground (arith, h),
      λ type other. ground arith,
      ground (arith, h),
      refl,
      refl,
      ground (arith, h),
    ),
  )

-- A buffer that a sending socket or a receiving device allocates has the protocol of the drivers, so
-- that none of them drops it for its protocol, and is marked for its device.
pub allocated_protocol :
    (allocated : Result (Unit {0})) (room : Bool) (dev sk priority size : ℕ) (skb : SkBuff)
    → (protocol_alloc_send_skb allocated dev sk priority ≡ some skb)
      ⊎ (avionics_device_alloc_skb room dev size ≡ some skb)
    → (skb.protocol ≡ eth_p_avionics) × (skb.dev ≡ dev)
unfolding protocol_alloc_send_skb avionics_device_alloc_skb protocol_init_skb
allocated_protocol allocated room dev sk priority size skb h = ground arith
