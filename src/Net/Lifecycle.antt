-- ===== src/Net/Lifecycle.antt =====
-- driver/net/device.c: network devices from their allocation to their end, and the buffers of
-- packets, which driver/net/protocol.c sets up.
pub mod Laws
use driver_arinc.Prelude.{
  ℕ, ◌+◌, ◌-◌, Bool, true, false, Option, none, some, ◌==◌, if◌then◌else◌, Result, ok, err,
  enoioctlcmd, Step, pure, modify,
}

abbrev pub arphrd_avionics : ℕ
arphrd_avionics = 281

abbrev pub eth_p_avionics : ℕ
eth_p_avionics = 0x001d

-- What device.c sets of a `struct net_device`, with the private data of its driver behind
-- `struct device_priv`. `is_linked` tells whether `dev->rtnl_link_ops` is `device_link_ops`.
pub record NetDev (Private Ops : Type 0) : Type 0 where
  pub type : ℕ
  pub mtu : ℕ
  pub hard_header_len : ℕ
  pub addr_len : ℕ
  pub tx_queue_len : ℕ
  pub no_arp : Bool
  pub hw_csum : Bool
  pub is_linked : Bool
  pub ops : Option Ops
  pub private : Private

-- How many network devices the kernel has allocated and registered for the drivers.
pub record Registry : Type 0 where
  pub allocated : ℕ
  pub registered : ℕ

module _ {Private Ops : Type 0} where
  unfoldable pub device_setup : NetDev Private Ops → NetDev Private Ops
  device_setup dev = record dev {
    type = arphrd_avionics;
    mtu = 4;
    hard_header_len = 0;
    addr_len = 0;
    tx_queue_len = 10;
    no_arp = true;
    hw_csum = true;
  }

  -- What `alloc_netdev` allocates, with zeros in it.
  abbrev pub blank : (zeros : Private) → NetDev Private Ops
  blank zeros = record {
    type = 0;
    mtu = 0;
    hard_header_len = 0;
    addr_len = 0;
    tx_queue_len = 0;
    no_arp = false;
    hw_csum = false;
    is_linked = false;
    ops = none;
    private = zeros;
  }

  -- `room` tells whether `alloc_netdev` succeeds, which calls `device_setup`.
  unfoldable pub avionics_device_alloc :
      (room : Bool) (zeros : Private)
      → Option Ops
      → Registry
      → Option (NetDev Private Ops) × Registry
  unfolding device_setup
  avionics_device_alloc room zeros none r = (none, r)
  avionics_device_alloc room zeros (some ops) r =
      if room
      then (
        some (record (device_setup (blank zeros)) { ops = some ops }),
        record r { allocated = r.allocated + 1 },
      )
      else (none, r)

  unfoldable pub avionics_device_priv : NetDev Private Ops → Option Private
  avionics_device_priv dev = if dev.type == arphrd_avionics then some dev.private else none

  -- `registered` is what `register_netdev` returns.
  unfoldable pub avionics_device_register :
      (registered : Result (Unit {0})) → Step (NetDev Private Ops × Registry) (Unit {0})
  avionics_device_register (ok _) (dev, r) =
      (ok tt, (record dev { is_linked = true }, record r { registered = r.registered + 1 }))
  avionics_device_register (err e) s = (err e, s)

  -- A device that is not registered is only reported.
  unfoldable pub avionics_device_unregister : NetDev Private Ops → Registry → Registry
  avionics_device_unregister dev r =
      if dev.is_linked then record r { registered = r.registered - 1 } else r

  unfoldable pub avionics_device_free : NetDev Private Ops → Registry → Registry
  avionics_device_free dev r = record r { allocated = r.allocated - 1 }

-- What the code sets of a `struct sk_buff`. `is_checked` is CHECKSUM_UNNECESSARY, and `is_for_host` is
-- PACKET_HOST.
pub record SkBuff : Type 0 where
  pub dev : ℕ
  pub protocol : ℕ
  pub is_checked : Bool
  pub is_for_host : Bool
  pub len : ℕ
  pub sk : Option ℕ
  pub priority : ℕ

unfoldable pub protocol_init_skb : (dev : ℕ) → SkBuff → SkBuff
protocol_init_skb dev skb = record skb {
  dev = dev;
  protocol = eth_p_avionics;
  is_checked = true;
  is_for_host = true;
}

-- A buffer that the kernel has just allocated.
abbrev pub new_skb : SkBuff
new_skb = record {
  dev = 0;
  protocol = 0;
  is_checked = false;
  is_for_host = true;
  len = 0;
  sk = none;
  priority = 0;
}

-- `allocated` is what `sock_alloc_send_skb` returns; its error is not passed on.
unfoldable pub protocol_alloc_send_skb :
    (allocated : Result (Unit {0})) (dev sk sk_priority : ℕ) → Option SkBuff
unfolding protocol_init_skb
protocol_alloc_send_skb (ok _) dev sk sk_priority =
    some (record (protocol_init_skb dev new_skb) { sk = some sk; priority = sk_priority })
protocol_alloc_send_skb (err e) dev sk sk_priority = none

-- `room` tells whether `alloc_skb` succeeds.
unfoldable pub avionics_device_alloc_skb : (room : Bool) (dev size : ℕ) → Option SkBuff
unfolding protocol_init_skb
avionics_device_alloc_skb room dev size =
    if room then some (record (protocol_init_skb dev new_skb) { len = size }) else none

-- The kernel before version 5.2 has a command for the time of a packet, to which `sock_get_timestamp`
-- returns `stamp`; later ones have none.
unfoldable pub protocol_ioctl : (siocgstamp : Option ℕ) (stamp : Result ℕ) (cmd : ℕ) → Result ℕ
protocol_ioctl none stamp cmd = err enoioctlcmd
protocol_ioctl (some siocgstamp) stamp cmd = if cmd == siocgstamp then stamp else err enoioctlcmd
