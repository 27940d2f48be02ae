-- ===== src/Net/Family.antt =====
-- driver/net/avionics.c: the socket family, the packets that the devices receive, and the start and
-- the end of the module.
pub mod Delivery
pub mod Startup
use driver_arinc.Prelude.{
  ℕ, ◌-◌, Bool, true, false, not, Option, none, some, ◌==◌, if◌then◌else◌, Result, Errno, ok, err,
  eafnosupport, eprotonosupport, enomem, Step, pure, fail, ◌>>=◌, ◌>>◌, modify,
}
use driver_arinc.Net.{SocketInfo, NetDevice, Packet, Net}
use driver_arinc.Net.Sockets.{socket_list_add, socket_list_remove, socket_list_rx_funcs}
use driver_arinc.Net.Protocol.{protocol_rx}

-- `dev->type == ARPHRD_AVIONICS`
unfoldable pub is_avionics_device : (dev : ℕ) → Net → Bool
is_avionics_device dev n = elim (n.devices dev) [ none ↦ false | some d ↦ d.is_avionics ]

-- `kfree_skb` and `consume_skb`
unfoldable pub free_skb : Net → Net
free_skb n = record n { skbs = n.skbs - 1 }

-- What the kernel answers for a socket: whether the packet can be copied, and what the socket's
-- queue returns.
pub record RxAnswers : Type 0 where
  pub clone : (sk : ℕ) → Bool
  pub queued : (sk : ℕ) → Result (Unit {0})

-- A call of an entry's `rx_func`: number 0 is `protocol_rx`, and no other function is registered.
unfoldable pub call_rx_func : RxAnswers → (dev : ℕ) → Packet → SocketInfo → Net → Net
call_rx_func a dev packet info n =
    if info.rx_func == 0
    then protocol_rx (a.clone info.sk) (a.queued info.sk) dev packet info.sk n
    else n

-- `true` is NET_RX_SUCCESS, `false` is NET_RX_DROP.
unfoldable pub avionics_packet_rx :
    (in_namespace : Bool) → RxAnswers → (dev : ℕ) → Packet → Net → Bool × Net
avionics_packet_rx in_namespace a dev packet n =
    let (r, n1) = socket_list_rx_funcs dev (call_rx_func a dev packet) n in
    if not in_namespace
    then (false, free_skb n)
    else if not (is_avionics_device dev n)
    then (false, free_skb n)
    else elim r [ ok _ ↦ (true, free_skb n1) | err _ ↦ (false, free_skb n1) ]

pub data NetdevEvent : Type 0 where
  netdev_register netdev_unregister other_event : NetdevEvent

-- `room` tells whether a socket list can be allocated; its failure is not reported.
unfoldable pub avionics_netdev_notifier :
    (in_namespace room : Bool) (msg : NetdevEvent) (dev : ℕ) → Net → Net
avionics_netdev_notifier in_namespace room msg dev n =
    if not in_namespace then n else if not (is_avionics_device dev n) then n else elim msg [
      | NetdevEvent.netdev_register ↦ (socket_list_add room dev n).1
      | NetdevEvent.netdev_unregister ↦ socket_list_remove dev n
      | NetdevEvent.other_event ↦ n
    ]

-- What the module has registered or allocated.
pub record Resources : Type 0 where
  pub socket_list_cache : Bool
  pub netlink : Bool
  pub raw_protocol : Bool
  pub socket_family : Bool
  pub notifier : Bool
  pub packet_type : Bool

-- A registration that returns 0 or an error.
unfoldable pub register : Result (Unit {0}) → (Resources → Resources) → Step Resources (Unit {0})
register (ok _) set r = (ok tt, set r)
register (err e) set r = (err e, r)

unfoldable pub socket_list_exit : Resources → Resources
socket_list_exit r = record r { socket_list_cache = false }

unfoldable pub device_netlink_unregister : Resources → Resources
device_netlink_unregister r = record r { netlink = false }

unfoldable pub protocol_raw_unregister : Resources → Resources
protocol_raw_unregister r = record r { raw_protocol = false }

unfoldable pub sock_unregister : Resources → Resources
sock_unregister r = record r { socket_family = false }

-- A registration that undoes the earlier ones where it fails.
unfoldable pub or_undo :
    (Resources → Resources) → Step Resources (Unit {0}) → Step Resources (Unit {0})
or_undo undo m r =
    let (result, r') = m r in elim result [ ok _ ↦ (ok tt, r') | err e ↦ (err e, undo r') ]

-- What the five registrations return.
pub record InitAnswers : Type 0 where
  pub socket_list : Result (Unit {0})
  pub netlink : Result (Unit {0})
  pub raw : Result (Unit {0})
  pub family : Result (Unit {0})
  pub notifier : Result (Unit {0})

unfoldable pub avionics_init : InitAnswers → Step Resources (Unit {0})
avionics_init a = do
  register a.socket_list (λ r. record r { socket_list_cache = true })
  or_undo socket_list_exit (register a.netlink (λ r. record r { netlink = true }))
  or_undo (λ r. socket_list_exit (device_netlink_unregister r))
      (register a.raw (λ r. record r { raw_protocol = true }))
  or_undo (λ r. socket_list_exit (protocol_raw_unregister (device_netlink_unregister r)))
      (register a.family (λ r. record r { socket_family = true }))
  or_undo
      (λ r.
        socket_list_exit (protocol_raw_unregister (sock_unregister (device_netlink_unregister r))))
      (register a.notifier (λ r. record r { notifier = true }))
  modify (λ r. record r { packet_type = true })

-- `unregistered` is what `unregister_netdevice_notifier` returns; an error is only reported.
unfoldable pub avionics_exit : (unregistered : Result (Unit {0})) → Resources → Resources
avionics_exit unregistered r =
    let r1 = record r { packet_type = false } in
    let r2 : Resources = elim unregistered [ ok _ ↦ record r1 { notifier = false } | err _ ↦ r1 ] in
    socket_list_exit (protocol_raw_unregister (device_netlink_unregister (sock_unregister r2)))

-- The protocol that a socket is created with.
pub data ProtocolOps : Type 0 where
  raw_ops timestamp_ops : ProtocolOps

unfoldable pub ops_of : (protocol : ℕ) → Result ProtocolOps
ops_of protocol =
    if protocol == 1
    then ok ProtocolOps.raw_ops
    else if protocol == 2
    then ok ProtocolOps.timestamp_ops
    else err eprotonosupport

-- The operations of the new socket; neither protocol has an `init` function.
unfoldable pub avionics_sock_create : (in_namespace room : Bool) (protocol : ℕ) → Result ProtocolOps
avionics_sock_create in_namespace room protocol =
    if in_namespace
    then elim (ops_of protocol) [ ok ops ↦ if room then ok ops else err enomem | err e ↦ err e ]
    else err eafnosupport
