-- ===== src/Net/Protocol.antt =====
-- driver/net/protocol.c: what the two protocols share. The socket lock makes the operations on one
-- socket follow one another; it does not appear.
pub mod References
pub mod Binding
use driver_arinc.Prelude.{
  ℕ, ◌+◌, ◌-◌, Bool, true, false, not, ◌&&◌, List, [], ◌∷◌, ◌++◌, Option, none, some, ltb, ◌==◌,
  if◌then◌else◌, Result, ok, err, einval, enodev, enxio, enetdown, emsgsize, eopnotsupp, Step, pure,
  fail, ◌>>=◌, ◌>>◌, modify, require,
}
use driver_arinc.Net.{SocketInfo, NetDevice, Packet, ProtocolSock, Net, update}
use driver_arinc.Net.Sockets.{socket_list_add_socket, socket_list_remove_socket}

-- `struct sockaddr_avionics`, and the length that comes with it.
pub record Address : Type 0 where
  pub len : ℕ
  -- `addr->avionics_family == AF_AVIONICS`
  pub is_avionics_family : Bool
  pub ifindex : ℕ

-- `sizeof(struct sockaddr_avionics)`: a 16-bit family and a 32-bit index at offset 4.
abbrev pub address_size : ℕ
address_size = 8

-- The entry of a socket: `protocol_rx`, the one receive function that is registered, is number 0.
abbrev pub entry_of : (sk : ℕ) → SocketInfo
entry_of sk = record { rx_func = 0; sk = sk }

unfoldable pub set_refs : (ℕ → ℕ) → (dev : ℕ) → Net → Net
set_refs f dev n = elim (n.devices dev) [
  | none ↦ n
  | some d ↦ record n { devices = update dev (some (record d { refs = f d.refs })) n.devices }
]

-- `dev_put`
abbrev pub dev_put : (dev : ℕ) → Net → Net
dev_put = set_refs (λ r. r - 1)

-- `dev_get_by_index`, which takes a reference to the device.
unfoldable pub dev_get_by_index : (ifindex : ℕ) → Net → Option NetDevice × Net
dev_get_by_index ifindex n = (n.devices ifindex, set_refs (λ r. r + 1) ifindex n)

-- The interface index of a message: its name's, or the socket's.
unfoldable pub ifindex_of : ProtocolSock → Option Address → Result ℕ
ifindex_of psk none = ok psk.ifindex
ifindex_of psk (some addr) =
    if ltb addr.len address_size
    then err einval
    else if addr.is_avionics_family
    then ok addr.ifindex
    else err einval

-- The tests on a device that was found; each failure gives the reference back.
unfoldable pub check_device : (size ifindex : ℕ) → Option NetDevice → Step Net ℕ
check_device size ifindex none n = (err enxio, n)
check_device size ifindex (some d) n =
    if not d.is_avionics
    then (err enodev, dev_put ifindex n)
    else if not d.is_up
    then (err enetdown, dev_put ifindex n)
    else if ltb d.mtu size
    then (err emsgsize, dev_put ifindex n)
    else (ok ifindex, n)

unfoldable pub protocol_get_dev_from_msg : (sk : ℕ) (name : Option Address) (size : ℕ) → Step Net ℕ
protocol_get_dev_from_msg sk name size n = elim (ifindex_of (n.socks sk) name) [
  | err e ↦ (err e, n)
  | ok ifindex ↦ let (d, n1) = dev_get_by_index ifindex n in check_device size ifindex d n1
]

-- `dev_queue_xmit` takes the buffer whatever it answers; `queued` is its answer as
-- `net_xmit_errno` maps it.
unfoldable pub queue_xmit : Packet → (dev : ℕ) → Net → Net
queue_xmit packet dev n = record n { skbs = n.skbs - 1; sent = (dev, packet) ∷ n.sent }

-- A device that is not there does not occur: the caller holds a reference to it.
unfoldable pub protocol_send_to_netdev :
    (queued : Result (Unit {0})) (dev : ℕ) → Packet → Step Net (Unit {0})
protocol_send_to_netdev queued dev packet n = elim (n.devices dev) [
  | none ↦ (err enodev, n)
  | some d ↦
      if d.can_transmit then (queued, dev_put dev (queue_xmit packet dev n)) else (err enodev, n)
]

-- The name of a socket, and its size.
unfoldable pub protocol_getname : (sk : ℕ) (peer : Bool) → Step Net Address
protocol_getname sk peer n = if peer then (err eopnotsupp, n) else (
  ok (record { len = address_size; is_avionics_family = true; ifindex = (n.socks sk).ifindex }),
  n,
)

unfoldable pub set_sock : (sk : ℕ) → ProtocolSock → Net → Net
set_sock sk s n = record n { socks = update sk s n.socks }

-- `protocol_rx`: a copy of the packet with the device's index goes to the socket's queue, where the
-- copy can be made and the queue takes it. The copy is in use until it is in the queue or freed.
unfoldable pub protocol_rx :
    (clone : Bool) (queued : Result (Unit {0})) (dev : ℕ) → Packet → (sk : ℕ) → Net → Net
protocol_rx clone queued dev packet sk n =
    let s = n.socks sk in
    let copy = record packet { ifindex = dev } in
    let n1 = record n { skbs = n.skbs + 1 } in
    let put = set_sock sk (record s { receive_queue = s.receive_queue ++ copy ∷ [] }) n1 in
    if clone then record (elim queued [ ok _ ↦ put | err _ ↦ n1 ]) { skbs = n1.skbs - 1 } else n

-- The part of `protocol_release` that concerns the device.
unfoldable pub leave_device : (sk ifindex : ℕ) → Net → Net
leave_device sk ifindex n =
    let (d, n1) = dev_get_by_index ifindex n in
    elim d [
      | none ↦ n1
      | some _ ↦ dev_put ifindex (socket_list_remove_socket ifindex (entry_of sk) n1)
    ]

unfoldable pub clear_sock : (sk : ℕ) → Net → Net
clear_sock sk n =
    set_sock sk (record (n.socks sk) { ifindex = 0; bound = false; is_released = true }) n

-- The result is 1 for a socket that was released before.
unfoldable pub protocol_release : (sk : ℕ) → Net → ℕ × Net
protocol_release sk n =
    let s = n.socks sk in
    if s.is_released then (1, n) else (0, clear_sock sk (leave_device sk s.ifindex n))

-- A socket that was added to its device's list is bound; it is told where the device is down.
unfoldable pub bind_sock : (sk ifindex : ℕ) → NetDevice → Net → Net
bind_sock sk ifindex d n =
    let s = n.socks sk in
    set_sock sk
      (record s { ifindex = ifindex; bound = true; is_down = if d.is_up then s.is_down else true })
      n

-- From the device that was found on.
unfoldable pub bind_device : (room : Bool) (sk ifindex : ℕ) → Option NetDevice → Step Net (Unit {0})
bind_device room sk ifindex none n = (err enodev, n)
bind_device room sk ifindex (some d) n =
    let (added, n1) = socket_list_add_socket room ifindex (entry_of sk) n in
    if not d.is_avionics then (err enodev, dev_put ifindex n) else elim added [
      | err _ ↦ (err enodev, dev_put ifindex n1)
      | ok _ ↦ (ok tt, dev_put ifindex (bind_sock sk ifindex d n1))
    ]

-- `room` tells whether the socket's entry can be allocated.
unfoldable pub protocol_bind : (room : Bool) (sk : ℕ) → Address → Step Net (Unit {0})
protocol_bind room sk addr n =
    let s = n.socks sk in
    let (d, n1) = dev_get_by_index addr.ifindex n in
    if not (addr.len == address_size)
    then (err einval, n)
    else if addr.ifindex == 0
    then (err einval, n)
    else if s.bound && (addr.ifindex == s.ifindex)
    then (ok tt, n)
    else bind_device room sk addr.ifindex d n1
