-- ===== src/Net/Protocol/References.antt =====
-- The references to the devices that the operations of driver/net/protocol.c take and give back.
use driver_arinc.Prelude.{
  ℕ, ◌+◌, ◌-◌, ◌≡◌, refl, Bool, true, false, Option, none, some, Option-cases, inl, inr, ◌==◌,
  if◌then◌else◌, value_or, ok, err, arith,
}
use driver_arinc.Net.{SocketInfo, SocketList, NetDevice, ProtocolSock, Net}
use driver_arinc.Net.Sockets.{set_list, socket_list_add_socket, socket_list_remove_socket}
use driver_arinc.Net.Protocol.{
  Address, set_refs, dev_put, dev_get_by_index, ifindex_of, check_device, protocol_get_dev_from_msg,
  set_sock, leave_device, clear_sock, protocol_release, bind_sock, bind_device, protocol_bind,
  entry_of,
}

-- The reference count of a device.
unfoldable pub refs_of : (dev : ℕ) → Net → ℕ
refs_of dev n = elim (n.devices dev) [ none ↦ 0 | some d ↦ d.refs ]

unfoldable pub has_device : (dev : ℕ) → Net → Bool
has_device dev n = elim (n.devices dev) [ none ↦ false | some d ↦ true ]

pub set_list-frame :
    (i dev : ℕ) (l : Option SocketList) (n : Net)
    → (refs_of i (set_list dev l n) ≡ refs_of i n)
      × (has_device i (set_list dev l n) ≡ has_device i n)
unfolding refs_of has_device set_list
set_list-frame i dev l n = ground arith

pub lock-frame :
    (i : ℕ) (held : Bool) (n : Net)
    → (refs_of i (record n { lock_held = held }) ≡ refs_of i n)
      × (has_device i (record n { lock_held = held }) ≡ has_device i n)
unfolding refs_of has_device
lock-frame i held n = (refl, refl)

pub set_sock-frame :
    (i sk : ℕ) (s : ProtocolSock) (n : Net)
    → (refs_of i (set_sock sk s n) ≡ refs_of i n)
      × (has_device i (set_sock sk s n) ≡ has_device i n)
unfolding refs_of has_device set_sock
set_sock-frame i sk s n = (refl, refl)

pub set_refs-refs :
    (i dev : ℕ) (f : ℕ → ℕ) (n : Net)
    → has_device dev n ≡ true
    → (refs_of i (set_refs f dev n) ≡ (if i == dev then f (refs_of i n) else refs_of i n))
      × (has_device i (set_refs f dev n) ≡ has_device i n)
unfolding refs_of has_device set_refs
set_refs-refs i dev f n h = ground arith

set_refs-none : (dev : ℕ) (f : ℕ → ℕ) (n : Net) → has_device dev n ≡ false → set_refs f dev n ≡ n
unfolding has_device set_refs
set_refs-none dev f n h = ground arith

-- The test for a device is the one that the code makes on the pointer.
has_device_iff :
    (dev : ℕ) (n : Net) → has_device dev n ≡ elim (n.devices dev) [ none ↦ false | some d ↦ true ]
unfolding has_device
has_device_iff dev n = refl

add_socket-frame :
    (room : Bool) (i dev : ℕ) (a : SocketInfo) (n : Net)
    → let n' = (socket_list_add_socket room dev a n).1 in
      (refs_of i n' ≡ refs_of i n) × (has_device i n' ≡ has_device i n)
unfolding socket_list_add_socket
add_socket-frame room i dev a n = grind (arith, set_list-frame, lock-frame)

remove_socket-frame :
    (i dev : ℕ) (a : SocketInfo) (n : Net)
    → let n' = socket_list_remove_socket dev a n in
      (refs_of i n' ≡ refs_of i n) × (has_device i n' ≡ has_device i n)
unfolding socket_list_remove_socket
remove_socket-frame i dev a n = grind (arith, set_list-frame, lock-frame)

-- A reference that is taken before an operation that keeps the counts and given back after it.
pub get-put :
    (i dev : ℕ) (n n' : Net)
    → has_device dev n ≡ true
    → refs_of i n' ≡ refs_of i (set_refs (λ r. r + 1) dev n)
    → has_device dev n' ≡ has_device dev (set_refs (λ r. r + 1) dev n)
    → refs_of i (dev_put dev n') ≡ refs_of i n
get-put i dev n n' h same there = ground (
  arith,
  set_refs-refs i dev (λ r. r + 1) n h,
  set_refs-refs dev dev (λ r. r + 1) n h,
  set_refs-refs i dev (λ r. r - 1) n',
)

leave_device-refs :
    (sk ifindex i : ℕ) (n : Net) → refs_of i (leave_device sk ifindex n) ≡ refs_of i n
unfolding leave_device dev_get_by_index
leave_device-refs sk ifindex i n =
    let n1 = set_refs (λ r. r + 1) ifindex n in
    ground (
      arith,
      has_device_iff ifindex n,
      set_refs-none ifindex (λ r. r + 1) n,
      remove_socket-frame i ifindex (entry_of sk) n1,
      remove_socket-frame ifindex ifindex (entry_of sk) n1,
      get-put i ifindex n (socket_list_remove_socket ifindex (entry_of sk) n1),
    )

-- Releasing a socket keeps every device's reference count, whether or not there is a device.
pub protocol_release-refs : (sk i : ℕ) (n : Net) → refs_of i (protocol_release sk n).1 ≡ refs_of i n
unfolding protocol_release clear_sock
protocol_release-refs sk i n =
    let n1 = leave_device sk (n.socks sk).ifindex n in
    ground (
      arith,
      leave_device-refs sk (n.socks sk).ifindex i n,
      set_sock-frame i sk (record (n1.socks sk) { ifindex = 0; bound = false; is_released = true })
          n1,
    )

bind_sock-frame :
    (i sk ifindex : ℕ) (d : NetDevice) (n : Net)
    → (refs_of i (bind_sock sk ifindex d n) ≡ refs_of i n)
      × (has_device i (bind_sock sk ifindex d n) ≡ has_device i n)
unfolding bind_sock refs_of has_device set_sock
bind_sock-frame i sk ifindex d n = (refl, refl)

bind_device-none :
    (room : Bool) (sk ifindex : ℕ) (n : Net) → (bind_device room sk ifindex none n).1 ≡ n
unfolding bind_device
bind_device-none room sk ifindex n = refl

bind_device-refs :
    (room : Bool) (sk ifindex i : ℕ) (d : NetDevice) (n : Net)
    → has_device ifindex n ≡ true
    → refs_of i (bind_device room sk ifindex (some d) (set_refs (λ r. r + 1) ifindex n)).1
      ≡ refs_of i n
unfolding bind_device
bind_device-refs room sk ifindex i d n h =
    let n1 = set_refs (λ r. r + 1) ifindex n in
    let n2 = (socket_list_add_socket room ifindex (entry_of sk) n1).1 in
    let n3 = bind_sock sk ifindex d n2 in
    ground (
      arith,
      add_socket-frame room i ifindex (entry_of sk) n1,
      add_socket-frame room ifindex ifindex (entry_of sk) n1,
      bind_sock-frame i sk ifindex d n2,
      bind_sock-frame ifindex sk ifindex d n2,
      get-put i ifindex n n1 h refl refl,
      get-put i ifindex n n2 h,
      get-put i ifindex n n3 h,
    )

-- Binding a socket keeps every device's reference count, on every branch: a wrong address, a
-- missing or foreign device, no memory, and success.
pub protocol_bind-refs :
    (room : Bool) (sk i : ℕ) (addr : Address) (n : Net)
    → refs_of i (protocol_bind room sk addr n).1 ≡ refs_of i n
unfolding protocol_bind dev_get_by_index
protocol_bind-refs room sk i addr n = elim (Option-cases (n.devices addr.ifindex)) [
  | inl r ↦ ground (
    arith,
    r,
    has_device_iff addr.ifindex n,
    set_refs-none addr.ifindex (λ r. r + 1) n,
    bind_device-none room sk addr.ifindex n,
  )
  | inr (d, r) ↦
      ground (arith, r, has_device_iff addr.ifindex n, bind_device-refs room sk addr.ifindex i d n)
]

-- A message's device is referenced once more where it is found and its tests succeed, and the
-- counts are kept on every error.
pub protocol_get_dev_from_msg-refs :
    (sk size i : ℕ) (name : Option Address) (n : Net)
    → let (r, n') = protocol_get_dev_from_msg sk name size n in
      refs_of i n'
      ≡ elim r [ ok dev ↦ if i == dev then refs_of i n + 1 else refs_of i n | err _ ↦ refs_of i n ]
unfolding protocol_get_dev_from_msg check_device dev_get_by_index
protocol_get_dev_from_msg-refs sk size i name n =
    let ifindex = value_or 0 (ifindex_of (n.socks sk) name) in
    let n1 = set_refs (λ r. r + 1) ifindex n in
    ground (
      arith,
      has_device_iff ifindex n,
      set_refs-none ifindex (λ r. r + 1) n,
      set_refs-refs i ifindex (λ r. r + 1) n,
      get-put i ifindex n n1,
    )
