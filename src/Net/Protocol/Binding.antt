-- ===== src/Net/Protocol/Binding.antt =====
-- Which device a socket listens to after protocol_bind and protocol_release of
-- driver/net/protocol.c.
use driver_arinc.Prelude.{
  ℕ, ◌+◌, ◌-◌, ◌≡◌, ◌≢◌, refl, Bool, true, false, ◌&&◌, none, some, Option-cases, inl, inr, ◌==◌,
  if◌then◌else◌, value_or, ok, err, enodev, arith,
}
use driver_arinc.Net.{SocketInfo, NetDevice, ProtocolSock, Net}
use driver_arinc.Net.Sockets.{
  is_entry, get_list, list_of, set_list, empty_list, socket_list_add_socket,
  socket_list_remove_socket,
}
use driver_arinc.Net.Sockets.Invariant.{IsSound, add_socket-IsSound}
use driver_arinc.Net.Sockets.Listens.{listens, add_socket-listens, remove_socket-listens}
use driver_arinc.Net.Protocol.{
  Address, entry_of, set_refs, dev_get_by_index, set_sock, leave_device, clear_sock,
  protocol_release, bind_sock, bind_device, protocol_bind,
}

-- `psk->bound && (ifindex == psk->ifindex)`
abbrev pub is_bound_to : (ifindex : ℕ) → ProtocolSock → Bool
is_bound_to ifindex s = s.bound && (ifindex == s.ifindex)

-- Whether a device takes sockets.
unfoldable pub has_list : (dev : ℕ) → Net → Bool
has_list dev n = elim (get_list dev n) [ ok _ ↦ true | err _ ↦ false ]

set_refs-listens :
    (a : SocketInfo) (i dev : ℕ) (f : ℕ → ℕ) (n : Net)
    → listens a i (set_refs f dev n) ≡ listens a i n
unfolding listens list_of set_refs
set_refs-listens a i dev f n = ground arith

set_refs-has_list : (i dev : ℕ) (f : ℕ → ℕ) (n : Net) → has_list i (set_refs f dev n) ≡ has_list i n
unfolding has_list get_list set_refs
set_refs-has_list i dev f n = ground arith

set_refs-IsSound : (dev : ℕ) (f : ℕ → ℕ) (n : Net) → IsSound n → IsSound (set_refs f dev n)
unfolding IsSound list_of set_refs
set_refs-IsSound dev f n h i list e = h i list (ground arith)

set_sock-listens :
    (a : SocketInfo) (i sk : ℕ) (s : ProtocolSock) (n : Net)
    → listens a i (set_sock sk s n) ≡ listens a i n
unfolding listens list_of set_sock
set_sock-listens a i sk s n = refl

set_sock-has_list :
    (i sk : ℕ) (s : ProtocolSock) (n : Net) → has_list i (set_sock sk s n) ≡ has_list i n
unfolding has_list get_list set_sock
set_sock-has_list i sk s n = refl

set_sock-IsSound : (sk : ℕ) (s : ProtocolSock) (n : Net) → IsSound n → IsSound (set_sock sk s n)
unfolding IsSound list_of set_sock
set_sock-IsSound sk s n h = h

has_list_device : (dev : ℕ) (n : Net) → has_list dev n ≡ true → n.devices dev ≢ none
unfolding has_list get_list
has_list_device dev n h none_there = ground arith

-- A device is left by exactly the socket that leaves it.
leave_device-listens :
    (sk dev i : ℕ) (b : SocketInfo) (n : Net)
    → IsSound n
    → has_list dev n ≡ true
    → listens b i (leave_device sk dev n)
      ≡ (if (i == dev) && is_entry b (entry_of sk) then false else listens b i n)
unfolding leave_device dev_get_by_index has_list
leave_device-listens sk dev i b n sound h =
    let n1 = set_refs (λ r. r + 1) dev n in
    let n2 = socket_list_remove_socket dev (entry_of sk) n1 in
    let list = value_or empty_list (get_list dev n1) in
    ground (
      arith,
      set_refs-has_list dev dev (λ r. r + 1) n,
      set_refs-listens b i dev (λ r. r + 1) n,
      set_refs-listens b i dev (λ r. r - 1) n2,
      remove_socket-listens dev i (entry_of sk) b list n1
          (set_refs-IsSound dev (λ r. r + 1) n sound),
      has_list_device dev n,
    )

bind_sock-listens :
    (a : SocketInfo) (i sk ifindex : ℕ) (d : NetDevice) (n : Net)
    → listens a i (bind_sock sk ifindex d n) ≡ listens a i n
unfolding bind_sock
bind_sock-listens a i sk ifindex d n = set_sock-listens a i sk _ n

bind_device-listens :
    (room : Bool) (sk ifindex i : ℕ) (b : SocketInfo) (d : NetDevice) (n : Net)
    → let (r, n') = bind_device room sk ifindex (some d) (set_refs (λ r. r + 1) ifindex n) in
      r ≡ ok tt
      → listens b i n'
        ≡ (if (i == ifindex) && is_entry b (entry_of sk) then true else listens b i n)
unfolding bind_device
bind_device-listens room sk ifindex i b d n h =
    let n1 = set_refs (λ r. r + 1) ifindex n in
    let added = socket_list_add_socket room ifindex (entry_of sk) n1 in
    let n3 = bind_sock sk ifindex d added.1 in
    ground (
      arith,
      h,
      set_refs-listens b i ifindex (λ r. r + 1) n,
      set_refs-listens b i ifindex (λ r. r - 1) n3,
      bind_sock-listens b i sk ifindex d added.1,
      add_socket-listens room ifindex i (entry_of sk) b n1 added.1,
    )

bind_device-none :
    (room : Bool) (sk ifindex : ℕ) (n : Net) → bind_device room sk ifindex none n ≡ (err enodev, n)
unfolding bind_device
bind_device-none room sk ifindex n = refl

-- A socket that was not bound to a device and whose binding to it succeeds listens to it, and
-- every other pair of a socket and a device is as it was.
pub protocol_bind-listens :
    (room : Bool) (sk i : ℕ) (addr : Address) (b : SocketInfo) (n n' : Net)
    → is_bound_to addr.ifindex (n.socks sk) ≡ false
    → protocol_bind room sk addr n ≡ (ok tt, n')
    → listens b i n'
      ≡ (if (i == addr.ifindex) && is_entry b (entry_of sk) then true else listens b i n)
unfolding protocol_bind dev_get_by_index
protocol_bind-listens room sk i addr b n n' unbound h =
    elim (Option-cases (n.devices addr.ifindex)) [
      | inl r ↦ ground (
        arith,
        h,
        unbound,
        r,
        bind_device-none room sk addr.ifindex (set_refs (λ r. r + 1) addr.ifindex n),
      )
      | inr (d, r) ↦ ground (arith, h, unbound, r, bind_device-listens room sk addr.ifindex i b d n)
    ]

set_sock-sock : (sk : ℕ) (s : ProtocolSock) (n : Net) → (set_sock sk s n).socks sk ≡ s
unfolding set_sock
set_sock-sock sk s n = ground arith

set_refs-socks : (sk dev : ℕ) (f : ℕ → ℕ) (n : Net) → (set_refs f dev n).socks sk ≡ n.socks sk
unfolding set_refs
set_refs-socks sk dev f n = ground arith

add_socket-keeps :
    (room : Bool) (sk dev : ℕ) (a : SocketInfo) (n : Net)
    → let (r, n') = socket_list_add_socket room dev a n in
      (n'.socks sk ≡ n.socks sk) × (r ≡ ok tt → has_list dev n' ≡ true)
unfolding socket_list_add_socket has_list get_list set_list
add_socket-keeps room sk dev a n = (ground arith, λ h. ground arith)

-- The state that a successful binding leaves.
bind_device-binds :
    (room : Bool) (sk ifindex : ℕ) (d : NetDevice) (n : Net)
    → IsSound n
    → let (r, n') = bind_device room sk ifindex (some d) n in
      r ≡ ok tt
      → ((n'.socks sk).ifindex ≡ ifindex)
        × ((n'.socks sk).bound ≡ true)
        × ((n'.socks sk).is_released ≡ (n.socks sk).is_released)
        × (has_list ifindex n' ≡ true)
        × IsSound n'
unfolding bind_device bind_sock
bind_device-binds room sk ifindex d n sound h =
    let added = socket_list_add_socket room ifindex (entry_of sk) n in
    let s = record (added.1.socks sk) {
      ifindex = ifindex;
      bound = true;
      is_down = if d.is_up then (added.1.socks sk).is_down else true;
    } in
    let n2 = set_sock sk s added.1 in
    let sound2 =
      set_refs-IsSound ifindex (λ r. r - 1) n2
        (set_sock-IsSound sk s added.1 (add_socket-IsSound room ifindex (entry_of sk) n sound)) in
    let keeps = add_socket-keeps room sk ifindex (entry_of sk) n in
    let sock = set_refs-socks sk ifindex (λ r. r - 1) n2 in
    let set = set_sock-sock sk s added.1 in
    let lists = set_refs-has_list ifindex ifindex (λ r. r - 1) n2 in
    let lists' = set_sock-has_list ifindex sk s added.1 in
    ground (arith, h, keeps, sock, set, lists, lists', sound2)

-- The state that a successful binding of an unbound socket leaves.
protocol_bind-binds :
    (room : Bool) (sk : ℕ) (addr : Address) (n n' : Net)
    → IsSound n
    → is_bound_to addr.ifindex (n.socks sk) ≡ false
    → protocol_bind room sk addr n ≡ (ok tt, n')
    → ((n'.socks sk).ifindex ≡ addr.ifindex)
      × ((n'.socks sk).is_released ≡ (n.socks sk).is_released)
      × (has_list addr.ifindex n' ≡ true)
      × IsSound n'
unfolding protocol_bind dev_get_by_index
protocol_bind-binds room sk addr n n' sound unbound h =
    let n1 = set_refs (λ r. r + 1) addr.ifindex n in
    elim (Option-cases (n.devices addr.ifindex)) [
      | inl r ↦ ground (arith, h, unbound, r, bind_device-none room sk addr.ifindex n1)
      | inr (d, r) ↦
          let sound1 = set_refs-IsSound addr.ifindex (λ r. r + 1) n sound in
          let binds = bind_device-binds room sk addr.ifindex d n1 sound1 in
          ground (arith, h, unbound, r, binds, set_refs-socks sk addr.ifindex (λ r. r + 1) n)
    ]

clear_sock-listens :
    (a : SocketInfo) (i sk : ℕ) (n : Net) → listens a i (clear_sock sk n) ≡ listens a i n
unfolding clear_sock
clear_sock-listens a i sk n = set_sock-listens a i sk _ n

-- A socket that is bound and then released listens where it listened before, less the device that
-- it was bound to last; so does every other socket. The socket was open and not yet bound to that
-- device, the binding succeeded, and the lists are as the operations leave them.
pub protocol_release-protocol_bind :
    (room : Bool) (sk i : ℕ) (addr : Address) (b : SocketInfo) (n n' : Net)
    → IsSound n
    → is_bound_to addr.ifindex (n.socks sk) ≡ false
    → (n.socks sk).is_released ≡ false
    → protocol_bind room sk addr n ≡ (ok tt, n')
    → listens b i (protocol_release sk n').1
      ≡ (if (i == addr.ifindex) && is_entry b (entry_of sk) then false else listens b i n)
unfolding protocol_release
protocol_release-protocol_bind room sk i addr b n n' sound unbound live h =
    let (index, released, list, sound') = protocol_bind-binds room sk addr n n' sound unbound h in
    ground (
      arith,
      index,
      released,
      live,
      list,
      leave_device-listens sk addr.ifindex i b n' sound' list,
      clear_sock-listens b i sk (leave_device sk addr.ifindex n'),
      protocol_bind-listens room sk i addr b n n' unbound h,
    )

-- A socket that is bound to a second device keeps listening to the first one after it is released.
pub rebinding_dangles :
    (room : Bool) (sk first : ℕ) (addr : Address) (n n' : Net)
    → IsSound n
    → listens (entry_of sk) first n ≡ true
    → first ≢ addr.ifindex
    → is_bound_to addr.ifindex (n.socks sk) ≡ false
    → (n.socks sk).is_released ≡ false
    → protocol_bind room sk addr n ≡ (ok tt, n')
    → listens (entry_of sk) first (protocol_release sk n').1 ≡ true
rebinding_dangles room sk first addr n n' sound listening other unbound live h = ground (
  arith,
  other,
  listening,
  protocol_release-protocol_bind room sk first addr (entry_of sk) n n' sound unbound live h,
)
