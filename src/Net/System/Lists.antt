-- ===== src/Net/System/Lists.antt =====
-- The operations of driver/net/socket-list.c, and those of driver/net/protocol.c that call them, on
-- devices whose lists are sound and that can transmit.
use driver_arinc.Prelude.{ℕ, ◌+◌, ◌-◌, ◌≡◌, refl, Bool, true, false, Option, none, some, arith}
use driver_arinc.Net.{SocketInfo, SocketList, NetDevice, ProtocolSock, Net}
use driver_arinc.Net.Sockets.{
  set_list, give_up, socket_list_add_socket, socket_list_remove_socket, socket_list_add,
  socket_list_remove,
}
use driver_arinc.Net.Sockets.Invariant.{
  IsSound, add_socket-IsSound, remove_socket-IsSound, add-IsSound, remove-IsSound,
}
use driver_arinc.Net.Protocol.{
  Address, entry_of, set_refs, dev_put, dev_get_by_index, set_sock, leave_device, clear_sock,
  protocol_release, bind_sock, bind_device, protocol_bind,
}
use driver_arinc.Net.Protocol.References.{has_device}
use driver_arinc.Net.Messages.Buffers.{can_send}
use driver_arinc.Net.System.Quiet.{
  AllSend, Quiet, Quiet-IsSound, Quiet-AllSend, set_refs-Quiet, set_sock-Quiet,
}

-- The lists are sound, nobody has the lock, every device has a function to transmit, and `buffers`
-- buffers are in use.
pub record IsOrderly (buffers : ℕ) (n : Net) : Type 0 where
  pub sound : IsSound n
  pub unlocked : n.lock_held ≡ false
  pub able : AllSend n
  pub counted : n.skbs ≡ buffers

pub Quiet-IsOrderly :
    {n n' : Net} (c : ℕ) → Quiet n n' → n'.skbs ≡ n.skbs → IsOrderly c n → IsOrderly c n'
Quiet-IsOrderly c q b h = record {
  sound = Quiet-IsSound q h.sound;
  unlocked = ground (arith, q.lock, h.unlocked);
  able = Quiet-AllSend q h.able;
  counted = ground (arith, b, h.counted);
}

-- A device whose list is set.
set_list-frame :
    (dev i : ℕ) (l : Option SocketList) (n : Net)
    → let n' = set_list dev l n in
      (has_device i n' ≡ has_device i n) × (can_send i n' ≡ can_send i n)
unfolding set_list has_device can_send
set_list-frame dev i l n = ground arith

set_list-rest :
    (dev : ℕ) (l : Option SocketList) (n : Net)
    → ((set_list dev l n).skbs ≡ n.skbs) × ((set_list dev l n).lock_held ≡ n.lock_held)
unfolding set_list
set_list-rest dev l n = ground arith

lock-frame :
    (i : ℕ) (held : Bool) (n : Net)
    → let n' = record n { lock_held = held } in
      (has_device i n' ≡ has_device i n) × (can_send i n' ≡ can_send i n)
unfolding has_device can_send
lock-frame i held n = (refl, refl)

give_up-frame :
    (i : ℕ) (list : SocketList) (n : Net)
    → let n' = give_up list n in (has_device i n' ≡ has_device i n) × (can_send i n' ≡ can_send i n)
unfolding give_up has_device can_send
give_up-frame i list n = ground arith

give_up-rest :
    (list : SocketList) (n : Net)
    → ((give_up list n).skbs ≡ n.skbs) × ((give_up list n).lock_held ≡ n.lock_held)
unfolding give_up
give_up-rest list n = ground arith

ruleset frames = (arith, set_list-frame, set_list-rest, lock-frame, give_up-frame, give_up-rest)

-- What the operations on the lists leave alone.
abbrev Frame : Net → Net → Type 0
Frame n n' =
    (i : ℕ)
    → (has_device i n' ≡ has_device i n)
      × (can_send i n' ≡ can_send i n)
      × (n'.skbs ≡ n.skbs)
      × (n'.lock_held ≡ false)

add_socket-Frame :
    (dev : ℕ) (a : SocketInfo) (n : Net)
    → n.lock_held ≡ false
    → Frame n (socket_list_add_socket true dev a n).1
unfolding socket_list_add_socket
add_socket-Frame dev a n free i = grind frames

remove_socket-Frame :
    (dev : ℕ) (a : SocketInfo) (n : Net)
    → n.lock_held ≡ false
    → Frame n (socket_list_remove_socket dev a n)
unfolding socket_list_remove_socket
remove_socket-Frame dev a n free i = grind frames

add-Frame :
    (room : Bool) (dev : ℕ) (n : Net) → n.lock_held ≡ false → Frame n (socket_list_add room dev n).1
unfolding socket_list_add
add-Frame room dev n free i = grind frames

remove-Frame : (dev : ℕ) (n : Net) → n.lock_held ≡ false → Frame n (socket_list_remove dev n)
unfolding socket_list_remove
remove-Frame dev n free i = grind frames

Frame-IsOrderly : {n n' : Net} (c : ℕ) → Frame n n' → IsSound n' → IsOrderly c n → IsOrderly c n'
Frame-IsOrderly c f sound h = record {
  sound = sound;
  unlocked = (f 0).3;
  able = λ dev there. ground (arith, f dev, h.able dev, there);
  counted = ground (arith, f 0, h.counted);
}

pub add_socket-IsOrderly :
    (c dev : ℕ) (a : SocketInfo) (n : Net)
    → IsOrderly c n
    → IsOrderly c (socket_list_add_socket true dev a n).1
add_socket-IsOrderly c dev a n h =
    Frame-IsOrderly c (add_socket-Frame dev a n h.unlocked)
      (add_socket-IsSound true dev a n h.sound) h

pub remove_socket-IsOrderly :
    (c dev : ℕ) (a : SocketInfo) (n : Net)
    → IsOrderly c n
    → IsOrderly c (socket_list_remove_socket dev a n)
remove_socket-IsOrderly c dev a n h =
    Frame-IsOrderly c (remove_socket-Frame dev a n h.unlocked)
      (remove_socket-IsSound dev a n h.sound) h

pub add-IsOrderly :
    (room : Bool) (c dev : ℕ) (n : Net) → IsOrderly c n → IsOrderly c (socket_list_add room dev n).1
add-IsOrderly room c dev n h =
    Frame-IsOrderly c (add-Frame room dev n h.unlocked) (add-IsSound room dev n h.sound) h

pub remove-IsOrderly :
    (c dev : ℕ) (n : Net) → IsOrderly c n → IsOrderly c (socket_list_remove dev n)
remove-IsOrderly c dev n h =
    Frame-IsOrderly c (remove-Frame dev n h.unlocked) (remove-IsSound dev n h.sound) h

set_refs-IsOrderly :
    (f : ℕ → ℕ) (c dev : ℕ) (n : Net) → IsOrderly c n → IsOrderly c (set_refs f dev n)
unfolding set_refs
set_refs-IsOrderly f c dev n h = Quiet-IsOrderly c (set_refs-Quiet f dev n) (ground arith) h

pub set_sock-IsOrderly :
    (c sk : ℕ) (s : ProtocolSock) (n : Net) → IsOrderly c n → IsOrderly c (set_sock sk s n)
unfolding set_sock
set_sock-IsOrderly c sk s n h = Quiet-IsOrderly c (set_sock-Quiet sk s n) refl h

bind_device-IsOrderly :
    (c sk ifindex : ℕ) (d : Option NetDevice) (n : Net)
    → IsOrderly c n
    → IsOrderly c (bind_device true sk ifindex d n).1
unfolding bind_device bind_sock
bind_device-IsOrderly c sk ifindex none n h = h
bind_device-IsOrderly c sk ifindex (some d) n h =
    let (r, n1) = socket_list_add_socket true ifindex (entry_of sk) n in
    let h1 : IsOrderly c n1 = add_socket-IsOrderly c ifindex (entry_of sk) n h in
    let n2 = bind_sock sk ifindex d n1 in
    let h2 : IsOrderly c n2 = set_sock-IsOrderly c sk _ n1 h1 in
    let put0 : IsOrderly c (dev_put ifindex n) = set_refs-IsOrderly (λ r. r - 1) c ifindex n h in
    let put1 : IsOrderly c (dev_put ifindex n1) = set_refs-IsOrderly (λ r. r - 1) c ifindex n1 h1 in
    let put2 : IsOrderly c (dev_put ifindex n2) = set_refs-IsOrderly (λ r. r - 1) c ifindex n2 h2 in
    ground (arith, put0, put1, put2)

pub protocol_bind-IsOrderly :
    (c sk : ℕ) (addr : Address) (n : Net)
    → IsOrderly c n
    → IsOrderly c (protocol_bind true sk addr n).1
unfolding protocol_bind dev_get_by_index
protocol_bind-IsOrderly c sk addr n h =
    let n1 = set_refs (λ r. r + 1) addr.ifindex n in
    let h1 : IsOrderly c n1 = set_refs-IsOrderly (λ r. r + 1) c addr.ifindex n h in
    ground (arith, h, bind_device-IsOrderly c sk addr.ifindex (n.devices addr.ifindex) n1 h1)

leave_device-IsOrderly :
    (c sk ifindex : ℕ) (n : Net) → IsOrderly c n → IsOrderly c (leave_device sk ifindex n)
unfolding leave_device dev_get_by_index
leave_device-IsOrderly c sk ifindex n h =
    let n1 = set_refs (λ r. r + 1) ifindex n in
    let h1 : IsOrderly c n1 = set_refs-IsOrderly (λ r. r + 1) c ifindex n h in
    let n2 = socket_list_remove_socket ifindex (entry_of sk) n1 in
    let h2 : IsOrderly c n2 = remove_socket-IsOrderly c ifindex (entry_of sk) n1 h1 in
    let put : IsOrderly c (dev_put ifindex n2) = set_refs-IsOrderly (λ r. r - 1) c ifindex n2 h2 in
    ground (arith, h1, put)

pub protocol_release-IsOrderly :
    (c sk : ℕ) (n : Net) → IsOrderly c n → IsOrderly c (protocol_release sk n).1
unfolding protocol_release clear_sock
protocol_release-IsOrderly c sk n h =
    let n1 = leave_device sk (n.socks sk).ifindex n in
    let h1 : IsOrderly c n1 = leave_device-IsOrderly c sk (n.socks sk).ifindex n h in
    let s = record (n1.socks sk) { ifindex = 0; bound = false; is_released = true } in
    ground (arith, h, set_sock-IsOrderly c sk s n1 h1)
