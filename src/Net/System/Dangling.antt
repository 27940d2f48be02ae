-- ===== src/Net/System/Dangling.antt =====
-- A socket that was bound twice and is then released (driver/net/protocol.c and avionics.c).
use driver_arinc.Prelude.{ℕ, ◌≡◌, ◌≢◌, true, false, [], ◌∷◌, ◌++◌, ok, Bool-cases, inl, inr, arith}
use driver_arinc.Net.{SocketList, Packet, Net}
use driver_arinc.Net.Sockets.{get_list}
use driver_arinc.Net.Sockets.Listens.{listens}
use driver_arinc.Net.Protocol.{
  Address, entry_of, set_sock, clear_sock, protocol_bind, protocol_release,
}
use driver_arinc.Net.Protocol.Binding.{is_bound_to, rebinding_dangles}
use driver_arinc.Net.Family.{RxAnswers, avionics_packet_rx}
use driver_arinc.Net.Family.Delivery.{takes, avionics_packet_rx-delivers}
use driver_arinc.Net.System.Lists.{IsOrderly, protocol_bind-IsOrderly, protocol_release-IsOrderly}

released : (sk : ℕ) (n : Net) → ((protocol_release sk n).1.socks sk).is_released ≡ true
unfolding protocol_release clear_sock set_sock
released sk n = elim (Bool-cases (n.socks sk).is_released) [
  | inl before ↦ ground (arith, before)
  | inr now ↦ ground (arith, now)
]

-- A socket that listens to a device and is bound to a second one still gets the packets of the first
-- after it was released: its release leaves its entry in the first device's list, and each packet
-- that this device then receives goes through the entry, into the queue of the released socket. The
-- first device has its list at that time, and the socket's queue takes the packet.
pub released_receives :
    (c sk first : ℕ) (addr : Address) (n n' : Net) (a : RxAnswers) (packet : Packet)
    (list : SocketList)
    → IsOrderly c n
    → listens (entry_of sk) first n ≡ true
    → first ≢ addr.ifindex
    → is_bound_to addr.ifindex (n.socks sk) ≡ false
    → (n.socks sk).is_released ≡ false
    → protocol_bind true sk addr n ≡ (ok tt, n')
    → get_list first (protocol_release sk n').1 ≡ ok list
    → takes a sk ≡ true
    → let n'' = (protocol_release sk n').1 in
      ((n''.socks sk).is_released ≡ true)
      × (listens (entry_of sk) first n'' ≡ true)
      × (((avionics_packet_rx true a first packet n'').1.socks sk).receive_queue
          ≡ (n''.socks sk).receive_queue ++ record packet { ifindex = first } ∷ [])
released_receives c sk first addr n n' a packet list h listening other unbound live bound there
      taken =
    let n'' = (protocol_release sk n').1 in
    let orderly' : IsOrderly c n' = rw bound at (protocol_bind-IsOrderly c sk addr n h) in
    let orderly'' = protocol_release-IsOrderly c sk n' orderly' in
    let dangles =
      rebinding_dangles true sk first addr n n' h.sound listening other unbound live bound in
    (
      released sk n',
      dangles,
      ground (
        arith,
        dangles,
        taken,
        avionics_packet_rx-delivers a first sk packet list n'' orderly''.sound there,
      ),
    )
