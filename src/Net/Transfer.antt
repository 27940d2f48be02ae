-- ===== src/Net/Transfer.antt =====
-- A message on its way from one socket to the others over the loopback device: the parts of
-- driver/net and driver/devices/lb.c put together the way the kernel calls them.
pub mod Frames
pub mod Echo
pub mod Layout
pub mod Transmission
pub mod Reception
use driver_arinc.Prelude.{ℕ, Bool, true, List, [], ◌∷◌}
use driver_arinc.Net.{Packet, Net}
use driver_arinc.Net.Family.{RxAnswers, avionics_packet_rx}
use driver_arinc.Net.Loopback.{Loopback, lb_start_xmit}

-- The packets that a device gave to `netif_rx_ni`, which the kernel hands to `avionics_packet_rx` one
-- after the other.
unfoldable pub receive_all : RxAnswers → (dev : ℕ) → List Packet → Net → Net
receive_all a dev [] n = n
receive_all a dev (packet ∷ rest) n =
    receive_all a dev rest (avionics_packet_rx true a dev packet n).1

-- The packet that was queued last is given to the loopback device `lb`, which received nothing
-- before; `room` tells whether the copy can be allocated.
unfoldable pub loop_back : (room : Bool) → RxAnswers → Loopback → Net → Net
unfolding receive_all
loop_back room a lb n = elim n.sent [
  | [] ↦ n
  | (dev, packet) ∷ _ ↦
      receive_all a dev (lb_start_xmit room 0x001d packet (record lb { received = [] })).received n
]
