-- ===== src/Net/Loopback.antt =====
-- driver/devices/lb.c, the virtual loopback device: a packet that is sent is received again.
use driver_arinc.Prelude.{
  ℕ, ◌+◌, ◌*◌, ◌%◌, ◌≡◌, Bool, false, not, ◌&&◌, List, [], ◌∷◌, ◌++◌, length, length-append, ◌==◌,
  if◌then◌else◌, ok, err, ebusy, Step, arith,
}
use driver_arinc.Hi3593.{Stats}
use driver_arinc.Net.{Packet}

pub record Loopback : Type 0 where
  pub is_up : Bool
  pub mtu : ℕ
  pub stats : Stats
  -- What `netif_rx_ni` was given, in order.
  pub received : List Packet

unfoldable pub lb_setup : Stats → Loopback
lb_setup stats = record { is_up = false; mtu = 4 * 32; stats = stats; received = [] }

-- `room` tells whether a buffer for the copy can be allocated.
unfoldable pub lb_rx : (room : Bool) → Packet → Loopback → Loopback
lb_rx room packet lb =
    if room
    then record lb {
      stats = record lb.stats {
        rx_packets = lb.stats.rx_packets + 1;
        rx_bytes = lb.stats.rx_bytes + packet.len;
      };
      received = lb.received ++ packet ∷ [];
    }
    else lb

unfoldable pub lb_drop : Loopback → Loopback
lb_drop lb = record lb { stats = record lb.stats { tx_dropped = lb.stats.tx_dropped + 1 } }

unfoldable pub lb_start_xmit : (room : Bool) (protocol : ℕ) → Packet → Loopback → Loopback
lb_start_xmit room protocol packet lb =
    if not (protocol == 0x001d)
    then lb_drop lb
    else if not (packet.len % 4 == 0)
    then lb_drop lb
    else lb_rx room packet (record lb {
      stats = record lb.stats {
        tx_packets = lb.stats.tx_packets + 1;
        tx_bytes = lb.stats.tx_bytes + packet.len;
      };
    })

unfoldable pub lb_change_mtu : (mtu : ℕ) → Step Loopback (Unit {0})
lb_change_mtu mtu lb = if lb.is_up then (err ebusy, lb) else (ok tt, record lb { mtu = mtu })

abbrev pub total_len : List Packet → ℕ
total_len [] = 0
total_len (p ∷ rest) = p.len + total_len rest

total_len-append : (xs ys : List Packet) → total_len (xs ++ ys) ≡ total_len xs + total_len ys
total_len-append [] ys = omega arith
total_len-append (x ∷ xs) ys = omega (arith, total_len-append xs ys)

-- The counters agree with what was received.
pub record IsCounted (lb : Loopback) : Type 0 where
  pub packets : lb.stats.rx_packets ≡ length lb.received
  pub bytes : lb.stats.rx_bytes ≡ total_len lb.received

-- Sending on the loopback device keeps its receive counters in agreement with what was received. A
-- packet of the driver's protocol and of whole words is received unchanged where memory is there,
-- and is counted as sent; every other packet is counted as dropped and is not received.
pub lb_start_xmit-IsCounted :
    (room : Bool) (protocol : ℕ) (packet : Packet) (lb : Loopback)
    → IsCounted lb
    → let lb' = lb_start_xmit room protocol packet lb in
      let accepted = (protocol == 0x001d) && (packet.len % 4 == 0) in
      IsCounted lb'
      × (lb'.received ≡ (if accepted && room then lb.received ++ packet ∷ [] else lb.received))
      × (lb'.stats.tx_packets ≡ (if accepted then lb.stats.tx_packets + 1 else lb.stats.tx_packets))
      × (lb'.stats.tx_dropped ≡ (if accepted then lb.stats.tx_dropped else lb.stats.tx_dropped + 1))
unfolding lb_start_xmit lb_rx lb_drop
lb_start_xmit-IsCounted room protocol packet lb h =
    ground
      (arith, length-append lb.received (packet ∷ []), total_len-append lb.received (packet ∷ []))
