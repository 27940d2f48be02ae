-- ===== src/Net/Messages/Buffers.antt =====
-- What a call of protocol_raw_sendmsg (driver/net/protocol-raw.c) leaves behind: the device's references, the buffers and the packets.
use driver_arinc.Prelude.{
  ℕ, ◌+◌, ◌-◌, ◌*◌, ◌/◌, ◌≡◌, refl, Bool, true, false, ◌∷◌, Option, none, some, value_or, ◌==◌,
  if◌then◌else◌, Result, ok, err, enodev, arith,
}
use driver_arinc.Net.{Packet, Net}
use driver_arinc.Net.Protocol.{
  Address, set_refs, dev_put, dev_get_by_index, ifindex_of, check_device, protocol_get_dev_from_msg,
  queue_xmit, protocol_send_to_netdev,
}
use driver_arinc.Net.Protocol.References.{refs_of, has_device, protocol_get_dev_from_msg-refs}
use driver_arinc.Net.Messages.{
  Memory, Answers, copy, expand, discard, send_buffer, protocol_raw_sendmsg,
}

-- Whether a device has a function to transmit.
unfoldable pub can_send : (dev : ℕ) → Net → Bool
can_send dev n = elim (n.devices dev) [ none ↦ false | some d ↦ d.can_transmit ]

set_refs-frame :
    (i dev : ℕ) (f : ℕ → ℕ) (n : Net)
    → ((set_refs f dev n).skbs ≡ n.skbs)
      × ((set_refs f dev n).sent ≡ n.sent)
      × (can_send i (set_refs f dev n) ≡ can_send i n)
unfolding set_refs can_send
set_refs-frame i dev f n = ground arith

pub get_dev-frame :
    (sk size : ℕ) (name : Option Address) (n : Net)
    → let n' = (protocol_get_dev_from_msg sk name size n).1 in
      (n'.skbs ≡ n.skbs) × (n'.sent ≡ n.sent)
unfolding protocol_get_dev_from_msg check_device dev_get_by_index
get_dev-frame sk size name n =
    let ifindex = value_or 0 (ifindex_of (n.socks sk) name) in
    let n1 = set_refs (λ r. r + 1) ifindex n in
    ground (
      arith,
      set_refs-frame ifindex ifindex (λ r. r + 1) n,
      set_refs-frame ifindex ifindex (λ r. r - 1) n1,
    )

pub get_dev-found :
    (sk size dev : ℕ) (name : Option Address) (n : Net)
    → let (r, n') = protocol_get_dev_from_msg sk name size n in
      r ≡ ok dev
      → (has_device dev n ≡ true) × (has_device dev n' ≡ true) × (can_send dev n' ≡ can_send dev n)
unfolding protocol_get_dev_from_msg check_device dev_get_by_index has_device set_refs can_send
get_dev-found sk size dev name n h = ground (arith, h)

send_to_netdev-frame :
    (i dev : ℕ) (queued : Result (Unit {0})) (packet : Packet) (n : Net)
    → can_send dev n ≡ true
    → let (r, n') = protocol_send_to_netdev queued dev packet n in
      (r ≡ queued)
      × (refs_of i n' ≡ (if i == dev then refs_of i n - 1 else refs_of i n))
      × (n'.skbs ≡ n.skbs - 1)
      × (n'.sent ≡ (dev, packet) ∷ n.sent)
unfolding protocol_send_to_netdev queue_xmit can_send refs_of set_refs
send_to_netdev-frame i dev queued packet n h = ground arith

refused :
    (dev : ℕ) (queued : Result (Unit {0})) (packet : Packet) (n : Net)
    → can_send dev n ≡ false
    → protocol_send_to_netdev queued dev packet n ≡ (err enodev, n)
unfolding protocol_send_to_netdev can_send
refused dev queued packet n h = ground arith

discard-frame :
    (i dev : ℕ) (n : Net)
    → has_device dev n ≡ true
    → (refs_of i (discard dev n) ≡ (if i == dev then refs_of i n - 1 else refs_of i n))
      × ((discard dev n).skbs ≡ n.skbs - 1)
      × ((discard dev n).sent ≡ n.sent)
unfolding discard refs_of has_device set_refs
discard-frame i dev n h = ground arith

put-frame :
    (i dev : ℕ) (n : Net)
    → has_device dev n ≡ true
    → (refs_of i (dev_put dev n) ≡ (if i == dev then refs_of i n - 1 else refs_of i n))
      × ((dev_put dev n).skbs ≡ n.skbs)
      × ((dev_put dev n).sent ≡ n.sent)
unfolding refs_of has_device set_refs
put-frame i dev n h = ground arith

pub skbs-frame :
    (i c : ℕ) (n : Net)
    → (refs_of i (record n { skbs = c }) ≡ refs_of i n)
      × (has_device i (record n { skbs = c }) ≡ has_device i n)
      × (can_send i (record n { skbs = c }) ≡ can_send i n)
unfolding refs_of has_device can_send
skbs-frame i c n = (refl, refl, refl)

pub send_buffer_balance :
    (buffer_size : ℕ) (fill : Memory → Memory) (a : Answers) (sk size i : ℕ) (name : Option Address)
    (msg : Memory) (n : Net)
    → ((dev : ℕ) → has_device dev n ≡ true → can_send dev n ≡ true)
    → let (r, n') = send_buffer buffer_size fill a sk name size msg n in
      (refs_of i n' ≡ refs_of i n) × (n'.skbs ≡ n.skbs)
unfolding send_buffer
send_buffer_balance buffer_size fill a sk size i name msg n able =
    let got = protocol_get_dev_from_msg sk name size n in
    let dev = value_or 0 got.0 in
    let n1 = got.1 in
    let n2 = record n1 { skbs = n1.skbs + 1 } in
    let packet : Packet = record {
      len = buffer_size;
      bytes = fill (copy size msg 0 a.garbage 0);
      ifindex = 0;
    } in
    ground (
      arith,
      get_dev-frame sk size name n,
      get_dev-found sk size dev name n,
      protocol_get_dev_from_msg-refs sk size i name n,
      able dev,
      skbs-frame i (n1.skbs + 1) n1,
      skbs-frame dev (n1.skbs + 1) n1,
      send_to_netdev-frame i dev a.queued packet n2,
      discard-frame i dev n2,
      put-frame i dev n1,
    )

-- Every call of `protocol_raw_sendmsg` gives back the reference that it takes to the device and
-- leaves no buffer behind, on every branch: no device, no memory, a failing copy, a queue that
-- refuses the packet, and success. Every device has a function to transmit.
pub protocol_raw_sendmsg_balance :
    (a : Answers) (sk size i : ℕ) (name : Option Address) (msg : Memory) (n : Net)
    → ((dev : ℕ) → has_device dev n ≡ true → can_send dev n ≡ true)
    → let (r, n') = protocol_raw_sendmsg a sk name size msg n in
      (refs_of i n' ≡ refs_of i n) × (n'.skbs ≡ n.skbs)
unfolding protocol_raw_sendmsg
protocol_raw_sendmsg_balance a sk size i name msg n able =
    send_buffer_balance (size / 4 * 12) (expand (size / 4)) a sk size i name msg n able

-- `protocol_raw_sendmsg` succeeds only where it gave exactly one packet to the device that the
-- message names: an array of samples made of the message. It reports the message's size.
pub protocol_raw_sendmsg-sends :
    (a : Answers) (sk size dev : ℕ) (name : Option Address) (msg : Memory) (n : Net)
    → (protocol_get_dev_from_msg sk name size n).0 ≡ ok dev
    → let (r, n') = protocol_raw_sendmsg a sk name size msg n in
      r ≡ ok (value_or 0 r)
      → (r ≡ ok size)
        × (n'.sent
            ≡ (
              dev,
              record {
                len = size / 4 * 12;
                bytes = expand (size / 4) (copy size msg 0 a.garbage 0);
                ifindex = 0;
              },
            )
              ∷ n.sent)
unfolding protocol_raw_sendmsg send_buffer protocol_send_to_netdev queue_xmit
protocol_raw_sendmsg-sends a sk size dev name msg n found good =
    let n1 = (protocol_get_dev_from_msg sk name size n).1 in
    let n2 = record n1 { skbs = n1.skbs + 1 } in
    let packet : Packet = record {
      len = size / 4 * 12;
      bytes = expand (size / 4) (copy size msg 0 a.garbage 0);
      ifindex = 0;
    } in
    ground (
      arith,
      good,
      found,
      get_dev-frame sk size name n,
      set_refs-frame dev dev (λ r. r - 1) (queue_xmit packet dev n2),
    )

-- A message to a device without a function to transmit, as the receivers are, is refused with
-- ENODEV, and its reference and its buffer are lost. The device passes the tests on it, and memory
-- and the copy do not fail.
pub protocol_raw_sendmsg_leaks :
    (a : Answers) (sk size dev : ℕ) (name : Option Address) (msg : Memory) (n : Net)
    → (protocol_get_dev_from_msg sk name size n).0 ≡ ok dev
    → can_send dev n ≡ false
    → a.room ≡ true
    → a.copied ≡ ok tt
    → let (r, n') = protocol_raw_sendmsg a sk name size msg n in
      (r ≡ err enodev) × (refs_of dev n' ≡ refs_of dev n + 1) × (n'.skbs ≡ n.skbs + 1)
unfolding protocol_raw_sendmsg send_buffer
protocol_raw_sendmsg_leaks a sk size dev name msg n found unable room copied =
    let n1 = (protocol_get_dev_from_msg sk name size n).1 in
    let n2 = record n1 { skbs = n1.skbs + 1 } in
    let packet : Packet = record {
      len = size / 4 * 12;
      bytes = expand (size / 4) (copy size msg 0 a.garbage 0);
      ifindex = 0;
    } in
    ground (
      arith,
      found,
      unable,
      room,
      copied,
      get_dev-frame sk size name n,
      get_dev-found sk size dev name n,
      protocol_get_dev_from_msg-refs sk size dev name n,
      skbs-frame dev (n1.skbs + 1) n1,
      refused dev a.queued packet n2,
    )
