-- ===== src/Net/System/Quiet.antt =====
-- Operations of driver/net that leave the devices as they are, but for their reference counts.
use driver_arinc.Prelude.{
  List, ℕ, ◌+◌, ◌-◌, ◌≡◌, ◌∙◌, refl, true, false, Option, none, some, value_or, ok, err, enodev,
  if◌then◌else◌, arith,
}
use driver_arinc.Net.{SocketInfo, NetDevice, Packet, ProtocolSock, Net}
use driver_arinc.Net.Sockets.{list_of, get_list}
use driver_arinc.Net.Sockets.Invariant.{IsSound}
use driver_arinc.Net.Sockets.Listens.{listens}
use driver_arinc.Net.Protocol.{
  Address, set_refs, dev_get_by_index, set_sock, ifindex_of, check_device,
  protocol_get_dev_from_msg, queue_xmit, protocol_send_to_netdev,
}
use driver_arinc.Net.Protocol.References.{has_device}
use driver_arinc.Net.Messages.{Memory, Answers, copy, discard, send_buffer}
use driver_arinc.Net.Messages.Buffers.{can_send}

-- A device without its reference count.
unfoldable pub stripped : (dev : ℕ) → Net → Option NetDevice
stripped dev n = elim (n.devices dev) [ none ↦ none | some d ↦ some (record d { refs = 0 }) ]

-- Whether every device has a function to transmit.
abbrev pub AllSend : Net → Type 0
AllSend n = (dev : ℕ) → has_device dev n ≡ true → can_send dev n ≡ true

pub record Quiet (n n' : Net) : Type 0 where
  pub same : (dev : ℕ) → stripped dev n' ≡ stripped dev n
  pub lock : n'.lock_held ≡ n.lock_held

pub Quiet-trans : {n n' n'' : Net} → Quiet n n' → Quiet n' n'' → Quiet n n''
Quiet-trans h h' = record { same = λ dev. h'.same dev ∙ h.same dev; lock = h'.lock ∙ h.lock }

-- What the code reads of a device shows in the device without its count.
list_of-stripped :
    (dev : ℕ) (n : Net) → list_of dev n ≡ elim (stripped dev n) [ none ↦ none | some d ↦ d.ml_priv ]
unfolding list_of stripped
list_of-stripped dev n = ground arith

has_device-stripped :
    (dev : ℕ) (n : Net) → has_device dev n ≡ elim (stripped dev n) [ none ↦ false | some d ↦ true ]
unfolding has_device stripped
has_device-stripped dev n = ground arith

can_send-stripped :
    (dev : ℕ) (n : Net)
    → can_send dev n ≡ elim (stripped dev n) [ none ↦ false | some d ↦ d.can_transmit ]
unfolding can_send stripped
can_send-stripped dev n = ground arith

pub Quiet-IsSound : {n n' : Net} → Quiet n n' → IsSound n → IsSound n'
unfolding IsSound
Quiet-IsSound {n} {n'} h sound dev list e =
    sound dev list (ground (arith, e, h.same dev, list_of-stripped dev n, list_of-stripped dev n'))

pub Quiet-AllSend : {n n' : Net} → Quiet n n' → AllSend n → AllSend n'
Quiet-AllSend {n} {n'} h able dev there = ground (
  arith,
  able dev,
  there,
  h.same dev,
  has_device-stripped dev n,
  has_device-stripped dev n',
  can_send-stripped dev n,
  can_send-stripped dev n',
)

get_list-stripped :
    (dev : ℕ) (n : Net)
    → get_list dev n ≡ elim (stripped dev n) [
      | none ↦ err enodev
      | some d ↦
          if d.is_avionics
          then elim d.ml_priv [ none ↦ err enodev | some list ↦ ok list ]
          else err enodev
    ]
unfolding get_list stripped
get_list-stripped dev n = ground arith

pub Quiet-get_list : (dev : ℕ) {n n' : Net} → Quiet n n' → get_list dev n' ≡ get_list dev n
Quiet-get_list dev {n} {n'} h =
    ground (arith, h.same dev, get_list-stripped dev n, get_list-stripped dev n')

pub Quiet-listens :
    (a : SocketInfo) (dev : ℕ) {n n' : Net} → Quiet n n' → listens a dev n' ≡ listens a dev n
unfolding listens
Quiet-listens a dev {n} {n'} h =
    ground (arith, h.same dev, list_of-stripped dev n, list_of-stripped dev n')

pub set_refs-Quiet : (f : ℕ → ℕ) (dev : ℕ) (n : Net) → Quiet n (set_refs f dev n)
unfolding set_refs stripped
set_refs-Quiet f dev n = record { same = λ i. ground arith; lock = ground arith }

pub set_sock-Quiet : (sk : ℕ) (s : ProtocolSock) (n : Net) → Quiet n (set_sock sk s n)
unfolding set_sock stripped
set_sock-Quiet sk s n = record { same = λ i. refl; lock = refl }

-- Buffers and packets are no part of the devices.
pub buffers-Quiet :
    (c : ℕ) (sent : List (ℕ × Packet)) (n : Net) → Quiet n (record n { skbs = c; sent = sent })
unfolding stripped
buffers-Quiet c sent n = record { same = λ i. refl; lock = refl }

get_dev-Quiet :
    (sk size : ℕ) (name : Option Address) (n : Net)
    → Quiet n (protocol_get_dev_from_msg sk name size n).1
unfolding protocol_get_dev_from_msg check_device dev_get_by_index
get_dev-Quiet sk size name n =
    let ifindex = value_or 0 (ifindex_of (n.socks sk) name) in
    let n1 = set_refs (λ r. r + 1) ifindex n in
    let taken = set_refs-Quiet (λ r. r + 1) ifindex n in
    let given = set_refs-Quiet (λ r. r - 1) ifindex n1 in
    record {
      same = λ i. ground (arith, taken.same i, given.same i);
      lock = ground (arith, taken.lock, given.lock);
    }

pub send_buffer-Quiet :
    (buffer_size : ℕ) (fill : Memory → Memory) (a : Answers) (sk size : ℕ) (name : Option Address)
    (msg : Memory) (n : Net)
    → Quiet n (send_buffer buffer_size fill a sk name size msg n).1
unfolding send_buffer protocol_send_to_netdev discard queue_xmit
send_buffer-Quiet buffer_size fill a sk size name msg n =
    let got = protocol_get_dev_from_msg sk name size n in
    let dev = value_or 0 got.0 in
    let n1 = got.1 in
    let n2 = record n1 { skbs = n1.skbs + 1 } in
    let packet : Packet = record {
      len = buffer_size;
      bytes = fill (copy size msg 0 a.garbage 0);
      ifindex = 0;
    } in
    let n3 = queue_xmit packet dev n2 in
    let n4 = record n2 { skbs = n2.skbs - 1 } in
    let found = get_dev-Quiet sk size name n in
    let made = buffers-Quiet (n1.skbs + 1) n1.sent n1 in
    let sent = buffers-Quiet n3.skbs n3.sent n2 in
    let freed = buffers-Quiet n4.skbs n4.sent n2 in
    let put1 = set_refs-Quiet (λ r. r - 1) dev n1 in
    let put3 = set_refs-Quiet (λ r. r - 1) dev n3 in
    let put4 = set_refs-Quiet (λ r. r - 1) dev n4 in
    record {
      same = λ i. ground (
        arith,
        found.same i,
        made.same i,
        sent.same i,
        freed.same i,
        put1.same i,
        put3.same i,
        put4.same i,
      );
      lock = ground (arith, found.lock, put1.lock, put3.lock, put4.lock);
    }
