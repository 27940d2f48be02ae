-- ===== src/Net/Transfer/Frames.antt =====
-- What a call of protocol_raw_sendmsg (driver/net/protocol-raw.c) leaves alone: the sockets and the
-- socket lists.
use driver_arinc.Prelude.{
  ℕ, ◌+◌, ◌-◌, ◌*◌, ◌/◌, ◌≡◌, ◌∙◌, refl, true, ◌∷◌, Option, value_or, Result, ok, arith,
}
use driver_arinc.Net.{SocketInfo, Packet, Net}
use driver_arinc.Net.Sockets.{get_list, list_of}
use driver_arinc.Net.Sockets.Invariant.{IsSound}
use driver_arinc.Net.Sockets.Listens.{listens}
use driver_arinc.Net.Protocol.{
  Address, set_refs, dev_put, dev_get_by_index, ifindex_of, check_device, protocol_get_dev_from_msg,
  queue_xmit, protocol_send_to_netdev,
}
use driver_arinc.Net.Messages.{Memory, Answers, copy, expand, send_buffer, protocol_raw_sendmsg}
use driver_arinc.Net.Messages.Buffers.{can_send, get_dev-frame, get_dev-found, skbs-frame}

-- The sockets and the socket lists of one state are those of another.
pub record Keeps (n n' : Net) : Type 0 where
  pub socks : n'.socks ≡ n.socks
  pub lists : (dev : ℕ) → list_of dev n' ≡ list_of dev n
  pub reachable : (dev : ℕ) → get_list dev n' ≡ get_list dev n

Keeps-trans : {n n' n'' : Net} → Keeps n n' → Keeps n' n'' → Keeps n n''
Keeps-trans h h' = record {
  socks = h'.socks ∙ h.socks;
  lists = λ dev. h'.lists dev ∙ h.lists dev;
  reachable = λ dev. h'.reachable dev ∙ h.reachable dev;
}

set_refs-Keeps : (f : ℕ → ℕ) (dev : ℕ) (n : Net) → Keeps n (set_refs f dev n)
unfolding set_refs list_of get_list
set_refs-Keeps f dev n = record {
  socks = ground arith;
  lists = λ i. ground arith;
  reachable = λ i. ground arith;
}

buffers-Keeps : (c : ℕ) (n : Net) → Keeps n (record n { skbs = c })
unfolding list_of get_list
buffers-Keeps c n = record { socks = refl; lists = λ i. refl; reachable = λ i. refl }

queue_xmit-Keeps : (packet : Packet) (dev : ℕ) (n : Net) → Keeps n (queue_xmit packet dev n)
unfolding list_of get_list queue_xmit
queue_xmit-Keeps packet dev n = record { socks = refl; lists = λ i. refl; reachable = λ i. refl }

pub Keeps-IsSound : {n n' : Net} → Keeps n n' → IsSound n → IsSound n'
unfolding IsSound
Keeps-IsSound h sound dev list e = sound dev list (ground (arith, h.lists dev, e))

pub Keeps-listens :
    (a : SocketInfo) (dev : ℕ) {n n' : Net} → Keeps n n' → listens a dev n' ≡ listens a dev n
unfolding listens
Keeps-listens a dev h = rw (h.lists dev, listens) refl

get_dev-Keeps :
    (sk size : ℕ) (name : Option Address) (n : Net)
    → Keeps n (protocol_get_dev_from_msg sk name size n).1
unfolding protocol_get_dev_from_msg check_device dev_get_by_index
get_dev-Keeps sk size name n =
    let ifindex = value_or 0 (ifindex_of (n.socks sk) name) in
    let n1 = set_refs (λ r. r + 1) ifindex n in
    let taken = set_refs-Keeps (λ r. r + 1) ifindex n in
    let given = set_refs-Keeps (λ r. r - 1) ifindex n1 in
    record {
      socks = ground (arith, taken.socks, given.socks);
      lists = λ i. ground (arith, taken.lists i, given.lists i);
      reachable = λ i. ground (arith, taken.reachable i, given.reachable i);
    }

-- The packet that a raw message becomes.
abbrev pub raw_packet : (size : ℕ) (msg garbage : Memory) → Packet
raw_packet size msg garbage = record {
  len = size / 4 * 12;
  bytes = expand (size / 4) (copy size msg 0 garbage 0);
  ifindex = 0;
}

send_to_netdev_runs :
    (queued : Result (Unit {0})) (dev : ℕ) (packet : Packet) (n : Net)
    → can_send dev n ≡ true
    → protocol_send_to_netdev queued dev packet n ≡ (queued, dev_put dev (queue_xmit packet dev n))
unfolding protocol_send_to_netdev can_send
send_to_netdev_runs queued dev packet n able = ground arith

queue_xmit-sent :
    (packet : Packet) (dev : ℕ) (n : Net)
    → (dev_put dev (queue_xmit packet dev n)).sent ≡ (dev, packet) ∷ n.sent
unfolding set_refs queue_xmit
queue_xmit-sent packet dev n = ground arith

module _ (a : Answers) (sk size dev : ℕ) (name : Option Address) (msg : Memory) (n : Net)
    (found : (protocol_get_dev_from_msg sk name size n).0 ≡ ok dev) (able : can_send dev n ≡ true)
    (room : a.room ≡ true) (copied : a.copied ≡ ok tt) (queued : a.queued ≡ ok tt) where
  -- Where nothing fails, a raw message is given to its device as a packet; the sockets and the lists
  -- stay as they are.
  pub sendmsg_succeeds :
      let (r, n') = protocol_raw_sendmsg a sk name size msg n in
      (r ≡ ok size) × (n'.sent ≡ (dev, raw_packet size msg a.garbage) ∷ n.sent) × Keeps n n'
  unfolding protocol_raw_sendmsg send_buffer
  sendmsg_succeeds =
      let n1 = (protocol_get_dev_from_msg sk name size n).1 in
      let n2 = record n1 { skbs = n1.skbs + 1 } in
      let packet = raw_packet size msg a.garbage in
      let n3 = queue_xmit packet dev n2 in
      let kept : Keeps n (dev_put dev n3) = Keeps-trans (get_dev-Keeps sk size name n) (
        Keeps-trans (buffers-Keeps (n1.skbs + 1) n1)
          (Keeps-trans (queue_xmit-Keeps packet dev n2) (set_refs-Keeps (λ r. r - 1) dev n3))) in
      let result : protocol_raw_sendmsg a sk name size msg n ≡ (ok size, dev_put dev n3) = ground (
        arith,
        found,
        room,
        copied,
        queued,
        able,
        get_dev-found sk size dev name n,
        skbs-frame dev (n1.skbs + 1) n1,
        send_to_netdev_runs a.queued dev packet n2,
      ) in
      let put : (dev_put dev n3).sent ≡ (dev, packet) ∷ n.sent =
        ground (arith, get_dev-frame sk size name n, queue_xmit-sent packet dev n2) in
      rw result (refl, put, kept)
