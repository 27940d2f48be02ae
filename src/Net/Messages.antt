-- ===== src/Net/Messages.antt =====
-- driver/net/protocol-raw.c and driver/net/protocol-timestamp.c: sending and receiving. A raw
-- message is 4 bytes for each word; a packet is an array of 12-byte samples, a 64-bit time and the
-- word. Memory is a function from a position to a byte.
pub mod Samples
pub mod Buffers
use driver_arinc.Prelude.{
  ℕ, zero, suc, ◌+◌, ◌-◌, ◌*◌, ◌/◌, ◌%◌, Bool, true, false, ◌&&◌, List, [], ◌∷◌, Option, none, some,
  ltb, leb, if◌then◌else◌, Result, Errno, ok, err, enomem, Step, pure, fail, ◌>>=◌, ◌>>◌, modify,
  drop,
}
use driver_arinc.Net.{NetDevice, Packet, ProtocolSock, Net, update}
use driver_arinc.Net.Protocol.{
  Address, set_sock, dev_put, protocol_get_dev_from_msg, protocol_send_to_netdev,
}

abbrev pub Memory : Type 0
Memory = ℕ → ℕ

-- `lo <= j && j < hi`
abbrev pub within : (lo hi j : ℕ) → Bool
within lo hi j = leb lo j && ltb j hi

-- `memcpy` of `n` bytes of `from` at `src` into `to` at `dst`.
unfoldable pub copy : (n : ℕ) (from : Memory) (src : ℕ) (to : Memory) (dst : ℕ) → Memory
copy n from src to dst j = if within dst (dst + n) j then from (src + (j - dst)) else to j

-- `data[i].time_msecs = 0`
unfoldable pub clear_time : (i : ℕ) → Memory → Memory
clear_time i m j = if within (12 * i) (12 * i + 8) j then 0 else m j

-- One round of the loop in `protocol_raw_sendmsg`.
unfoldable pub expand_sample : (i : ℕ) → Memory → Memory
expand_sample i m = clear_time i (copy 4 m (4 * i) m (12 * i + 8))

-- The rounds `n - 1`, …, 0.
unfoldable pub expand : (n : ℕ) → Memory → Memory
expand zero m = m
expand (suc i) m = expand i (expand_sample i m)

-- The rounds 0, …, `n - 1` of the loop in `protocol_raw_recvmsg`.
unfoldable pub compress : (n : ℕ) (samples buffer : Memory) → Memory
compress zero samples buffer = buffer
compress (suc i) samples buffer = copy 4 samples (12 * i + 8) (compress i samples buffer) (4 * i)

-- What the kernel answers in the course of a call: whether a buffer can be allocated, what the
-- buffer holds then, what the copy from the caller's memory returns, and what the device's queue
-- returns.
pub record Answers : Type 0 where
  pub room : Bool
  pub garbage : Memory
  pub copied : Result (Unit {0})
  pub queued : Result (Unit {0})

-- `kfree_skb(skb); dev_put(dev);`
unfoldable pub discard : (dev : ℕ) → Net → Net
discard dev n = dev_put dev (record n { skbs = n.skbs - 1 })

-- The two `sendmsg` functions, which differ in the length of the buffer and in what is done to the
-- message in it.
unfoldable pub send_buffer :
    (buffer_size : ℕ) (fill : Memory → Memory) (a : Answers) (sk : ℕ) (name : Option Address)
    (size : ℕ) (msg : Memory)
    → Step Net ℕ
send_buffer buffer_size fill a sk name size msg = do
  dev ← protocol_get_dev_from_msg sk name size
  if a.room
      then (do
        modify (λ n. record n { skbs = n.skbs + 1 })
        let packet : Packet = record {
          len = buffer_size;
          bytes = fill (copy size msg 0 a.garbage 0);
          ifindex = 0;
        }
        elim a.copied [
          | ok _ ↦ do protocol_send_to_netdev a.queued dev packet; pure size
          | err e ↦ do modify (discard dev); fail e
        ])
      else (do modify (dev_put dev); fail enomem)

unfoldable pub protocol_raw_sendmsg :
    (a : Answers) (sk : ℕ) (name : Option Address) (size : ℕ) (msg : Memory) → Step Net ℕ
protocol_raw_sendmsg a sk name size msg =
    let num_samples = size / 4 in
    send_buffer (num_samples * 12) (expand num_samples) a sk name size msg

unfoldable pub protocol_timestamp_sendmsg :
    (a : Answers) (sk : ℕ) (name : Option Address) (size : ℕ) (msg : Memory) → Step Net ℕ
protocol_timestamp_sendmsg = λ a sk name size msg. send_buffer size (λ m. m) a sk name size msg

-- The length that is received: the caller's, cut to the packet's.
unfoldable pub received_size : (size len : ℕ) → ℕ
received_size size len = if ltb size len then size else len

-- What a call of `recvmsg` returns and copies to the caller, from a packet of the socket's queue:
-- the number of bytes, the bytes, whether MSG_TRUNC is set, and the interface index in the name.
pub record Received : Type 0 where
  pub size : ℕ
  pub bytes : Memory
  pub is_truncated : Bool
  pub ifindex : ℕ

unfoldable pub raw_received : (size : ℕ) (garbage : Memory) → Packet → Received
raw_received size garbage p =
    let num_samples = received_size size p.len / 12 in
    record {
      size = num_samples * 4;
      bytes = compress num_samples p.bytes garbage;
      is_truncated = ltb size p.len;
      ifindex = p.ifindex;
    }

unfoldable pub timestamp_received : (size : ℕ) → Packet → Received
timestamp_received size p = record {
  size = received_size size p.len;
  bytes = p.bytes;
  is_truncated = ltb size p.len;
  ifindex = p.ifindex;
}

-- `skb_recv_datagram`: the first packet of the queue, which is in use from then on, or the error
-- `empty`.
unfoldable pub take_packet : (empty : Errno) (sk : ℕ) → Step Net Packet
take_packet empty sk n =
    let s = n.socks sk in
    elim s.receive_queue [
      | [] ↦ (err empty, n)
      | p ∷ rest ↦
          (ok p, set_sock sk (record s { receive_queue = rest }) (record n { skbs = n.skbs + 1 }))
    ]

-- `skb_free_datagram`
unfoldable pub free_datagram : Net → Net
free_datagram n = record n { skbs = n.skbs - 1 }

unfoldable pub kmalloc : Net → Net
kmalloc n = record n { skbs = n.skbs + 1 }

unfoldable pub kfree : Net → Net
kfree n = record n { skbs = n.skbs - 1 }

-- What `protocol_raw_recvmsg` returns behind its copy to the caller's memory.
unfoldable pub raw_copied :
    (garbage : Memory) (copied : Result (Unit {0})) (size : ℕ) → Packet → Step Net Received
raw_copied garbage copied size p = elim copied [
  | ok _ ↦ pure (raw_received size garbage p)
  | err e ↦ fail e
]

-- `buffer` is what `kmalloc` returns, which is not tested: a packet with a sample in it is then
-- stored through a NULL pointer. The packet and the buffer are freed also where the copy to the
-- caller's memory fails.
unfoldable pub protocol_raw_recvmsg :
    (empty : Errno) (buffer : Option Memory) (copied : Result (Unit {0})) (sk size : ℕ)
    → Step Net Received
unfolding raw_copied free_datagram kmalloc kfree
protocol_raw_recvmsg empty buffer copied sk size = do
  p ← take_packet empty sk
  elim buffer [
    | some garbage ↦ do
      modify kmalloc
      modify free_datagram
      modify kfree
      raw_copied garbage copied size p
    | none ↦
        if ltb 11 (received_size size p.len)
        then (do modify (λ n. record n { faulted = true }); fail enomem)
        else (do modify free_datagram; raw_copied (λ j. 0) copied size p)
  ]

unfoldable pub protocol_timestamp_recvmsg :
    (empty : Errno) (copied : Result (Unit {0})) (sk size : ℕ) → Step Net Received
unfolding free_datagram
protocol_timestamp_recvmsg empty copied sk size = do
  p ← take_packet empty sk
  modify free_datagram
  elim copied [ ok _ ↦ pure (timestamp_received size p) | err e ↦ fail e ]
