-- ===== src/Net/Transfer/Echo.antt =====
-- What a program reads of a raw message that another one sent on the loopback device: the parts
-- of driver/net and of driver/devices/lb.c together.
use driver_arinc.Prelude.{
  Option, ℕ, ◌+◌, ◌*◌, ◌/◌, ◌%◌, ◌≤◌, ◌<◌, ◌≡◌, ◌∙◌, refl, true, false, ◌&&◌, List, [], ◌∷◌, ◌++◌,
  Option, ok, Errno, arith,
}
use driver_arinc.Net.{SocketList, Packet, Net}
use driver_arinc.Net.Sockets.{get_list}
use driver_arinc.Net.Sockets.Invariant.{IsSound}
use driver_arinc.Net.Sockets.Listens.{listens}
use driver_arinc.Net.Protocol.{Address, entry_of, protocol_get_dev_from_msg}
use driver_arinc.Net.Messages.{
  Memory, Answers, Received, received_size, raw_received, take_packet, protocol_raw_sendmsg,
  protocol_raw_recvmsg, raw_copied,
}
use driver_arinc.Net.Messages.Samples.{raw_received-expand}
use driver_arinc.Net.Messages.Buffers.{can_send}
use driver_arinc.Net.Family.{RxAnswers, avionics_packet_rx}
use driver_arinc.Net.Family.Delivery.{takes, copies, avionics_packet_rx-delivers}
use driver_arinc.Net.Loopback.{Loopback, lb_rx, lb_start_xmit}
use driver_arinc.Net.Transfer.{loop_back}
use driver_arinc.Net.Transfer.Frames.{Keeps-IsSound, Keeps-listens, raw_packet, sendmsg_succeeds}

lb_start_xmit-received :
    (packet : Packet) (lb : Loopback)
    → packet.len % 4 ≡ 0
    → (lb_start_xmit true 0x001d packet (record lb { received = [] })).received ≡ packet ∷ []
unfolding lb_start_xmit lb_rx
lb_start_xmit-received packet lb whole = ground arith

loop_back_lem :
    (rx : RxAnswers) (lb : Loopback) (dev : ℕ) (packet : Packet) (rest : List (ℕ × Packet))
    (n : Net)
    → n.sent ≡ (dev, packet) ∷ rest
    → packet.len % 4 ≡ 0
    → loop_back true rx lb n ≡ (avionics_packet_rx true rx dev packet n).1
unfolding loop_back
loop_back_lem rx lb dev packet rest n sent whole =
    rw (sent, lb_start_xmit-received packet lb whole) refl

first_received :
    (empty : Errno) (garbage : Memory) (sk size : ℕ) (packet : Packet) (n : Net)
    → (n.socks sk).receive_queue ≡ packet ∷ []
    → (protocol_raw_recvmsg empty (Option.some garbage) (ok tt) sk size n).0
      ≡ ok (raw_received size garbage packet)
unfolding protocol_raw_recvmsg take_packet raw_copied
first_received empty garbage sk size packet n one = ground (arith, one)

raw_received_whole :
    (room : ℕ) (packet : Packet) (garbage : Memory) (words : ℕ)
    → packet.len ≡ words * 12
    → words * 12 ≤ room
    → let r = raw_received room garbage packet in
      (r.size ≡ words * 4) × (r.is_truncated ≡ false) × (r.ifindex ≡ packet.ifindex)
unfolding raw_received received_size
raw_received_whole room packet garbage words h fits = ground arith

module _ (a : Answers) (rx : RxAnswers) (lb : Loopback) (from size dev : ℕ) (name : Option Address)
    (msg : Memory) (list : SocketList) (n : Net)
    (found : (protocol_get_dev_from_msg from name size n).0 ≡ ok dev) (able : can_send dev n ≡ true)
    (room : a.room ≡ true) (copied : a.copied ≡ ok tt) (queued : a.queued ≡ ok tt)
    (sound : IsSound n) (there : get_list dev n ≡ ok list) where
  -- A raw message on the loopback device is broadcast: it comes, as one packet with the index of the
  -- device, to each socket that listens to the device and can take it, and to no other one. Nothing
  -- fails on the way.
  pub loop_back_broadcasts :
      (sk : ℕ)
      → let (r, n1) = protocol_raw_sendmsg a from name size msg n in
        let n2 = loop_back true rx lb n1 in
        (r ≡ ok size)
        × ((n2.socks sk).receive_queue
            ≡ (n.socks sk).receive_queue
              ++ copies
                  (listens (entry_of sk) dev n && takes rx sk)
                  dev
                  (raw_packet size msg a.garbage))
  loop_back_broadcasts sk =
      let n1 = (protocol_raw_sendmsg a from name size msg n).1 in
      let packet = raw_packet size msg a.garbage in
      let (result, sent, kept) =
        sendmsg_succeeds a from size dev name msg n found able room copied queued in
      let sound1 = Keeps-IsSound kept sound in
      let delivered =
        avionics_packet_rx-delivers rx dev sk packet list n1 sound1 (kept.reachable dev ∙ there) in
      ground (
        arith,
        result,
        loop_back_lem rx lb dev packet n.sent n1 sent (omega arith),
        delivered,
        kept.socks,
        Keeps-listens (entry_of sk) dev kept,
      )

  -- A socket that listens to the loopback device reads what another one wrote, word for word: a raw
  -- message that is sent arrives, all but an incomplete word at its end, with the index of the
  -- device, in a receive buffer that is at least as long as the packet. Nothing fails on the way, and
  -- no packet waits in the socket's queue before.
  pub protocol_raw_recvmsg-loop_back :
      (empty : Errno) (garbage : Memory) (sk room' : ℕ)
      → listens (entry_of sk) dev n ≡ true
      → takes rx sk ≡ true
      → (n.socks sk).receive_queue ≡ []
      → size / 4 * 12 ≤ room'
      → let n1 = (protocol_raw_sendmsg a from name size msg n).1 in
        let got =
          (protocol_raw_recvmsg empty
            (Option.some garbage)
            (ok tt)
            sk
            room'
            (loop_back true rx lb n1)).0 in
        (r : Received) × (got ≡ ok r)
        × (r.size ≡ size / 4 * 4)
        × (r.is_truncated ≡ false)
        × (r.ifindex ≡ dev)
        × ((i b : ℕ) → i < size / 4 → b < 4 → r.bytes (4 * i + b) ≡ msg (4 * i + b))
  protocol_raw_recvmsg-loop_back empty garbage sk room' listening taken fresh fits =
      let n1 = (protocol_raw_sendmsg a from name size msg n).1 in
      let n2 = loop_back true rx lb n1 in
      let packet = record (raw_packet size msg a.garbage) { ifindex = dev } in
      let one : (n2.socks sk).receive_queue ≡ packet ∷ [] =
        ground (arith, loop_back_broadcasts sk, listening, taken, fresh) in
      let (whole, uncut, index) = raw_received_whole room' packet garbage (size / 4) refl fits in
      (
        raw_received room' garbage packet,
        first_received empty garbage sk room' packet n2 one,
        whole,
        uncut,
        index,
        λ i b hi hb. (raw_received-expand size room' i b msg a.garbage garbage dev fits hi hb).2,
      )
