-- ===== src/Tests/Transfer.antt =====
-- The theorems about driver/net together with the drivers, at a small network.
use driver_arinc.Prelude.{
  ◌++◌, ℕ, ◌+◌, ◌*◌, ◌<◌, ◌≡◌, ◌≢◌, refl, true, false, ◌&&◌, [], ◌∷◌, map, some, none, Bool, ok,
  err, enomem, kernel_error, arith,
}
use driver_arinc.Hi3593.Receive.{rx_fifo}
use driver_arinc.Hi3593.Receive.Fifo.{received}
use driver_arinc.Hi3593.Transmit.{start_xmit, run_work}
use driver_arinc.Net.{Packet}
use driver_arinc.Net.Sockets.Listens.{listens}
use driver_arinc.Net.Protocol.{
  entry_of, dev_get_by_index, ifindex_of, check_device, protocol_get_dev_from_msg, protocol_bind,
  leave_device, clear_sock, bind_device, set_refs, bind_sock, set_sock, protocol_release,
}
use driver_arinc.Net.Messages.{Received, protocol_raw_sendmsg, protocol_raw_recvmsg}
use driver_arinc.Net.Messages.Buffers.{can_send}
use driver_arinc.Net.Family.Delivery.{copies, takes}
use driver_arinc.Net.Lifecycle.{
  NetDev, Registry, avionics_device_alloc, avionics_device_priv, avionics_device_register,
  avionics_device_unregister, avionics_device_free,
}
use driver_arinc.Net.Lifecycle.Laws.{device_lifecycle}
use driver_arinc.Net.System.Lists.{IsOrderly}
use driver_arinc.Net.System.Dangling.{released_receives}
use driver_arinc.Net.Sockets.{
  get_list, set_list, socket_list_add_socket, socket_list_remove_socket, is_listed,
}
use driver_arinc.Net.Family.{avionics_packet_rx}
use driver_arinc.Net.Transfer.{receive_all, loop_back}
use driver_arinc.Net.Transfer.Frames.{raw_packet}
use driver_arinc.Net.Transfer.Layout.{skb_of, packet_of}
use driver_arinc.Net.Transfer.Echo.{loop_back_broadcasts, protocol_raw_recvmsg-loop_back}
use driver_arinc.Net.Transfer.Transmission.{message_words, run_work-protocol_raw_sendmsg}
use driver_arinc.Net.Transfer.Reception.{read_all, read_all-rx_fifo}
use driver_arinc.Tests.Chip.{chip, tx_port, receive_fifo, sent_of, transmitter}
use driver_arinc.Tests.Hi3593.{word_bytes, e, even_word, odd_word, ops, full_port}
use driver_arinc.Tests.Net.{
  one, one_list, one-IsSound, one_has_list, one-listens, address, message, zeros, answers, takers,
  loopback, rebound, rebinds,
}

-- Socket 2 sends to device 3, to which socket 1 listens.
one_finds : (protocol_get_dev_from_msg 2 (some (address 3)) 8 one).0 ≡ ok 3
unfolding protocol_get_dev_from_msg check_device dev_get_by_index ifindex_of
one_finds = refl

one-can_send : can_send 3 one ≡ true
unfolding can_send
one-can_send = refl

loop_back_broadcasts_example :
    let (r, n1) = protocol_raw_sendmsg answers 2 (some (address 3)) 8 message one in
    let n2 = loop_back true takers loopback n1 in
    (r ≡ ok 8)
    × ((n2.socks 1).receive_queue
        ≡ copies (listens (entry_of 1) 3 one && takes takers 1) 3 (raw_packet 8 message zeros))
loop_back_broadcasts_example =
    loop_back_broadcasts answers takers loopback 2 8 3 (some (address 3)) message one_list one
      one_finds one-can_send refl refl refl one-IsSound one_has_list 1

protocol_raw_recvmsg-loop_back_example :
    let n1 = (protocol_raw_sendmsg answers 2 (some (address 3)) 8 message one).1 in
    let n2 = loop_back true takers loopback n1 in
    let got = (protocol_raw_recvmsg (kernel_error 11) (some zeros) (ok tt) 1 100 n2).0 in
    (r : Received) × (got ≡ ok r)
    × (r.size ≡ 8)
    × (r.is_truncated ≡ false)
    × (r.ifindex ≡ 3)
    × ((i b : ℕ) → i < 2 → b < 4 → r.bytes (4 * i + b) ≡ message (4 * i + b))
protocol_raw_recvmsg-loop_back_example =
    protocol_raw_recvmsg-loop_back answers takers loopback 2 8 3 (some (address 3)) message one_list
      one one_finds one-can_send refl refl refl one-IsSound one_has_list (kernel_error 11) zeros 1
      100 one-listens refl refl (omega arith)

message_bytes : (j : ℕ) → message j < 256
message_bytes j = omega arith

run_work-protocol_raw_sendmsg_example :
    let (r, n') = protocol_raw_sendmsg answers 2 (some (address 3)) 8 message one in
    (packet : Packet) × (r ≡ ok 8)
    × (n'.sent ≡ (3, packet) ∷ [])
    × (sent_of (run_work chip e (start_xmit chip e (skb_of e (λ i. 0) packet) tx_port)).world
        ≡ message_words 2 0 message)
run_work-protocol_raw_sendmsg_example =
    run_work-protocol_raw_sendmsg e transmitter answers 2 8 3 (some (address 3)) message one
      (λ i. 0) tx_port one_finds one-can_send refl refl refl message_bytes (omega arith) refl refl
      refl

read_all-rx_fifo_example :
    let p' = (rx_fifo chip e ops full_port).1 in
    let n' = receive_all takers 3 (map (packet_of e) p'.delivered) one in
    read_all e zeros (n'.socks 1).receive_queue
    ≡ received e 8 0 (even_word ∷ odd_word ∷ even_word ∷ [])
read_all-rx_fifo_example =
    read_all-rx_fifo e receive_fifo ops even_word (odd_word ∷ even_word ∷ []) full_port takers 3 1
      zeros one_list one refl refl refl word_bytes (omega arith) (λ n w. refl) refl one-IsSound
      one_has_list one-listens refl refl

one-IsOrderly : IsOrderly 0 one
unfolding can_send
one-IsOrderly = record {
  sound = one-IsSound;
  unlocked = refl;
  able = λ dev there. refl;
  counted = refl;
}

-- A driver with one number as its private data, whose device cannot be registered.
abbrev no_devices : Registry
no_devices = record { allocated = 0; registered = 0 }

device_lifecycle_example :
    let (made, r1) =
      avionics_device_alloc {Private = ℕ} {Ops = Bool} true 7 (some true) no_devices in
    (some true ≡ none → made ≡ none)
    × (true ≡ false → made ≡ none)
    × (true ≡ true → some true ≢ none → made ≢ none)
    × (made ≡ none → r1 ≡ no_devices)
    × ((dev : NetDev ℕ Bool)
        → made ≡ some dev
        → let (answer, s) = avionics_device_register (err enomem) (dev, r1) in
          (avionics_device_priv dev ≡ some 7)
          × ((type : ℕ) → type ≢ 281 → avionics_device_priv (record dev { type = type }) ≡ none)
          × (dev.ops ≡ some true)
          × (answer ≡ err enomem)
          × (s.1.registered ≡ 0)
          × (avionics_device_free s.0 (avionics_device_unregister s.0 s.1) ≡ no_devices))
device_lifecycle_example = device_lifecycle true 7 (some true) (err enomem) no_devices

abbrev raw_bytes : Packet
raw_bytes = record { len = 12; bytes = zeros; ifindex = 0 }

-- Socket 1 listens to device 3, is bound to device 4, and is released.
released_receives_example :
    let n'' = (protocol_release 1 rebound).1 in
    ((n''.socks 1).is_released ≡ true)
    × (listens (entry_of 1) 3 n'' ≡ true)
    × (((avionics_packet_rx true takers 3 raw_bytes n'').1.socks 1).receive_queue
        ≡ (n''.socks 1).receive_queue ++ record raw_bytes { ifindex = 3 } ∷ [])
unfolding get_list protocol_release leave_device clear_sock protocol_bind bind_device
    dev_get_by_index set_refs socket_list_add_socket is_listed bind_sock set_sock
    socket_list_remove_socket set_list
released_receives_example =
    released_receives 0 1 3 (address 4) one rebound takers raw_bytes one_list one-IsOrderly
      one-listens (λ h. omega arith) refl refl rebinds refl refl
