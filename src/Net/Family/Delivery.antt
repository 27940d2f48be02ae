-- ===== src/Net/Family/Delivery.antt =====
-- Who gets a packet that a device received (avionics_packet_rx of driver/net/avionics.c).
use driver_arinc.Prelude.{
  ℕ, ◌≡◌, refl, Bool, true, false, ◌&&◌, List, [], ◌∷◌, ◌++◌, append-nil, ok, err, arith,
}
use driver_arinc.Net.{SocketInfo, SocketList, Packet, Net}
use driver_arinc.Net.Sockets.{is_entry, is_listed, call_all, get_list, socket_list_rx_funcs}
use driver_arinc.Net.Sockets.Entries.{AreUnique}
use driver_arinc.Net.Sockets.Invariant.{IsSound, attached}
use driver_arinc.Net.Sockets.Listens.{listens, listens-get_list}
use driver_arinc.Net.Protocol.{entry_of, set_sock, protocol_rx}
use driver_arinc.Net.Family.{
  RxAnswers, call_rx_func, is_avionics_device, free_skb, avionics_packet_rx,
}

-- Whether a socket can take a packet.
abbrev pub takes : RxAnswers → (sk : ℕ) → Bool
takes a sk = a.clone sk && elim (a.queued sk) [ ok _ ↦ true | err _ ↦ false ]

-- The copy that a socket gets.
abbrev pub copies : Bool → (dev : ℕ) → Packet → List Packet
copies true dev packet = record packet { ifindex = dev } ∷ []
copies false dev packet = []

call_rx_func-queue :
    (a : RxAnswers) (dev sk : ℕ) (packet : Packet) (info : SocketInfo) (n : Net)
    → ((call_rx_func a dev packet info n).socks sk).receive_queue
      ≡ (n.socks sk).receive_queue ++ copies (is_entry (entry_of sk) info && takes a sk) dev packet
unfolding call_rx_func protocol_rx set_sock
call_rx_func-queue a dev sk packet info n = ground (arith, append-nil (n.socks sk).receive_queue)

is_entry_eq : (sk : ℕ) (info : SocketInfo) → is_entry (entry_of sk) info ≡ true → info ≡ entry_of sk
is_entry_eq sk info h = ground arith

call_all-queue :
    (a : RxAnswers) (dev sk : ℕ) (packet : Packet) (infos : List SocketInfo) (n : Net)
    → AreUnique infos
    → ((call_all (call_rx_func a dev packet) infos n).socks sk).receive_queue
      ≡ (n.socks sk).receive_queue
        ++ copies (is_listed (entry_of sk) infos && takes a sk) dev packet
unfolding call_all is_listed
call_all-queue a dev sk packet [] n h = rw (append-nil (n.socks sk).receive_queue) refl
call_all-queue a dev sk packet (info ∷ rest) n h =
    let n1 = call_rx_func a dev packet info n in
    ground (
      arith,
      h.0,
      call_rx_func-queue a dev sk packet info n,
      call_all-queue a dev sk packet rest n1 h.1,
      is_entry_eq sk info,
      append-nil (n.socks sk).receive_queue,
      append-nil (n1.socks sk).receive_queue,
    )

free_skb-socks : (n : Net) → (free_skb n).socks ≡ n.socks
unfolding free_skb
free_skb-socks n = refl

is_avionics_list :
    (dev : ℕ) (list : SocketList) (n : Net)
    → get_list dev n ≡ ok list
    → is_avionics_device dev n ≡ true
unfolding is_avionics_device get_list
is_avionics_list dev list n h = ground arith

-- A packet that a device of the initial namespace received is put once into the queue of every
-- socket that listens to the device and can take it, with the device's index in it, and into no
-- other queue. The device has a list, and the lists are as the operations leave them.
pub avionics_packet_rx-delivers :
    (a : RxAnswers) (dev sk : ℕ) (packet : Packet) (list : SocketList) (n : Net)
    → IsSound n
    → get_list dev n ≡ ok list
    → let (received, n') = avionics_packet_rx true a dev packet n in
      (received ≡ true)
      × ((n'.socks sk).receive_queue
          ≡ (n.socks sk).receive_queue
            ++ copies (listens (entry_of sk) dev n && takes a sk) dev packet)
unfolding avionics_packet_rx socket_list_rx_funcs
avionics_packet_rx-delivers a dev sk packet list n sound r =
    let h = attached dev list n sound r in
    let n1 = call_all (call_rx_func a dev packet) list.infos n in
    ground (
      arith,
      r,
      is_avionics_list dev list n r,
      listens-get_list (entry_of sk) dev list n r,
      call_all-queue a dev sk packet list.infos n h.unique,
      free_skb-socks n1,
    )
