-- ===== src/Net/System/Steady.antt =====
-- What holds of driver/net through every sequence of calls, events and packets.
use driver_arinc.Prelude.{
  ℕ, ◌+◌, ◌-◌, ◌≡◌, ◌∙◌, refl, true, List, [], ◌∷◌, Result-cases, inl, inr, arith,
}
use driver_arinc.Net.{SocketInfo, Packet, ProtocolSock, Net}
use driver_arinc.Net.Sockets.{call_all, get_list, socket_list_rx_funcs}
use driver_arinc.Net.Protocol.{set_sock, protocol_rx}
use driver_arinc.Net.Protocol.References.{refs_of, set_sock-frame}
use driver_arinc.Net.Messages.{free_datagram, kmalloc, kfree}
use driver_arinc.Net.Family.{RxAnswers, call_rx_func, free_skb, avionics_packet_rx}
use driver_arinc.Net.System.Quiet.{Quiet, Quiet-trans, set_sock-Quiet, buffers-Quiet}
use driver_arinc.Net.System.Lists.{IsOrderly}

-- The state of driver/net is orderly, and each device has as many references as at first.
pub record IsSteady (refs : ℕ → ℕ) (buffers : ℕ) (n : Net) : Type 0 where
  pub orderly : IsOrderly buffers n
  pub referenced : (dev : ℕ) → refs_of dev n ≡ refs dev

-- An operation that changes no device and gives all back.
record Calm (n n' : Net) : Type 0 where
  quiet : Quiet n n'
  references : (dev : ℕ) → refs_of dev n' ≡ refs_of dev n
  counted : n'.skbs ≡ n.skbs

Calm-refl : (n : Net) → Calm n n
unfolding refs_of
Calm-refl n = record {
  quiet = record { same = λ i. refl; lock = refl };
  references = λ i. refl;
  counted = refl;
}

Calm-trans : {n n' n'' : Net} → Calm n n' → Calm n' n'' → Calm n n''
Calm-trans h h' = record {
  quiet = Quiet-trans h.quiet h'.quiet;
  references = λ i. h'.references i ∙ h.references i;
  counted = h'.counted ∙ h.counted;
}

set_sock-Calm : (sk : ℕ) (s : ProtocolSock) (n : Net) → Calm n (set_sock sk s n)
unfolding set_sock
set_sock-Calm sk s n = record {
  quiet = set_sock-Quiet sk s n;
  references = λ i. (set_sock-frame i sk s n).0;
  counted = refl;
}

-- A buffer that was counted while it went to or came from the queue of a socket.
queued-Calm :
    (sk : ℕ) (s : ProtocolSock) (n : Net)
    → Calm n (record (set_sock sk s (record n { skbs = n.skbs + 1 })) { skbs = n.skbs + 1 - 1 })
unfolding set_sock
queued-Calm sk s n =
    let same : n.skbs + 1 - 1 ≡ n.skbs = omega arith in rw same (set_sock-Calm sk s n)

taken-Calm :
    (sk : ℕ) (s : ProtocolSock) (n : Net)
    → Calm n (free_datagram (set_sock sk s (record n { skbs = n.skbs + 1 })))
unfolding free_datagram set_sock
taken-Calm sk s n = queued-Calm sk s n

-- A packet that was taken, with the buffer that its words are copied to.
copied-Calm :
    (sk : ℕ) (s : ProtocolSock) (n : Net)
    → Calm n (kfree (free_datagram (kmalloc (set_sock sk s (record n { skbs = n.skbs + 1 })))))
unfolding free_datagram kmalloc kfree set_sock
copied-Calm sk s n =
    let same : n.skbs + 1 + 1 - 1 - 1 ≡ n.skbs = omega arith in rw same (set_sock-Calm sk s n)

ruleset calm = (arith, copied-Calm, queued-Calm, taken-Calm, Calm-refl)

call_rx_func-Calm :
    (a : RxAnswers) (dev : ℕ) (packet : Packet) (info : SocketInfo) (n : Net)
    → Calm n (call_rx_func a dev packet info n)
unfolding call_rx_func protocol_rx
call_rx_func-Calm a dev packet info n = grind calm

call_all-Calm :
    (a : RxAnswers) (dev : ℕ) (packet : Packet) (infos : List SocketInfo) (n : Net)
    → Calm n (call_all (call_rx_func a dev packet) infos n)
unfolding call_all
call_all-Calm a dev packet [] n = Calm-refl n
call_all-Calm a dev packet (info ∷ rest) n =
    Calm-trans (call_rx_func-Calm a dev packet info n)
      (call_all-Calm a dev packet rest (call_rx_func a dev packet info n))

rx_funcs-Calm :
    (a : RxAnswers) (dev : ℕ) (packet : Packet) (n : Net)
    → Calm n (socket_list_rx_funcs dev (call_rx_func a dev packet) n).1
unfolding socket_list_rx_funcs
rx_funcs-Calm a dev packet n = elim (Result-cases (get_list dev n)) [
  | inl (list, r) ↦ ground (arith, r, call_all-Calm a dev packet list.infos n)
  | inr (e, r) ↦ ground (arith, r, Calm-refl n)
]

-- A packet that is received changes no device.
pub packet_rx-Quiet :
    (a : RxAnswers) (dev : ℕ) (packet : Packet) (n : Net)
    → Quiet n (avionics_packet_rx true a dev packet n).1
unfolding avionics_packet_rx free_skb
packet_rx-Quiet a dev packet n =
    let called = (socket_list_rx_funcs dev (call_rx_func a dev packet) n).1 in
    let early = buffers-Quiet (n.skbs - 1) n.sent n in
    let late =
      Quiet-trans (rx_funcs-Calm a dev packet n).quiet
        (buffers-Quiet (called.skbs - 1) called.sent called) in
    ground (arith, early, late)
