-- ===== src/Net/System.antt =====
-- driver/net as a whole: what programs and devices do to it, one step after the other.
pub mod Quiet
pub mod Lists
pub mod Steady
pub mod Dangling
use driver_arinc.Prelude.{ℕ, ◌+◌, Bool, true, Option, some, Result, Errno}
use driver_arinc.Net.{Packet, Net}
use driver_arinc.Net.Protocol.{Address, protocol_bind, protocol_release}
use driver_arinc.Net.Messages.{
  Memory, Answers, protocol_raw_sendmsg, protocol_timestamp_sendmsg, protocol_raw_recvmsg,
  protocol_timestamp_recvmsg,
}
use driver_arinc.Net.Family.{RxAnswers, NetdevEvent, avionics_packet_rx, avionics_netdev_notifier}

-- A call of a program on one of its sockets, an event of a network device, or a packet that a device
-- received, in the buffer that its driver allocated. The entry of a socket can be allocated when it
-- is bound, and so can the buffer of `protocol_raw_recvmsg`; all else may fail.
pub data Action : Net → Net → Type 0 where
  bound : (sk : ℕ) (addr : Address) (n : Net) → Action n (protocol_bind true sk addr n).1
  released : (sk : ℕ) (n : Net) → Action n (protocol_release sk n).1
  raw_sent :
      (a : Answers) (sk : ℕ) (name : Option Address) (size : ℕ) (msg : Memory) (n : Net)
      → Action n (protocol_raw_sendmsg a sk name size msg n).1
  timestamp_sent :
      (a : Answers) (sk : ℕ) (name : Option Address) (size : ℕ) (msg : Memory) (n : Net)
      → Action n (protocol_timestamp_sendmsg a sk name size msg n).1
  raw_read :
      (empty : Errno) (garbage : Memory) (copied : Result (Unit {0})) (sk size : ℕ) (n : Net)
      → Action n (protocol_raw_recvmsg empty (some garbage) copied sk size n).1
  timestamp_read :
      (empty : Errno) (copied : Result (Unit {0})) (sk size : ℕ) (n : Net)
      → Action n (protocol_timestamp_recvmsg empty copied sk size n).1
  packet_received :
      (in_namespace : Bool) (a : RxAnswers) (dev : ℕ) (packet : Packet) (n : Net)
      → Action n (avionics_packet_rx in_namespace a dev packet (record n { skbs = n.skbs + 1 })).1
  device_changed :
      (in_namespace room : Bool) (msg : NetdevEvent) (dev : ℕ) (n : Net)
      → Action n (avionics_netdev_notifier in_namespace room msg dev n)

pub data Run (start : Net) : Net → Type 0 where
  here : Run start start
  next : {n n' : Net} → Run start n → Action n n' → Run start n'
