-- ===== src/Tests/Net.antt =====
-- The theorems about driver/net and driver/devices/lb.c at a small network.
use driver_arinc.Prelude.{
  ◌%◌, ℕ, ◌+◌, ◌≡◌, refl, Bool, true, false, [], ◌∷◌, some, ok, err, Errno, enodev, kernel_error,
  arith, ◌&&◌, get_or,
}
use driver_arinc.Net.{SocketList, NetDevice, Packet, ProtocolSock, Net}
use driver_arinc.Net.Sockets.{
  empty_list, get_list, list_of, socket_list_add_socket, socket_list_remove_socket, is_listed,
}
use driver_arinc.Net.Sockets.Invariant.{IsSound, IsAttached, Call, Calls, Calls-IsSound}
use driver_arinc.Net.Sockets.Listens.{listens}
use driver_arinc.Net.Protocol.{
  Address, entry_of, protocol_bind, bind_device, set_refs, dev_get_by_index, protocol_release,
  protocol_get_dev_from_msg, ifindex_of, check_device, protocol_send_to_netdev,
}
use driver_arinc.Net.Protocol.References.{refs_of}
use driver_arinc.Net.Protocol.Binding.{protocol_release-protocol_bind}
use driver_arinc.Net.Messages.{Memory, Answers, copy, expand, protocol_raw_sendmsg, send_buffer}
use driver_arinc.Net.Messages.Buffers.{can_send, protocol_raw_sendmsg_leaks}
use driver_arinc.Net.Family.{
  RxAnswers, InitAnswers, avionics_packet_rx, avionics_init, avionics_exit,
}
use driver_arinc.Net.Family.Delivery.{copies, takes, avionics_packet_rx-delivers}
use driver_arinc.Net.Family.Startup.{unregistered, avionics_exit-avionics_init}
use driver_arinc.Net.Loopback.{Loopback}
use driver_arinc.Net.Device.{
  Attribute, attributes, Message, reports, AvionicsOps, device_fill_info, device_get_size,
  device_fill_info-device_get_size,
}
use driver_arinc.Tests.Chip.{no_stats}

-- Every index has a device of its own, which is up and can transmit.
abbrev pub device : NetDevice
device = record {
  is_avionics = true;
  is_up = true;
  mtu = 3072;
  can_transmit = true;
  refs = 1;
  ml_priv = some empty_list;
}

abbrev pub sock : ProtocolSock
sock = record {
  ifindex = 0;
  bound = false;
  is_down = false;
  is_released = false;
  receive_queue = [];
}

abbrev pub net : Net
net = record {
  devices = λ i. some device;
  socks = λ sk. sock;
  lock_held = false;
  lost = [];
  faulted = false;
  skbs = 0;
  sent = [];
}

net-IsSound : IsSound net
unfolding IsSound list_of
net-IsSound dev list h =
    let good : IsAttached empty_list = record { counted = refl; unique = tt; waits_not = refl } in
    ground (arith, good, h)

Calls-IsSound_example :
    IsSound
      (socket_list_remove_socket 3 (entry_of 1) (socket_list_add_socket true 3 (entry_of 1) net).1)
Calls-IsSound_example = Calls-IsSound net-IsSound (
    Calls.next (Calls.next Calls.here (Call.socket_added true 3 (entry_of 1) net))
      (Call.socket_removed 3 (entry_of 1) (socket_list_add_socket true 3 (entry_of 1) net).1))

abbrev joined : Net
joined = (socket_list_add_socket true 3 (entry_of 1) net).1

abbrev pub one_list : SocketList
one_list = record { infos = entry_of 1 ∷ []; remove_on_zero_entries = false; entries = 1 }

abbrev pub one : Net
one = record net { devices = λ i. some (record device { ml_priv = some one_list }) }

pub one_has_list : get_list 3 one ≡ ok one_list
unfolding get_list
one_has_list = refl

pub one-IsSound : IsSound one
unfolding IsSound list_of is_listed
one-IsSound dev list h =
    let good : IsAttached one_list = record {
      counted = refl;
      unique = (refl, tt);
      waits_not = refl;
    } in
    ground (arith, good, h)

pub one-listens : listens (entry_of 1) 3 one ≡ true
unfolding listens list_of is_listed
one-listens = refl

abbrev pub address : ℕ → Address
address ifindex = record { len = 8; is_avionics_family = true; ifindex = ifindex }

abbrev bound_net : Net
bound_net = (protocol_bind true 1 (address 3) net).1

binds : protocol_bind true 1 (address 3) net ≡ (ok tt, bound_net)
unfolding protocol_bind bind_device dev_get_by_index set_refs socket_list_add_socket get_list
    is_listed
binds = refl

protocol_release-protocol_bind_example :
    listens (entry_of 1) 3 (protocol_release 1 bound_net).1 ≡ false
protocol_release-protocol_bind_example =
    protocol_release-protocol_bind true 1 3 (address 3) (entry_of 1) net bound_net net-IsSound refl
      refl binds

abbrev pub rebound : Net
rebound = (protocol_bind true 1 (address 4) one).1

pub rebinds : protocol_bind true 1 (address 4) one ≡ (ok tt, rebound)
unfolding protocol_bind bind_device dev_get_by_index set_refs socket_list_add_socket get_list
    is_listed
rebinds = refl

abbrev pub message : Memory
message j = (j + 1) % 256

abbrev pub zeros : Memory
zeros j = 0

abbrev pub answers : Answers
answers = record { room = true; garbage = zeros; copied = ok tt; queued = ok tt }

abbrev raw_packet : Packet
raw_packet = record { len = 24; bytes = expand 2 (copy 8 message 0 zeros 0); ifindex = 0 }

net_accepts : (protocol_raw_sendmsg answers 1 (some (address 3)) 8 message net).0 ≡ ok 8
unfolding protocol_raw_sendmsg send_buffer protocol_get_dev_from_msg check_device dev_get_by_index
    ifindex_of set_refs protocol_send_to_netdev
net_accepts = refl

-- The same with receivers, which cannot transmit.
abbrev receivers : Net
receivers = record net { devices = λ i. some (record device { can_transmit = false }) }

receivers_find : (protocol_get_dev_from_msg 1 (some (address 3)) 8 receivers).0 ≡ ok 3
unfolding protocol_get_dev_from_msg check_device dev_get_by_index ifindex_of
receivers_find = refl

receivers_send_not : can_send 3 receivers ≡ false
unfolding can_send
receivers_send_not = refl

protocol_raw_sendmsg_leaks_example :
    let (r, n') = protocol_raw_sendmsg answers 1 (some (address 3)) 8 message receivers in
    (r ≡ err enodev) × (refs_of 3 n' ≡ refs_of 3 receivers + 1) × (n'.skbs ≡ 1)
protocol_raw_sendmsg_leaks_example =
    protocol_raw_sendmsg_leaks answers 1 8 3 (some (address 3)) message receivers receivers_find
      receivers_send_not refl refl

abbrev pub takers : RxAnswers
takers = record { clone = λ sk. true; queued = λ sk. ok tt }

avionics_packet_rx-delivers_example :
    let (received, n') = avionics_packet_rx true takers 3 raw_packet one in
    (received ≡ true)
    × ((n'.socks 1).receive_queue
        ≡ copies (listens (entry_of 1) 3 one && takes takers 1) 3 raw_packet)
avionics_packet_rx-delivers_example =
    avionics_packet_rx-delivers takers 3 1 raw_packet one_list one one-IsSound one_has_list

-- The raw protocol cannot be registered.
abbrev init_answers : InitAnswers
init_answers = record {
  socket_list = ok tt;
  netlink = ok tt;
  raw = err (kernel_error 17);
  family = ok tt;
  notifier = ok tt;
}

avionics_exit-avionics_init_example :
    let (result, r) = avionics_init init_answers unregistered in
    ((e : Errno) → result ≡ err e → r ≡ unregistered)
    × (result ≡ ok tt
        → (r ≡ record {
          socket_list_cache = true;
          netlink = true;
          raw_protocol = true;
          socket_family = true;
          notifier = true;
          packet_type = true;
        })
          × (avionics_exit (ok tt) r ≡ unregistered))
avionics_exit-avionics_init_example = avionics_exit-avionics_init init_answers

abbrev pub loopback : Loopback
loopback = record { is_up = true; mtu = 128; stats = no_stats; received = [] }

-- A driver whose state is its bit rate's first byte, and which has no other setting.
abbrev is_rate : Attribute → Bool
is_rate Attribute.rate = true
is_rate _ = false

abbrev rate_ops : AvionicsOps ℕ
rate_ops = record {
  can_set = is_rate;
  can_get = is_rate;
  set = λ a value s. (ok tt, get_or value 0 0);
  get = λ a s. (s ∷ 0 ∷ 0 ∷ 0 ∷ [], s);
}

device_fill_info-device_get_size_example :
    let m : Message = record { room = device_get_size rate_ops (λ len. len + 4); attrs = [] } in
    let (r, (s', m')) = device_fill_info rate_ops (λ len. len + 4) (100, m) in
    (r ≡ ok tt) × (m'.attrs ≡ reports rate_ops attributes 100)
device_fill_info-device_get_size_example =
    device_fill_info-device_get_size rate_ops (λ len. len + 4) 100 (λ a h. h)
