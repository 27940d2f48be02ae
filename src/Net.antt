-- ===== src/Net.antt =====
-- driver/net, the socket family of the avionics devices. This module holds its state: the network
-- devices with the socket lists that hang on them, the sockets, and the buffers that are in use.
pub mod Sockets
pub mod Protocol
pub mod Messages
pub mod Family
pub mod Loopback
pub mod Device
pub mod Transfer
pub mod Lifecycle
pub mod System
pub use driver_arinc.Prelude.{update}
use driver_arinc.Prelude.{ℕ, Bool, List, Option}

-- `struct socket_info`; a socket and a receive function are known by their addresses.
pub record SocketInfo : Type 0 where
  pub rx_func : ℕ
  pub sk : ℕ

-- `struct socket_list`; `infos` is the list at `head`, from its front.
pub record SocketList : Type 0 where
  pub infos : List SocketInfo
  pub remove_on_zero_entries : Bool
  pub entries : ℕ

-- What the code reads of a `struct net_device`, and its reference count.
pub record NetDevice : Type 0 where
  -- `dev->type == ARPHRD_AVIONICS`
  pub is_avionics : Bool
  -- `dev->flags & IFF_UP`
  pub is_up : Bool
  pub mtu : ℕ
  -- Whether `dev->netdev_ops->ndo_start_xmit` is there.
  pub can_transmit : Bool
  pub refs : ℕ
  pub ml_priv : Option SocketList

-- A packet: its bytes, and the interface index that `protocol_rx` puts into its control buffer.
pub record Packet : Type 0 where
  pub len : ℕ
  pub bytes : ℕ → ℕ
  pub ifindex : ℕ

-- `struct protocol_sock`, with the state of its `struct sock`.
pub record ProtocolSock : Type 0 where
  pub ifindex : ℕ
  pub bound : Bool
  -- Whether the socket was told that its network is down.
  pub is_down : Bool
  pub is_released : Bool
  pub receive_queue : List Packet

pub record Net : Type 0 where
  -- The device with an index, if there is one.
  pub devices : ℕ → Option NetDevice
  pub socks : ℕ → ProtocolSock
  -- `socket_list_lock`
  pub lock_held : Bool
  -- Socket lists that no device points to and that were not freed.
  pub lost : List SocketList
  -- Buffers that are in use: packets that are neither in a queue nor freed, and the memory that
  -- `protocol_raw_recvmsg` allocates.
  pub skbs : ℕ
  -- Whether a call stored through a NULL pointer, after which nothing is said.
  pub faulted : Bool
  -- What `dev_queue_xmit` was given, the last first: the device and the packet.
  pub sent : List (ℕ × Packet)
