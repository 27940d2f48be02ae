-- ===== src/Net/Sockets.antt =====
-- driver/net/socket-list.c: the list of sockets that a device hands its packets to. An allocation
-- is an argument that tells whether it succeeds. A caller that finds the lock held waits, so an
-- operation starts with the lock free.
pub mod Entries
pub mod Invariant
pub mod Listens
use driver_arinc.Prelude.{
  ℕ, ◌+◌, ◌-◌, Bool, true, false, not, ◌&&◌, List, [], ◌∷◌, Option, none, some, ◌==◌, if◌then◌else◌,
  Result, ok, err, enodev, enomem, einval, Step, pure, fail, ◌>>=◌, ◌>>◌, modify,
}
use driver_arinc.Net.{SocketInfo, SocketList, NetDevice, Net, update}

-- `(sk_info->rx_func == rx_func) && (sk_info->sk == sk)`
abbrev pub is_entry : SocketInfo → SocketInfo → Bool
is_entry a b = (b.rx_func == a.rx_func) && (b.sk == a.sk)

-- Whether the loop over the list finds the socket.
unfoldable pub is_listed : SocketInfo → List SocketInfo → Bool
is_listed a [] = false
is_listed a (b ∷ rest) = if is_entry a b then true else is_listed a rest

-- `hlist_del_rcu` of the entry that the loop finds.
unfoldable pub delete : SocketInfo → List SocketInfo → List SocketInfo
delete a [] = []
delete a (b ∷ rest) = if is_entry a b then rest else b ∷ delete a rest

-- The list of a device, behind the three tests that the operations begin with.
unfoldable pub get_list : (dev : ℕ) → Net → Result SocketList
get_list dev n = elim (n.devices dev) [
  | none ↦ err enodev
  | some d ↦
      if d.is_avionics
      then elim d.ml_priv [ none ↦ err enodev | some list ↦ ok list ]
      else err enodev
]

-- `dev->ml_priv = …`
unfoldable pub set_list : (dev : ℕ) → Option SocketList → Net → Net
set_list dev list n = elim (n.devices dev) [
  | none ↦ n
  | some d ↦ record n { devices = update dev (some (record d { ml_priv = list })) n.devices }
]

abbrev pub spin_lock : Net → Net
spin_lock n = record n { lock_held = true }

abbrev pub spin_unlock : Net → Net
spin_unlock n = record n { lock_held = false }

-- `socket_list_rx_funcs`, where `call` is a call of the entry's `rx_func` on the packet.
unfoldable pub call_all : {S : Type 0} → (SocketInfo → S → S) → List SocketInfo → S → S
call_all call [] s = s
call_all call (a ∷ rest) s = call_all call rest (call a s)

unfoldable pub socket_list_rx_funcs :
    (dev : ℕ) (call : SocketInfo → Net → Net) → Step Net (Unit {0})
socket_list_rx_funcs dev call = do
  list ← λ n. (get_list dev n, n)
  modify (call_all call list.infos)

-- The entry is taken out and counted; a list that waits for its last socket is freed.
unfoldable pub remove_entry : SocketInfo → SocketList → Option SocketList
remove_entry a list =
    let entries = list.entries - 1 in
    if list.remove_on_zero_entries && (entries == 0)
    then none
    else some (record list { infos = delete a list.infos; entries = entries })

unfoldable pub socket_list_remove_socket : (dev : ℕ) → SocketInfo → Net → Net
socket_list_remove_socket dev a n = elim (get_list dev n) [
  | err e ↦ n
  | ok list ↦
      let n1 = spin_lock n in
      if is_listed a list.infos
      then spin_unlock (set_list dev (remove_entry a list) n1)
      else spin_unlock n1
]

unfoldable pub add_entry : SocketInfo → SocketList → SocketList
add_entry a list = record list { infos = a ∷ list.infos; entries = list.entries + 1 }

-- `room` tells whether the entry can be allocated.
unfoldable pub socket_list_add_socket : (room : Bool) (dev : ℕ) → SocketInfo → Step Net (Unit {0})
unfolding spin_lock spin_unlock
socket_list_add_socket room dev a = do
  list ← λ n. (get_list dev n, n)
  modify spin_lock
  if is_listed a list.infos
      then modify spin_unlock
      else if room
      then (do modify (set_list dev (some (add_entry a list))); modify spin_unlock)
      else fail enomem

-- `sk_list->remove_on_zero_entries = 1` on a list that the device gives up; it is freed only where
-- it has no entries.
unfoldable pub give_up : SocketList → Net → Net
give_up list n =
    if list.entries == 0
    then n
    else record n { lost = record list { remove_on_zero_entries = true } ∷ n.lost }

-- `dev->ml_priv`
unfoldable pub list_of : (dev : ℕ) → Net → Option SocketList
list_of dev n = elim (n.devices dev) [ none ↦ none | some d ↦ d.ml_priv ]

unfoldable pub socket_list_remove : (dev : ℕ) → Net → Net
socket_list_remove dev n = elim (list_of dev n) [
  | some list ↦ spin_unlock (set_list dev none (give_up list (spin_lock n)))
  | none ↦ spin_unlock (spin_lock n)
]

abbrev pub empty_list : SocketList
empty_list = record { infos = []; remove_on_zero_entries = false; entries = 0 }

unfoldable pub socket_list_add : (room : Bool) (dev : ℕ) → Step Net (Unit {0})
socket_list_add room dev n = elim (list_of dev n) [
  | some list ↦ (err einval, n)
  | none ↦ if room then (ok tt, set_list dev (some empty_list) n) else (err enomem, n)
]

-- What `socket_list_exit` does to the devices: every list is freed, whether or not it has entries.
unfoldable pub free_lists : Net → Net
free_lists n = record n {
  devices = λ dev. elim (n.devices dev) [
    | none ↦ none
    | some d ↦ if d.is_avionics then some (record d { ml_priv = none }) else some d
  ];
}
