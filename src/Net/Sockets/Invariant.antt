-- ===== src/Net/Sockets/Invariant.antt =====
-- The socket lists of driver/net/socket-list.c through every sequence of operations.
use driver_arinc.Prelude.{
  ℕ, ◌≡◌, refl, Bool, true, false, length, Option, none, some, Option-cases, Result-cases,
  Bool-cases, inl, inr, ◌⊎◌, ok, arith,
}
use driver_arinc.Net.{SocketInfo, SocketList, Net}
use driver_arinc.Net.Sockets.{
  spin_lock, spin_unlock, is_listed, get_list, set_list, list_of, add_entry, remove_entry, give_up,
  empty_list, socket_list_add_socket, socket_list_remove_socket, socket_list_add,
  socket_list_remove,
}
use driver_arinc.Net.Sockets.Entries.{AreUnique, length-delete, delete-AreUnique}

-- A list that a device points to: its counter is right, no socket is in it twice, and it does not
-- wait for its last socket.
pub record IsAttached (list : SocketList) : Type 0 where
  pub counted : list.entries ≡ length list.infos
  pub unique : AreUnique list.infos
  pub waits_not : list.remove_on_zero_entries ≡ false

unfoldable pub IsSound : Net → Type 0
IsSound n = (dev : ℕ) (list : SocketList) → list_of dev n ≡ some list → IsAttached list

get_list-list_of :
    (dev : ℕ) (list : SocketList) (n : Net) → get_list dev n ≡ ok list → list_of dev n ≡ some list
unfolding get_list list_of
get_list-list_of dev list n h = ground arith

-- What a device's list is after a device's list was set.
list_of-set_list :
    (i dev : ℕ) (l : Option SocketList) (list : SocketList) (n : Net)
    → list_of i (set_list dev l n) ≡ some list
    → (l ≡ some list) ⊎ (list_of i n ≡ some list)
unfolding list_of set_list
list_of-set_list i dev l list n h = ground arith

set_list-IsSound :
    (dev : ℕ) (l : Option SocketList) (n : Net)
    → ((list : SocketList) → l ≡ some list → IsAttached list)
    → IsSound n
    → IsSound (set_list dev l n)
unfolding IsSound
set_list-IsSound dev l n good sound i list h = elim (list_of-set_list i dev l list n h) [
  | inl same ↦ good list same
  | inr old ↦ sound i list old
]

add_entry-IsAttached :
    (a : SocketInfo) (list : SocketList)
    → is_listed a list.infos ≡ false
    → IsAttached list
    → IsAttached (add_entry a list)
unfolding add_entry
add_entry-IsAttached a list absent h = ground arith

remove_entry-IsAttached :
    (a : SocketInfo) (list rest : SocketList)
    → is_listed a list.infos ≡ true
    → IsAttached list
    → remove_entry a list ≡ some rest
    → IsAttached rest
unfolding remove_entry
remove_entry-IsAttached a list rest listed h r =
    ground (arith, length-delete a list.infos listed, delete-AreUnique a list.infos h.unique)

lock-IsSound : (held : Bool) (n : Net) → IsSound n → IsSound (record n { lock_held = held })
unfolding IsSound list_of
lock-IsSound held n h dev list e = h dev list e

give_up-IsSound : (list : SocketList) (n : Net) → IsSound n → IsSound (give_up list n)
unfolding IsSound list_of give_up
give_up-IsSound list n h dev l e = h dev l (ground arith)

pub attached :
    (dev : ℕ) (list : SocketList) (n : Net) → IsSound n → get_list dev n ≡ ok list → IsAttached list
unfolding IsSound
attached dev list n h r = h dev list (get_list-list_of dev list n r)

-- A sound device list is set.
set_some-IsSound :
    (dev : ℕ) (new : SocketList) (n : Net)
    → IsAttached new
    → IsSound n
    → IsSound (set_list dev (some new) n)
set_some-IsSound dev new n good h =
    set_list-IsSound dev (some new) n (λ l e. ground (arith, good, e)) h

pub add_socket-IsSound :
    (room : Bool) (dev : ℕ) (a : SocketInfo) (n : Net)
    → IsSound n
    → IsSound (socket_list_add_socket room dev a n).1
unfolding socket_list_add_socket
add_socket-IsSound room dev a n h = elim (Result-cases (get_list dev n)) [
  | inr (x, r) ↦ ground (arith, r, h)
  | inl (list, r) ↦
      let n1 = spin_lock n in
      let h1 : IsSound n1 = lock-IsSound true n h in
      let free : IsSound (spin_unlock n1) = lock-IsSound false n h in
      elim (Bool-cases (is_listed a list.infos)) [
        | inl listed ↦ ground (arith, r, listed, free)
        | inr absent ↦
            let new = add_entry a list in
            let good = add_entry-IsAttached a list absent (attached dev list n h r) in
            let n2 = set_list dev (some new) n1 in
            let h2 : IsSound n2 = set_some-IsSound dev new n1 good h1 in
            let h3 : IsSound (spin_unlock n2) = lock-IsSound false n2 h2 in
            ground (arith, r, absent, h1, h3)
      ]
]

pub remove_socket-IsSound :
    (dev : ℕ) (a : SocketInfo) (n : Net) → IsSound n → IsSound (socket_list_remove_socket dev a n)
unfolding socket_list_remove_socket
remove_socket-IsSound dev a n h = elim (Result-cases (get_list dev n)) [
  | inr (x, r) ↦ ground (arith, r, h)
  | inl (list, r) ↦
      let n1 = spin_lock n in
      let h1 : IsSound n1 = lock-IsSound true n h in
      let free : IsSound (spin_unlock n1) = lock-IsSound false n h in
      elim (Bool-cases (is_listed a list.infos)) [
        | inr absent ↦ ground (arith, r, absent, free)
        | inl listed ↦
            let rest = remove_entry a list in
            let n2 = set_list dev rest n1 in
            let h2 : IsSound n2 =
              set_list-IsSound dev rest n1
                (λ l e. remove_entry-IsAttached a list l listed (attached dev list n h r) e) h1 in
            let h3 : IsSound (spin_unlock n2) = lock-IsSound false n2 h2 in
            ground (arith, r, listed, h3)
      ]
]

pub add-IsSound :
    (room : Bool) (dev : ℕ) (n : Net) → IsSound n → IsSound (socket_list_add room dev n).1
unfolding socket_list_add
add-IsSound room dev n h =
    let good : IsAttached empty_list = record { counted = refl; unique = tt; waits_not = refl } in
    let h1 = set_some-IsSound dev empty_list n good h in
    elim (Option-cases (list_of dev n)) [
      | inr (list, r) ↦ ground (arith, r, h)
      | inl r ↦ ground (arith, r, h, h1)
    ]

pub remove-IsSound : (dev : ℕ) (n : Net) → IsSound n → IsSound (socket_list_remove dev n)
unfolding socket_list_remove
remove-IsSound dev n h =
    let n1 = spin_lock n in
    let h1 : IsSound n1 = lock-IsSound true n h in
    let free : IsSound (spin_unlock n1) = lock-IsSound false n h in
    elim (Option-cases (list_of dev n)) [
      | inl r ↦ ground (arith, r, free)
      | inr (list, r) ↦
          let n2 = give_up list n1 in
          let n3 = set_list dev none n2 in
          let h3 : IsSound n3 =
            set_list-IsSound dev none n2 (λ l e. ground (arith, e)) (give_up-IsSound list n1 h1) in
          let h4 : IsSound (spin_unlock n3) = lock-IsSound false n3 h3 in ground (arith, r, h4)
    ]

-- A call of one of the operations, whatever its allocation does.
pub data Call : Net → Net → Type 0 where
  added : (room : Bool) (dev : ℕ) (n : Net) → Call n (socket_list_add room dev n).1
  removed : (dev : ℕ) (n : Net) → Call n (socket_list_remove dev n)
  socket_added :
      (room : Bool) (dev : ℕ) (a : SocketInfo) (n : Net)
      → Call n (socket_list_add_socket room dev a n).1
  socket_removed : (dev : ℕ) (a : SocketInfo) (n : Net) → Call n (socket_list_remove_socket dev a n)

pub data Calls (start : Net) : Net → Type 0 where
  here : Calls start start
  next : {n n' : Net} → Calls start n → Call n n' → Calls start n'

Call-IsSound : {n n' : Net} → Call n n' → IsSound n → IsSound n'
Call-IsSound (added room dev n) h = add-IsSound room dev n h
Call-IsSound (removed dev n) h = remove-IsSound dev n h
Call-IsSound (socket_added room dev a n) h = add_socket-IsSound room dev a n h
Call-IsSound (socket_removed dev a n) h = remove_socket-IsSound dev a n h

-- Through every sequence of calls, on any devices and with any allocation failing, each device's
-- list counts its sockets rightly, holds no socket twice, and never waits for its last socket.
pub Calls-IsSound : {n n' : Net} → IsSound n → Calls n n' → IsSound n'
Calls-IsSound h here = h
Calls-IsSound h (next past call) = Call-IsSound call (Calls-IsSound h past)
