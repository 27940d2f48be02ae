-- ===== src/Net/Sockets/Listens.antt =====
-- Which sockets listen to which device, by the operations of driver/net/socket-list.c.
use driver_arinc.Prelude.{
  ℕ, ◌-◌, ◌∙◌, ◌≡◌, refl, Bool, true, false, ◌&&◌, ◌∷◌, none, some, Result-cases, inl, inr, ◌==◌,
  enodev, if◌then◌else◌, ok, err, enomem, arith,
}
use driver_arinc.Net.{SocketInfo, SocketList, Net}
use driver_arinc.Net.Sockets.{
  spin_lock, is_entry, is_listed, delete, get_list, set_list, list_of, add_entry, give_up,
  remove_entry, socket_list_add_socket, socket_list_remove_socket, socket_list_remove, free_lists,
}
use driver_arinc.Net.Sockets.Entries.{length-delete, is_listed-delete, is_listed-delete_other}
use driver_arinc.Net.Sockets.Invariant.{IsSound, attached}

-- Whether a socket is in a device's list.
unfoldable pub listens : SocketInfo → (dev : ℕ) → Net → Bool
listens a dev n = elim (list_of dev n) [ none ↦ false | some list ↦ is_listed a list.infos ]

pub listens-get_list :
    (a : SocketInfo) (dev : ℕ) (list : SocketList) (n : Net)
    → get_list dev n ≡ ok list
    → listens a dev n ≡ is_listed a list.infos
unfolding listens get_list list_of
listens-get_list a dev list n h = ground arith

listens-set_list :
    (b : SocketInfo) (i dev : ℕ) (list new : SocketList) (n : Net)
    → get_list dev n ≡ ok list
    → listens b i (set_list dev (some new) n)
      ≡ (if i == dev then is_listed b new.infos else listens b i n)
unfolding listens get_list list_of set_list
listens-set_list b i dev list new n h = ground arith

listens-lock :
    (a : SocketInfo) (dev : ℕ) (held : Bool) (n : Net)
    → listens a dev (record n { lock_held = held }) ≡ listens a dev n
unfolding listens list_of
listens-lock a dev held n = refl

get_list-lock :
    (dev : ℕ) (held : Bool) (n : Net)
    → get_list dev (record n { lock_held = held }) ≡ get_list dev n
unfolding get_list
get_list-lock dev held n = refl

is_listed-add_entry :
    (a b : SocketInfo) (list : SocketList)
    → is_listed b (add_entry a list).infos ≡ (if is_entry b a then true else is_listed b list.infos)
unfolding is_listed add_entry
is_listed-add_entry a b list = refl

is_entry_eq : (a b : SocketInfo) → is_entry b a ≡ true → b ≡ a
is_entry_eq a b h = ground arith

is_entry_index : (i dev : ℕ) → (i == dev) ≡ true → i ≡ dev
is_entry_index i dev h = ground arith

-- A socket that `socket_list_add_socket` accepts listens to the device afterwards, and every other
-- socket listens to the devices that it listened to; the lock is free again.
pub add_socket-listens :
    (room : Bool) (dev i : ℕ) (a b : SocketInfo) (n n' : Net)
    → socket_list_add_socket room dev a n ≡ (ok tt, n')
    → (listens b i n' ≡ (if (i == dev) && is_entry b a then true else listens b i n))
      × (n'.lock_held ≡ false)
unfolding socket_list_add_socket
add_socket-listens room dev i a b n n' h = elim (Result-cases (get_list dev n)) [
  | inr (x, r) ↦ ground (arith, r)
  | inl (list, r) ↦
      let new = add_entry a list in
      let n1 = spin_lock n in
      let n2 = set_list dev (some new) n1 in
      let r1 : get_list dev n1 ≡ ok list = get_list-lock dev true n ∙ r in
      ground (
        arith,
        r,
        listens-set_list b i dev list new n1 r1,
        listens-lock b i true n,
        listens-lock b i false n1,
        listens-lock b i false n2,
        is_listed-add_entry a b list,
        listens-get_list b i list n,
        listens-get_list a dev list n,
        is_entry_eq a b,
        is_entry_index i dev,
      )
]

-- A socket that `socket_list_remove_socket` is called for does not listen to the device afterwards,
-- and every other socket listens to the devices that it listened to; the lock is free. The device
-- has a list, and the lists are as the operations leave them.
pub remove_socket-listens :
    (dev i : ℕ) (a b : SocketInfo) (list : SocketList) (n : Net)
    → IsSound n
    → get_list dev n ≡ ok list
    → let n' = socket_list_remove_socket dev a n in
      (listens b i n' ≡ (if (i == dev) && is_entry b a then false else listens b i n))
      × (n'.lock_held ≡ false)
unfolding socket_list_remove_socket remove_entry
remove_socket-listens dev i a b list n sound r =
    let h = attached dev list n sound r in
    let rest = record list { infos = delete a list.infos; entries = list.entries - 1 } in
    let n1 = spin_lock n in
    let n2 = set_list dev (some rest) n1 in
    let r1 : get_list dev n1 ≡ ok list = get_list-lock dev true n ∙ r in
    ground (
      arith,
      r,
      h.waits_not,
      listens-set_list b i dev list rest n1 r1,
      listens-lock b i true n,
      listens-lock b i false n1,
      listens-lock b i false n2,
      listens-get_list b i list n,
      listens-get_list a dev list n,
      is_listed-delete a list.infos h.unique,
      is_listed-delete_other b a list.infos,
      is_entry_eq a b,
      is_entry_index i dev,
    )

-- Where the entry of a new socket cannot be allocated, `socket_list_add_socket` reports ENOMEM and
-- keeps the lock: whoever wants the lock next waits forever.
pub add_socket_keeps_lock :
    (dev : ℕ) (a : SocketInfo) (list : SocketList) (n : Net)
    → get_list dev n ≡ ok list
    → listens a dev n ≡ false
    → let (r, n') = socket_list_add_socket false dev a n in (r ≡ err enomem) × (n'.lock_held ≡ true)
unfolding socket_list_add_socket
add_socket_keeps_lock dev a list n r h = ground (arith, r, listens-get_list a dev list n r)

-- A device that goes away while sockets listen to it loses its list: it is never freed, and the
-- sockets cannot be taken out of it.
pub remove_loses_list :
    (dev : ℕ) (a : SocketInfo) (list : SocketList) (n : Net)
    → IsSound n
    → get_list dev n ≡ ok list
    → listens a dev n ≡ true
    → let n' = socket_list_remove dev n in
      (n'.lost ≡ record list { remove_on_zero_entries = true } ∷ n.lost)
      × ((b : SocketInfo) → socket_list_remove_socket dev b n' ≡ n')
unfolding socket_list_remove give_up socket_list_remove_socket get_list set_list list_of
remove_loses_list dev a list n sound r l =
    let h = attached dev list n sound r in
    (
      ground (arith, h.counted, listens-get_list a dev list n r, length-delete a list.infos),
      λ b. ground arith,
    )

-- When the module ends, no list can be reached from a device, so that no packet is handed to a socket
-- any more and no socket can be added.
pub free_lists-listens :
    (a : SocketInfo) (dev : ℕ) (n : Net)
    → (get_list dev (free_lists n) ≡ err enodev)
      × (socket_list_remove_socket dev a (free_lists n) ≡ free_lists n)
unfolding get_list free_lists socket_list_remove_socket
free_lists-listens a dev n = (ground arith, ground arith)
