-- ===== src/Net/Sockets/Entries.antt =====
-- The entries of a socket list of driver/net/socket-list.c as a set of sockets.
use driver_arinc.Prelude.{
  suc, ◌≡◌, refl, true, false, List, [], ◌∷◌, length, Bool-cases, inl, inr, arith,
}
use driver_arinc.Net.{SocketInfo}
use driver_arinc.Net.Sockets.{is_entry, is_listed, delete}

abbrev pub AreUnique : List SocketInfo → Type 0
AreUnique [] = Unit
AreUnique (a ∷ rest) = (is_listed a rest ≡ false) × AreUnique rest

pub length-delete :
    (a : SocketInfo) (xs : List SocketInfo)
    → is_listed a xs ≡ true
    → suc (length (delete a xs)) ≡ length xs
unfolding is_listed delete
length-delete a [] h = ground arith
length-delete a (b ∷ rest) h = ground (arith, length-delete a rest)

pub is_listed-delete_other :
    (a b : SocketInfo) (xs : List SocketInfo)
    → is_entry a b ≡ false
    → is_listed a (delete b xs) ≡ is_listed a xs
unfolding is_listed delete
is_listed-delete_other a b [] h = refl
is_listed-delete_other a b (c ∷ rest) h = ground (arith, is_listed-delete_other a b rest h)

is_listed-delete_absent :
    (a b : SocketInfo) (xs : List SocketInfo)
    → is_listed a xs ≡ false
    → is_listed a (delete b xs) ≡ false
unfolding is_listed delete
is_listed-delete_absent a b [] h = refl
is_listed-delete_absent a b (c ∷ rest) h = ground (arith, is_listed-delete_absent a b rest)

pub delete-AreUnique :
    (a : SocketInfo) (xs : List SocketInfo) → AreUnique xs → AreUnique (delete a xs)
unfolding delete
delete-AreUnique a [] h = tt
delete-AreUnique a (b ∷ rest) h = elim (Bool-cases (is_entry a b)) [
  | inl same ↦ rw same h.1
  | inr other ↦ rw other (is_listed-delete_absent b a rest h.0, delete-AreUnique a rest h.1)
]

pub is_listed-delete :
    (a : SocketInfo) (xs : List SocketInfo) → AreUnique xs → is_listed a (delete a xs) ≡ false
unfolding is_listed delete
is_listed-delete a [] h = refl
is_listed-delete a (b ∷ rest) h = ground (arith, is_listed-delete a rest, h.0, h.1)
