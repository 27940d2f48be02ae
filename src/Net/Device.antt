-- ===== src/Net/Device.antt =====
-- driver/net/device.c: the settings of a device over netlink. The six attributes are written out one
-- after the other in the source; here they are a list in the source's order.
use driver_arinc.Prelude.{
  ◌++◌, take, sym, append-nil, append_assoc, false, ℕ, ◌+◌, ◌-◌, ◌≤◌, ◌≡◌, refl, ◌⊎◌, inl, inr,
  Bool, true, List, [], ◌∷◌, Option, none, some, ltb, if◌then◌else◌, Bool-cases, Option-cases, ok,
  err, emsgsize, Step, arith,
}

pub data Attribute : Type 0 where
  rate arinc429rx arinc429tx arinc717rx arinc717tx mil1553bm : Attribute

abbrev pub attributes : List Attribute
attributes =
    Attribute.rate ∷ Attribute.arinc429rx ∷ Attribute.arinc429tx ∷ Attribute.arinc717rx
    ∷ Attribute.arinc717tx ∷ Attribute.mil1553bm ∷ []

-- The rows of `device_get_size`: the function that is tested, and the size of the structure in bytes.
abbrev pub size_rows : List (Attribute × ℕ)
size_rows =
    (Attribute.rate, 4)
    ∷ (Attribute.arinc429rx, 37)
    ∷ (Attribute.arinc429tx, 4)
    ∷ (Attribute.arinc717rx, 4)
    ∷ (Attribute.arinc717tx, 4)
    ∷ (Attribute.mil1553bm, 4)
    ∷ []

-- The rows of `device_fill_info`: the function that is tested and called, the number of the attribute
-- in `enum`, and the size of the structure in bytes.
abbrev pub fill_rows : List (Attribute × ℕ × ℕ)
fill_rows =
    (Attribute.rate, 1, 4)
    ∷ (Attribute.arinc429rx, 2, 37)
    ∷ (Attribute.arinc429tx, 3, 4)
    ∷ (Attribute.arinc717rx, 4, 4)
    ∷ (Attribute.arinc717tx, 5, 4)
    ∷ (Attribute.mil1553bm, 6, 4)
    ∷ []

-- The numbers IFLA_AVIONICS_RATE to IFLA_AVIONICS_MIL1553BM of avionics.h.
unfoldable pub number : Attribute → ℕ
number Attribute.rate = 1
number Attribute.arinc429rx = 2
number Attribute.arinc429tx = 3
number Attribute.arinc717rx = 4
number Attribute.arinc717tx = 5
number Attribute.mil1553bm = 6

-- The sizes of the structures of avionics.h: a rate of 32 bits; flags, a byte of padding, 3 labels
-- and 32 bytes of filters; flags and 3 bytes of padding.
unfoldable pub structure_size : Attribute → ℕ
structure_size Attribute.rate = 4
structure_size Attribute.arinc429rx = 1 + 1 + 3 + 32
structure_size Attribute.arinc429tx = 1 + 3
structure_size Attribute.arinc717rx = 1 + 3
structure_size Attribute.arinc717tx = 1 + 3
structure_size Attribute.mil1553bm = 1 + 3

-- A netlink message: the bytes that are left in it, and its attributes by number, each with its bytes.
pub record Message : Type 0 where
  pub room : ℕ
  pub attrs : List (ℕ × List ℕ)

-- `struct avionics_ops` of a driver with the state `S`: which functions there are, and what the
-- functions do: those that set take the bytes of an attribute, those that get fill its structure, and
-- their errors are not looked at.
pub record AvionicsOps (S : Type 0) : Type 0 where
  pub can_set : Attribute → Bool
  pub can_get : Attribute → Bool
  pub set : Attribute → List ℕ → Step S (Unit {0})
  pub get : Attribute → S → List ℕ × S

module _ {S : Type 0} (ops : AvionicsOps S) where
  -- The tests from an attribute on.
  unfoldable pub change_from : List Attribute → (Attribute → Option (List ℕ)) → Step S (Unit {0})
  change_from [] given s = (ok tt, s)
  change_from (a ∷ rest) given s = elim (given a) [
    | none ↦ change_from rest given s
    | some value ↦ if ops.can_set a then ops.set a value s else change_from rest given s
  ]

  unfoldable pub device_changelink : (Attribute → Option (List ℕ)) → Step S (Unit {0})
  device_changelink given = change_from attributes given

  -- The settings from a row on, which are counted by `nla_total_size` of their structures' sizes.
  unfoldable pub size_from : (nla_total_size : ℕ → ℕ) → List (Attribute × ℕ) → ℕ
  size_from nla_total_size [] = 0
  size_from nla_total_size ((a, len) ∷ rest) =
      (if ops.can_set a then nla_total_size len else 0) + size_from nla_total_size rest

  unfoldable pub device_get_size : (nla_total_size : ℕ → ℕ) → ℕ
  device_get_size nla_total_size = size_from nla_total_size size_rows

  -- `nla_put` of an attribute, which fails where the message has no room for it.
  unfoldable pub put_attribute :
      (nla_total_size : ℕ → ℕ) → (type len : ℕ) → (bytes : List ℕ) → Step Message (Unit {0})
  put_attribute nla_total_size type len bytes m =
      if ltb m.room (nla_total_size len) then (err emsgsize, m) else (
        ok tt,
        record {
          room = m.room - nla_total_size len;
          attrs = m.attrs ++ (type, take len bytes) ∷ [];
        },
      )

  -- The settings from a row on: each that can be read is read from the driver and put.
  unfoldable pub fill_from :
      (nla_total_size : ℕ → ℕ) → List (Attribute × ℕ × ℕ) → Step (S × Message) (Unit {0})
  unfolding put_attribute
  fill_from nla_total_size [] s = (ok tt, s)
  fill_from nla_total_size ((a, type, len) ∷ rest) (s, m) =
      let (bytes, s') = ops.get a s in
      let (r, m') = put_attribute nla_total_size type len bytes m in
      let after = fill_from nla_total_size rest (s', m') in
      let skipped = fill_from nla_total_size rest (s, m) in
      if ops.can_get a then elim r [ ok _ ↦ after | err _ ↦ (err emsgsize, (s', m')) ] else skipped

  unfoldable pub device_fill_info : (nla_total_size : ℕ → ℕ) → Step (S × Message) (Unit {0})
  device_fill_info nla_total_size s = fill_from nla_total_size fill_rows s

  -- What is reported of some attributes: the number of each that can be read, with the bytes of its
  -- structure as the driver gives them.
  unfoldable pub reports : List Attribute → S → List (ℕ × List ℕ)
  reports [] s = []
  reports (a ∷ rest) s =
      let (bytes, s') = ops.get a s in
      if ops.can_get a
      then (number a, take (structure_size a) bytes) ∷ reports rest s'
      else reports rest s

  -- The room that some attributes need.
  needed : (nla_total_size : ℕ → ℕ) → List Attribute → ℕ
  needed nla_total_size [] = 0
  needed nla_total_size (a ∷ rest) =
      (if ops.can_set a then nla_total_size (structure_size a) else 0) + needed nla_total_size rest

  row_of : Attribute → Attribute × ℕ × ℕ
  row_of a = (a, number a, structure_size a)

  rows_of : List Attribute → List (Attribute × ℕ × ℕ)
  unfolding row_of
  rows_of [] = []
  rows_of (a ∷ rest) = row_of a ∷ rows_of rest

  fill_from-reports :
      (nla_total_size : ℕ → ℕ) (as_ : List Attribute) (s : S) (m : Message)
      → ((a : Attribute) → ops.can_get a ≡ true → ops.can_set a ≡ true)
      → needed nla_total_size as_ ≤ m.room
      → let (r, (s', m')) = fill_from nla_total_size (rows_of as_) (s, m) in
        (r ≡ ok tt) × (m'.attrs ≡ m.attrs ++ reports as_ s)
  unfolding fill_from put_attribute needed reports rows_of row_of
  fill_from-reports total [] s m both fits = (refl, sym (append-nil m.attrs))
  fill_from-reports total (a ∷ rest) s m both fits = elim (Bool-cases (ops.can_get a)) [
    | inr unable ↦
        ground (arith, unable, fill_from-reports total rest s m both (ground (arith, fits)))
    | inl able ↦
        let b = both a able in
        let len = structure_size a in
        let (bytes, s') = ops.get a s in
        let put : ℕ × List ℕ = (number a, take len bytes) in
        let enough : ltb m.room (total len) ≡ false = ground (arith, fits, b) in
        let m' : Message = record { room = m.room - total len; attrs = m.attrs ++ put ∷ [] } in
        let after = fill_from-reports total rest s' m' both (ground (arith, fits, b)) in
        ground (arith, able, enough, after, append_assoc m.attrs (put ∷ []) (reports rest s'))
  ]

  size_rows-needed :
      (nla_total_size : ℕ → ℕ)
      → size_from nla_total_size size_rows ≡ needed nla_total_size attributes
  unfolding size_from needed structure_size
  size_rows-needed nla_total_size = refl

  fill_rows-rows_of : fill_rows ≡ rows_of attributes
  unfolding rows_of row_of number structure_size
  fill_rows-rows_of = refl

  -- A message of the size that `device_get_size` reports holds all that `device_fill_info` puts into
  -- it: the call succeeds, and the message has, in the order of their numbers, the attributes that
  -- the driver can read, each with its number and as many bytes as its structure in avionics.h has,
  -- as the driver gives them. This holds for a driver where every setting that can be read can also
  -- be written.
  pub device_fill_info-device_get_size :
      (nla_total_size : ℕ → ℕ) (s : S)
      → ((a : Attribute) → ops.can_get a ≡ true → ops.can_set a ≡ true)
      → let m : Message = record { room = device_get_size nla_total_size; attrs = [] } in
        let (r, (s', m')) = device_fill_info nla_total_size (s, m) in
        (r ≡ ok tt) × (m'.attrs ≡ reports attributes s)
  unfolding device_fill_info device_get_size
  device_fill_info-device_get_size nla_total_size s both =
      let size = size_from nla_total_size size_rows in
      let m : Message = record { room = size; attrs = [] } in
      let enough : needed nla_total_size attributes ≤ size =
        omega (arith, size_rows-needed nla_total_size) in
      rw fill_rows-rows_of (fill_from-reports nla_total_size attributes s m both enough)

  change_from_one :
      (as_ : List Attribute) (given : Attribute → Option (List ℕ)) (s : S)
      → (change_from as_ given s ≡ (ok tt, s))
        ⊎ ((a : Attribute) × (value : List ℕ) × (given a ≡ some value)
            × (ops.can_set a ≡ true)
            × (change_from as_ given s ≡ ops.set a value s))
  unfolding change_from
  change_from_one [] given s = inl refl
  change_from_one (a ∷ rest) given s = elim (Option-cases (given a)) [
    | inl absent ↦ rw (change_from, absent) (change_from_one rest given s)
    | inr (value, there) ↦ elim (Bool-cases (ops.can_set a)) [
      | inl able ↦ inr (a, value, there, able, ground (arith, there, able))
      | inr unable ↦ rw (change_from, there, unable) (change_from_one rest given s)
    ]
  ]

  -- One call of `device_changelink` applies at most one setting, however many are given: it does
  -- nothing and succeeds, or does what one function of the driver does with its attribute.
  pub device_changelink_one :
      (given : Attribute → Option (List ℕ)) (s : S)
      → (device_changelink given s ≡ (ok tt, s))
        ⊎ ((a : Attribute) × (value : List ℕ) × (given a ≡ some value)
            × (ops.can_set a ≡ true)
            × (device_changelink given s ≡ ops.set a value s))
  unfolding device_changelink
  device_changelink_one given s = change_from_one attributes given s
