-- ===== src/Witnesses/Homes.antt =====
-- The default address at concrete inputs: user 1 has address 5, the default, and address 6.
use v2_backend.Addresses.Default.{OneDefault, one_default}
use v2_backend.Table.Listed.{visible, listed}
use v2_backend.Addresses.{
  AddressTable, SavedAddress, AddressInput, AddressEdit, create_address, address_key,
  address_conflict, update_address, remove_address,
}
use v2_backend.Common.{codes, ◌∷◌, none, true, false, [], some, Bool-cases, ◌==◌, inl, arith, inr}

abbrev address_table : AddressTable
address_table = listed address_key address_conflict

abbrev at_home : SavedAddress
at_home = record {
  id = 5;
  user = 1;
  label = codes "Home";
  formatted = codes "Kochi";
  pin = record { lat = 9; lng = 76 };
  is_default = true;
  building = none;
  flat_number = none;
  directions = none;
  deleted_at = none;
}

abbrev at_work : SavedAddress
at_work = record at_home { id = 6; label = codes "Work"; is_default = false }

homes-OneDefault : OneDefault address_table (at_home ∷ at_work ∷ [])
unfolding visible
homes-OneDefault j k a b p q u d f = elim (Bool-cases (5 == j)) [
  | inl i ↦ elim (Bool-cases (5 == k)) [ inl l ↦ ground arith | inr l ↦ ground arith ]
  | inr i ↦ ground arith
]

abbrev third : AddressInput
third = record {
  label = codes "Shop";
  formatted = codes "Aluva";
  pin = record { lat = 10; lng = 76 };
  is_default = some true;
  building = none;
  flat_number = none;
  directions = none;
}

abbrev promote : AddressEdit
promote = record {
  label = none;
  formatted = none;
  pin = none;
  is_default = some true;
  building = none;
  flat_number = none;
  directions = none;
}

one_default_example :
    OneDefault address_table (create_address address_table 1 third 7 (at_home ∷ at_work ∷ [])).1
    × OneDefault address_table (update_address address_table 1 6 promote (at_home ∷ at_work ∷ [])).1
    × OneDefault address_table (remove_address address_table 1 6 500 (at_home ∷ at_work ∷ [])).1
one_default_example =
    one_default address_table 1 6 7 500 third promote (at_home ∷ at_work ∷ []) homes-OneDefault
