-- ===== src/Addresses.antt =====
-- src/modules/locations/locations.service.ts and locations.repository.ts: the saved addresses of a
-- user, of which one is the default.
pub mod Default
use v2_backend.HomeServices.Model.{Point}
use v2_backend.Table.{Table}
use v2_backend.Common.Error.{Resource}
use v2_backend.Common.{
  ℕ, Text, Option, Bool, get_or, false, Action, ◌==◌, some, transaction, none, ◌>>=◌, ◌&&◌, err,
  gets, ◌>>◌, Failure, when, or_throw, ok, modify, not, pure, is_some,
}

-- `Address`
pub record SavedAddress : Type 0 where
  pub id : ℕ
  pub user : ℕ
  pub label : Text
  pub formatted : Text
  pub pin : Point
  pub is_default : Bool
  pub building : Option Text
  pub flat_number : Option Text
  pub directions : Option Text
  pub deleted_at : Option ℕ

-- `AddressInput`, and a part of it
pub record AddressInput : Type 0 where
  pub label : Text
  pub formatted : Text
  pub pin : Point
  pub is_default : Option Bool
  pub building : Option Text
  pub flat_number : Option Text
  pub directions : Option Text

pub record AddressEdit : Type 0 where
  pub label : Option Text
  pub formatted : Option Text
  pub pin : Option Point
  pub is_default : Option Bool
  pub building : Option Text
  pub flat_number : Option Text
  pub directions : Option Text

abbrev pub address_key : SavedAddress → ℕ
address_key a = a.id

abbrev pub address_conflict : SavedAddress → SavedAddress → Bool
address_conflict a b = b.id == a.id

abbrev pub AddressTable : Type 1
AddressTable = Table SavedAddress address_key address_conflict

abbrev pub new_address : ℕ → AddressInput → ℕ → SavedAddress
new_address owner input id = record {
  id = id;
  user = owner;
  label = input.label;
  formatted = input.formatted;
  pin = input.pin;
  is_default = get_or input.is_default false;
  building = input.building;
  flat_number = input.flat_number;
  directions = input.directions;
  deleted_at = none;
}

-- A column that may be null takes what is given.
abbrev pub or_left : Option Text → Option Text → Option Text
or_left none old = old
or_left (some t) old = some t

abbrev pub edited_address : AddressEdit → SavedAddress → SavedAddress
edited_address input a = record a {
  label = get_or input.label a.label;
  formatted = get_or input.formatted a.formatted;
  pin = get_or input.pin a.pin;
  is_default = get_or input.is_default a.is_default;
  building = or_left input.building a.building;
  flat_number = or_left input.flat_number a.flat_number;
  directions = or_left input.directions a.directions;
}

abbrev pub undefault : SavedAddress → SavedAddress
undefault a = record a { is_default = false }

-- What the client makes of a deletion: the row stays, and `findFirst` passes it over.
abbrev pub deleted : ℕ → SavedAddress → SavedAddress
deleted now a = record a { deleted_at = some now }

module _ (at : AddressTable) where
  abbrev pub address_at : ℕ → at.Rows → Option SavedAddress
  address_at id s = at.find (λ a. a.id == id) s

  -- `findByIdForUser`
  unfoldable pub find_owned_address : ℕ → ℕ → at.Rows → Option SavedAddress
  find_owned_address id owner s =
      at.find (λ a. (a.id == id && a.user == owner) && not (is_some a.deleted_at)) s

  unfoldable pub insert_address : SavedAddress → Action at.Rows SavedAddress
  insert_address row s = elim (at.create row s) [
    | none ↦ (err Failure.crash, s)
    | some t ↦ (ok row, t)
  ]

  -- `updateMany`, where an address becomes the default.
  abbrev pub clear_default : Bool → (SavedAddress → Bool) → Action at.Rows (Unit {0})
  clear_default becomes p = when becomes (modify (λ s. (at.update_many p undefault s).0))

  unfoldable pub create_address : ℕ → AddressInput → ℕ → Action at.Rows SavedAddress
  unfolding insert_address
  create_address owner input id = transaction do
    clear_default (get_or input.is_default false) (λ a. a.user == owner && a.is_default)
    insert_address (new_address owner input id)

  unfoldable pub edit_row : ℕ → AddressEdit → Action at.Rows SavedAddress
  edit_row id input = do
    found ← gets (address_at id)
    row ← or_throw found Failure.crash
    modify (λ s. (at.update_many (λ a. a.id == id) (edited_address input) s).0)
    pure (edited_address input row)

  unfoldable pub write_address : ℕ → ℕ → AddressEdit → Action at.Rows SavedAddress
  unfolding edit_row
  write_address id owner input = transaction do
    clear_default (get_or input.is_default false)
        (λ a. a.user == owner && a.is_default && not (a.id == id))
    edit_row id input

  unfoldable pub update_address : ℕ → ℕ → AddressEdit → Action at.Rows SavedAddress
  unfolding find_owned_address write_address
  update_address owner id input = do
    found ← gets (find_owned_address id owner)
    or_throw found (Failure.not_found Resource.address)
    write_address id owner input

  -- The deletion is an `update`, which throws where the row is not there.
  unfoldable pub remove_address : ℕ → ℕ → ℕ → Action at.Rows (Unit {0})
  unfolding find_owned_address
  remove_address owner id now = do
    found ← gets (find_owned_address id owner)
    or_throw found (Failure.not_found Resource.address)
    modify (λ s. (at.update_many (λ a. a.id == id) (deleted now) s).0)
