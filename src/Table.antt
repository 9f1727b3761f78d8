-- ===== src/Table.antt =====
-- A table as the repositories use it through the Prisma client, which is not part of the
-- repository. A table is an interface: its operations, and as laws what the client documents of
-- them. `Table.Listed` fills it.
pub mod Listed
use v2_backend.Common.{
  ℕ, ◌≡◌, ◌≢◌, Bool, true, false, ◌&&◌, Option, none, some, ◌==◌, if◌then◌else◌, not, ◌+◌,
}

-- The number of rows, of at most one, that pass a test.
abbrev pub hits : {Row : Type 0} → (Row → Bool) → Option Row → ℕ
hits q none = 0
hits q (some r) = if q r then 1 else 0

-- What an update and a deletion leave of a row.
abbrev pub revised : {Row : Type 0} → (Row → Bool) → (Row → Row) → Option Row → Option Row
revised p f none = none
revised p f (some r) = some (if p r then f r else r)

abbrev pub kept : {Row : Type 0} → (Row → Bool) → Option Row → Option Row
kept p none = none
kept p (some r) = if p r then none else some r

-- `key` is the primary key, and `conflict r s` says that a unique index refuses `r` beside `s`.
pub record Table (Row : Type 0) (key : Row → ℕ) (conflict : Row → Row → Bool) : Type 1 where
  pub Rows : Type 0
  -- `findUnique` and `findFirst`
  pub find : (Row → Bool) → Rows → Option Row
  -- `updateMany`, with the count of the rows that it matched
  pub update_many : (Row → Bool) → (Row → Row) → Rows → Rows × ℕ
  -- `deleteMany`
  pub delete_many : (Row → Bool) → Rows → Rows
  -- `create`, `none` where a unique index refuses the row
  pub create : Row → Rows → Option Rows
  pub find_sound :
      (p : Row → Bool) (t : Rows) (r : Row)
      → find p t ≡ some r
      → (p r ≡ true) × (find (λ x. key x == key r) t ≡ some r)
  pub find_complete :
      (p : Row → Bool) (t : Rows) (k : ℕ) (r : Row)
      → find p t ≡ none
      → find (λ x. key x == k) t ≡ some r
      → p r ≡ false
  pub find_update :
      (p : Row → Bool) (f : Row → Row) (t : Rows) (k : ℕ)
      → ((r : Row) → key (f r) ≡ key r)
      → find (λ x. key x == k) (update_many p f t).0 ≡ revised p f (find (λ x. key x == k) t)
  pub count_unique :
      (q : Row → Bool) (f : Row → Row) (t : Rows) (k : ℕ)
      → (update_many (λ r. (key r == k) && q r) f t).1 ≡ hits q (find (λ x. key x == k) t)
  pub count_zero :
      (p : Row → Bool) (f : Row → Row) (t : Rows) → (update_many p f t).1 ≡ 0 → find p t ≡ none
  pub count_found :
      (p : Row → Bool) (f : Row → Row) (t : Rows) → find p t ≡ none → (update_many p f t).1 ≡ 0
  pub find_delete :
      (p : Row → Bool) (t : Rows) (k : ℕ)
      → find (λ x. key x == k) (delete_many p t) ≡ kept p (find (λ x. key x == k) t)
  pub create_some :
      (r : Row) (t : Rows) {t' : Rows}
      → create r t ≡ some t'
      → (find (conflict r) t ≡ none)
        × ((k : ℕ)
            → find (λ x. key x == k) t' ≡ (if key r == k then some r else find (λ x. key x == k) t))
  pub create_fresh : (r : Row) (t : Rows) → find (conflict r) t ≡ none → create r t ≢ none
  -- `count`
  pub count : (Row → Bool) → Rows → ℕ
  pub count_update : (p : Row → Bool) (f : Row → Row) (t : Rows) → (update_many p f t).1 ≡ count p t
  pub count_create :
      (p : Row → Bool) (r : Row) (t : Rows) {t' : Rows}
      → create r t ≡ some t'
      → find (λ x. key x == key r) t ≡ none
      → count p t' ≡ (if p r then 1 else 0) + count p t
  pub count_delete :
      (p q : Row → Bool) (t : Rows) → count p (delete_many q t) ≡ count (λ r. not (q r) && p r) t
  pub count_split :
      (p q : Row → Bool) (t : Rows)
      → count p t ≡ count (λ r. q r && p r) t + count (λ r. not (q r) && p r) t
