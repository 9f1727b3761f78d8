-- ===== src/Marketplace/Fitting.antt =====
-- src/modules/marketplace/ad-attributes.ts: which details of a listing pass, said without the checks.
use v2_backend.Marketplace.Attributes.{nil, cons, end}
use v2_backend.Common.Int.{ℤ, pos, ◌≤ℤ◌}
use v2_backend.Marketplace.Attributes.{
  FieldSpec, items_problem, check_value, Items, string_spec, Json, check_string, cons, int_spec,
  bool, check_int, text, string_list_spec, int, check_boolean, list, items_length, check_list, end,
  boolean_spec, object, Fields, inherited_spec, null, fraction,
}
use v2_backend.Common.{
  ◌↔◌, ℕ, Option, List, Text, some, length, ◌≡◌, has_text, ◌≤◌, false, none, true, arith, Bool,
  refl,
}

-- The entries of a list are texts of at most so many characters.
abbrev pub AllShort : ℕ → Items → Type 0
AllShort longest nil = Unit
AllShort longest (cons (text t) rest) = (length t ≤ longest) × AllShort longest rest
AllShort longest (cons null rest) = ⊥
AllShort longest (cons fraction rest) = ⊥
AllShort longest (cons (bool b) rest) = ⊥
AllShort longest (cons (int n) rest) = ⊥
AllShort longest (cons (list l) rest) = ⊥
AllShort longest (cons (object o) rest) = ⊥

abbrev pub IsOneOf : Option (List Text) → Text → Type 0
IsOneOf none t = Unit
IsOneOf (some l) t = has_text t l ≡ true

-- What a specification asks of each kind of value; of an inherited one it asks nothing.
abbrev pub FitsText : FieldSpec → Text → Type 0
FitsText (string_spec longest one_of) t = (length t ≤ longest) × IsOneOf one_of t
FitsText (int_spec low high) t = ⊥
FitsText boolean_spec t = ⊥
FitsText (string_list_spec most longest) t = ⊥
FitsText inherited_spec t = Unit

abbrev pub FitsInt : FieldSpec → ℤ → Type 0
FitsInt (string_spec longest one_of) n = ⊥
FitsInt (int_spec low high) n = (pos low ≤ℤ n) × (n ≤ℤ pos high)
FitsInt boolean_spec n = ⊥
FitsInt (string_list_spec most longest) n = ⊥
FitsInt inherited_spec n = Unit

abbrev pub FitsBool : FieldSpec → Type 0
FitsBool (string_spec longest one_of) = ⊥
FitsBool (int_spec low high) = ⊥
FitsBool boolean_spec = Unit
FitsBool (string_list_spec most longest) = ⊥
FitsBool inherited_spec = Unit

abbrev pub FitsList : FieldSpec → Items → Type 0
FitsList (string_spec longest one_of) l = ⊥
FitsList (int_spec low high) l = ⊥
FitsList boolean_spec l = ⊥
FitsList (string_list_spec most longest) l = (items_length l ≤ most) × AllShort longest l
FitsList inherited_spec l = Unit

abbrev pub FitsNone : FieldSpec → Type 0
FitsNone (string_spec longest one_of) = ⊥
FitsNone (int_spec low high) = ⊥
FitsNone boolean_spec = ⊥
FitsNone (string_list_spec most longest) = ⊥
FitsNone inherited_spec = Unit

-- A fraction and an object fit no specification of a category.
abbrev pub Fits : FieldSpec → Json → Type 0
Fits spec null = FitsNone spec
Fits spec fraction = FitsNone spec
Fits spec (bool b) = FitsBool spec
Fits spec (int n) = FitsInt spec n
Fits spec (text t) = FitsText spec t
Fits spec (list l) = FitsList spec l
Fits spec (object o) = FitsNone spec

AllShort-items_problem :
    (longest : ℕ) (l : Items) → (items_problem l longest ≡ false) ↔ AllShort longest l
unfolding items_problem
AllShort-items_problem longest nil = (λ e. tt, λ h. refl)
AllShort-items_problem longest (cons (text t) rest) =
    let (to, from) = AllShort-items_problem longest rest in
    (λ e. (ground arith, to (ground arith)), λ h. ground (arith, from h.1))
AllShort-items_problem longest (cons null rest) = (λ e. ground arith, λ h. absurd h)
AllShort-items_problem longest (cons fraction rest) = (λ e. ground arith, λ h. absurd h)
AllShort-items_problem longest (cons (bool b) rest) = (λ e. ground arith, λ h. absurd h)
AllShort-items_problem longest (cons (int n) rest) = (λ e. ground arith, λ h. absurd h)
AllShort-items_problem longest (cons (list l) rest) = (λ e. ground arith, λ h. absurd h)
AllShort-items_problem longest (cons (object o) rest) = (λ e. ground arith, λ h. absurd h)

Fits-check_text :
    (spec : FieldSpec) (t : Text) → (check_value spec (text t) ≡ none) ↔ FitsText spec t
unfolding check_value check_string check_int check_boolean check_list
Fits-check_text (string_spec longest none) t = (λ e. ground arith, λ h. ground arith)
Fits-check_text (string_spec longest (some l)) t = (λ e. ground arith, λ h. ground arith)
Fits-check_text (int_spec low high) t = (λ e. ground arith, λ h. absurd h)
Fits-check_text boolean_spec t = (λ e. ground arith, λ h. absurd h)
Fits-check_text (string_list_spec most longest) t = (λ e. ground arith, λ h. absurd h)
Fits-check_text inherited_spec t = (λ e. tt, λ h. refl)

Fits-check_int : (spec : FieldSpec) (n : ℤ) → (check_value spec (int n) ≡ none) ↔ FitsInt spec n
unfolding check_value check_string check_int check_boolean check_list
Fits-check_int (string_spec longest one_of) n = (λ e. ground arith, λ h. absurd h)
Fits-check_int (int_spec low high) n = (λ e. ground arith, λ h. ground arith)
Fits-check_int boolean_spec n = (λ e. ground arith, λ h. absurd h)
Fits-check_int (string_list_spec most longest) n = (λ e. ground arith, λ h. absurd h)
Fits-check_int inherited_spec n = (λ e. tt, λ h. refl)

Fits-check_bool : (spec : FieldSpec) (b : Bool) → (check_value spec (bool b) ≡ none) ↔ FitsBool spec
unfolding check_value check_string check_int check_boolean check_list
Fits-check_bool (string_spec longest one_of) b = (λ e. ground arith, λ h. absurd h)
Fits-check_bool (int_spec low high) b = (λ e. ground arith, λ h. absurd h)
Fits-check_bool boolean_spec b = (λ e. tt, λ h. refl)
Fits-check_bool (string_list_spec most longest) b = (λ e. ground arith, λ h. absurd h)
Fits-check_bool inherited_spec b = (λ e. tt, λ h. refl)

Fits-check_list :
    (spec : FieldSpec) (l : Items) → (check_value spec (list l) ≡ none) ↔ FitsList spec l
unfolding check_value check_string check_int check_boolean check_list
Fits-check_list (string_spec longest one_of) l = (λ e. ground arith, λ h. absurd h)
Fits-check_list (int_spec low high) l = (λ e. ground arith, λ h. absurd h)
Fits-check_list boolean_spec l = (λ e. ground arith, λ h. absurd h)
Fits-check_list (string_list_spec most longest) l =
    let (to, from) = AllShort-items_problem longest l in
    (λ e. (ground arith, to (ground arith)), λ h. ground (arith, from h.1))
Fits-check_list inherited_spec l = (λ e. tt, λ h. refl)

-- A value that no specification of a category takes.
Fits-check_other :
    (spec : FieldSpec) (o : Fields)
    → ((check_value spec null ≡ none) ↔ FitsNone spec)
      × ((check_value spec fraction ≡ none) ↔ FitsNone spec)
      × ((check_value spec (object o) ≡ none) ↔ FitsNone spec)
unfolding check_value check_string check_int check_boolean check_list
Fits-check_other (string_spec longest one_of) o = (
  (λ e. ground arith, λ h. absurd h),
  (λ e. ground arith, λ h. absurd h),
  (λ e. ground arith, λ h. absurd h),
)
Fits-check_other (int_spec low high) o = (
  (λ e. ground arith, λ h. absurd h),
  (λ e. ground arith, λ h. absurd h),
  (λ e. ground arith, λ h. absurd h),
)
Fits-check_other boolean_spec o = (
  (λ e. ground arith, λ h. absurd h),
  (λ e. ground arith, λ h. absurd h),
  (λ e. ground arith, λ h. absurd h),
)
Fits-check_other (string_list_spec most longest) o = (
  (λ e. ground arith, λ h. absurd h),
  (λ e. ground arith, λ h. absurd h),
  (λ e. ground arith, λ h. absurd h),
)
Fits-check_other inherited_spec o =
    ((λ e. tt, λ h. refl), (λ e. tt, λ h. refl), (λ e. tt, λ h. refl))

-- A value passes its check exactly where it fits the specification.
pub Fits-check_value :
    (spec : FieldSpec) (value : Json) → (check_value spec value ≡ none) ↔ Fits spec value
Fits-check_value spec null = (Fits-check_other spec end).0
Fits-check_value spec fraction = (Fits-check_other spec end).1
Fits-check_value spec (object o) = (Fits-check_other spec o).2
Fits-check_value spec (bool b) = Fits-check_bool spec b
Fits-check_value spec (int n) = Fits-check_int spec n
Fits-check_value spec (text t) = Fits-check_text spec t
Fits-check_value spec (list l) = Fits-check_list spec l
