-- ===== src/Tree/Values.antt =====
-- `CanonicalValue` of core/contracts/tree.py, its equality and its `repr`.
use structural_reconciliatio.Base.{
  ℕ, suc, String, Bool, true, false, Option, none, some, List, [], ◌∷◌, ◌==◌, if◌then◌else◌, ◌&&◌,
  leb,
}
use structural_reconciliatio.Runtime.{Runtime, Float, float_eq, ℤ, int_eq, int_of_bool}

module _ ⦃R : Runtime⦄ where
  -- A property dict and a nested dict are `Fields`, in insertion order.
  mutual
    pub data Value : Type 0 where
      null : Value
      text : String → Value
      int : ℤ → Value
      float : Float → Value
      bool : Bool → Value
      list : Values → Value
      dict : Fields → Value

    pub data Values : Type 0 where
      nil : Values
      cons : Value → Values → Values

    pub data Fields : Type 0 where
      end : Fields
      field : String → Value → Fields → Fields

  -- `fields.get(k)`
  unfoldable pub get_field : Fields → String → Option Value
  get_field end k = none
  get_field (field j v fs) k = if j == k then some v else get_field fs k

  unfoldable pub field_keys : Fields → List String
  field_keys end = []
  field_keys (field j v fs) = j ∷ field_keys fs

  unfoldable pub count_fields : Fields → ℕ
  count_fields end = 0
  count_fields (field j v fs) = suc (count_fields fs)

  -- `v == w`: a bool is the int 0 or 1, an int and a float are compared by value.
  unfoldable pub number_eq : Value → Value → Bool
  unfolding int_eq int_of_bool
  number_eq (int m) (int n) = int_eq m n
  number_eq (int m) (float y) = R.eq_int y m
  number_eq (int m) (bool c) = int_eq m (int_of_bool c)
  number_eq (float x) (int n) = R.eq_int x n
  number_eq (float x) (float y) = float_eq x y
  number_eq (float x) (bool c) = R.eq_int x (int_of_bool c)
  number_eq (bool b) (int n) = int_eq (int_of_bool b) n
  number_eq (bool b) (float y) = R.eq_int y (int_of_bool b)
  number_eq (bool b) (bool c) = int_eq (int_of_bool b) (int_of_bool c)
  number_eq _ _ = false

  unfoldable mutual
    pub value_eq : Value → Value → Bool
    value_eq null w = elim w [ null ↦ true | _ ↦ false ]
    value_eq (text s) w = elim w [ text t ↦ s == t | _ ↦ false ]
    value_eq (int m) w = number_eq (int m) w
    value_eq (float x) w = number_eq (float x) w
    value_eq (bool b) w = number_eq (bool b) w
    value_eq (list vs) w = elim w [ list ws ↦ values_eq vs ws | _ ↦ false ]
    value_eq (dict fs) w = elim w [
      | dict gs ↦
          (leb (count_fields fs) (count_fields gs) && leb (count_fields gs) (count_fields fs))
          && fields_in fs gs
      | _ ↦ false
    ]

    pub values_eq : Values → Values → Bool
    values_eq nil ws = elim ws [ nil ↦ true | _ ↦ false ]
    values_eq (cons v vs) ws = elim ws [ nil ↦ false | cons w ws ↦ value_eq v w && values_eq vs ws ]

    -- Each entry of the first dict is one of the second.
    pub fields_in : Fields → Fields → Bool
    fields_in end gs = true
    fields_in (field k v fs) gs = elim (get_field gs k) [
      | none ↦ false
      | some w ↦ value_eq v w && fields_in fs gs
    ]

  -- `fs == gs` of two dicts, whatever the order of their entries
  unfoldable pub fields_eq : Fields → Fields → Bool
  unfolding count_fields value_eq
  fields_eq fs gs =
      (leb (count_fields fs) (count_fields gs) && leb (count_fields gs) (count_fields fs))
      && fields_in fs gs
