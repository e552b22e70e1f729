-- ===== src/Json.antt =====
-- JSON texts, as encoding/json reads them: a raw message is its syntax tree, whose numbers keep
-- their literal. `interface{}` values that the program decodes are the same trees.
use oiaf.Base.{ℕ, ℤ, Bool, String, List, [], ◌∷◌, suc, ◌+◌}

-- A number literal: an integer, or the text of one with a fraction or an exponent.
pub data Number : Type 0 where
  integer : ℤ → Number
  decimal : String → Number

mutual
  pub data Json : Type 0 where
    null : Json
    bool : Bool → Json
    number : Number → Json
    string : String → Json
    array : Items → Json
    object : Fields → Json

  pub data Items : Type 0 where
    nil : Items
    cons : Json → Items → Items

  pub data Fields : Type 0 where
    end : Fields
    field : String → Json → Fields → Fields

abbrev pub to_list : Items → List Json
to_list nil = []
to_list (cons j r) = j ∷ to_list r

abbrev pub of_list : List Json → Items
of_list [] = nil
of_list (j ∷ r) = cons j (of_list r)

-- How large a text is: the fuel for a function that goes down in it.
unfoldable mutual
  pub size : Json → ℕ
  size null = 0
  size (bool b) = 0
  size (number n) = 0
  size (string s) = 0
  size (array r) = suc (size_items r)
  size (object r) = suc (size_fields r)

  pub size_items : Items → ℕ
  size_items nil = 0
  size_items (cons j r) = size j + size_items r

  pub size_fields : Fields → ℕ
  size_fields end = 0
  size_fields (field k j r) = size j + size_fields r
