-- ===== src/Json.antt =====
-- JSON documents, as `json` reads and writes them. The numbers of the modelled files are whole
-- numbers from 0; seconds are counted in the ticks of a clock.
use fb_scraper.Prelude.{
  ℕ, Bool, true, false, ◌≡◌, refl, ap, Option, none, some, List, [], ◌∷◌, Text, text_eq, ◌==◌,
}
use fb_scraper.Prelude.Dict.{Dict}

mutual
  pub data Json : Type 0 where
    null : Json
    boolean : Bool → Json
    number : ℕ → Json
    string : Text → Json
    array : Items → Json
    object : Fields → Json

  pub data Items : Type 0 where
    no_items : Items
    item : Json → Items → Items

  pub data Fields : Type 0 where
    no_fields : Fields
    field : Text → Json → Fields → Fields

abbrev pub to_list : Items → List Json
to_list no_items = []
to_list (item v vs) = v ∷ to_list vs

abbrev pub from_list : List Json → Items
from_list [] = no_items
from_list (v ∷ vs) = item v (from_list vs)

pub to_list-from_list : (vs : List Json) → to_list (from_list vs) ≡ vs
to_list-from_list [] = refl
to_list-from_list (v ∷ vs) = ap (λ us. v ∷ us) (to_list-from_list vs)

abbrev pub to_dict : Fields → Dict Text Json
to_dict no_fields = []
to_dict (field k v fs) = (k, v) ∷ to_dict fs

abbrev pub from_dict : Dict Text Json → Fields
from_dict [] = no_fields
from_dict ((k, v) ∷ d) = field k v (from_dict d)

pub to_dict-from_dict : (d : Dict Text Json) → to_dict (from_dict d) ≡ d
to_dict-from_dict [] = refl
to_dict-from_dict ((k, v) ∷ d) = ap (λ e. (k, v) ∷ e) (to_dict-from_dict d)

-- The order of the keys of an object, which `sort_keys` sets, is not modelled.
-- A file that should hold a JSON document: `is_file()` fails, `json.loads` fails, or its document.
-- A file that `json.dumps` wrote reads as the document that was written.
pub data File : Type 0 where
  missing unreadable : File
  document : Json → File

-- `isinstance(value, dict)`, `isinstance(value, list)`, `isinstance(value, str)`
abbrev pub as_dict : Json → Option (Dict Text Json)
as_dict (object fs) = some (to_dict fs)
as_dict _ = none

abbrev pub as_list : Json → Option (List Json)
as_list (array vs) = some (to_list vs)
as_list _ = none

abbrev pub as_text : Json → Option Text
as_text (string t) = some t
as_text _ = none

-- A list all of whose items are `str`
abbrev pub as_texts : List Json → Option (List Text)
as_texts [] = some []
as_texts (v ∷ vs) = elim (as_text v) [
  | none ↦ none
  | some t ↦ elim (as_texts vs) [ none ↦ none | some ts ↦ some (t ∷ ts) ]
]

abbrev pub strings : List Text → List Json
strings [] = []
strings (t ∷ ts) = string t ∷ strings ts

pub as_texts-strings : (ts : List Text) → as_texts (strings ts) ≡ some ts
as_texts-strings [] = refl
as_texts-strings (t ∷ ts) = rw (as_texts-strings ts) refl

-- The list of texts in a value
abbrev pub as_text_list : Json → Option (List Text)
as_text_list (array vs) = as_texts (to_list vs)
as_text_list _ = none

abbrev pub text_list : List Text → Json
text_list ts = array (from_list (strings ts))

pub as_text_list-text_list : (ts : List Text) → as_text_list (text_list ts) ≡ some ts
as_text_list-text_list ts = rw (to_list-from_list (strings ts), as_texts-strings ts) refl

-- `value == text`
abbrev pub is_text : Json → Text → Bool
is_text (string s) t = s == t
is_text _ t = false

-- `None` and a text, as a value
abbrev pub optional_text : Option Text → Json
optional_text none = null
optional_text (some t) = string t

-- `str(value)`, `int(value)` and `float(value)` of builtins, on the values above. `int` and `float`
-- read a text as a parameter does, and raise when it gives none.
pub record Builtins : Type 0 where
  pub str : Json → Text
  pub str_text : (t : Text) → str (string t) ≡ t
  pub int_of_text : Text → Option ℕ
  pub float_of_text : Text → Option ℕ

module _ (builtins : Builtins) where
  abbrev pub number_of : (Text → Option ℕ) → Json → Option ℕ
  number_of parse (number n) = some n
  number_of parse (boolean true) = some 1
  number_of parse (boolean false) = some 0
  number_of parse (string t) = parse t
  number_of parse _ = none

  abbrev pub int_of : Json → Option ℕ
  int_of = number_of builtins.int_of_text

  abbrev pub float_of : Json → Option ℕ
  float_of = number_of builtins.float_of_text

  -- `str(d[k]) if d.get(k) is not None else None`
  abbrev pub optional_str : Option Json → Option Text
  optional_str none = none
  optional_str (some null) = none
  optional_str (some v) = some (builtins.str v)

  -- `int(d.get(k, 0))`
  abbrev pub int_or_zero : Option Json → Option ℕ
  int_or_zero none = some 0
  int_or_zero (some v) = int_of v
