-- ===== src/Http/Json.antt =====
-- What Tema_3/client.c uses of the parson library and of the type double: a JSON_Value or
-- JSON_Object is a V, NULL included, and a double is a D.
use teme_pcom.Prelude.{Bytes, List, Option, ℕ}
use teme_pcom.Http.Numbers.{ℤ}

pub record Json (V D : Type 0) : Type 0 where
  -- json_value_init_object with json_value_get_object, and the setters
  pub init_object : V
  pub set_string : Bytes → Bytes → V → V
  pub set_number : Bytes → D → V → V
  -- json_serialize_to_string_pretty
  pub to_string_pretty : V → Bytes
  -- json_parse_string, of NULL at `none`, with json_value_get_object
  pub parse_string : Option Bytes → V
  -- json_object_get_string, which may be NULL, and json_object_get_number
  pub get_string : V → Bytes → Option Bytes
  pub get_number : V → Bytes → D
  -- json_object_get_array, with the objects from 0 to json_array_get_count
  pub get_array : V → Bytes → List V

pub record Reals (D : Type 0) : Type 0 where
  -- the conversions from and to int, and to float and back
  pub of_int : ℤ → D
  pub int_of : D → ℤ
  pub to_float : D → D
  -- atof, and strtod with the number of the bytes that it reads
  pub atof : Bytes → D
  pub strtod : Bytes → D
  pub strtod_length : Bytes → ℕ
  -- "%lf"
  pub print_double : D → Bytes
