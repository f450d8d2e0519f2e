-- ===== src/Ui/Schema/Kinds.antt =====
-- wifi_shepard_ui/settings_schema.py: the kinds of a field, and what the table says of one.
use wifi_shepard.Load.Yaml.{Value}
use wifi_shepard.Prelude.{String, Bool, Option, List, ℤ}

pub data Kind : Type 0 where
  int int_or_null bool enum string secret_ref mac time_hhmm timezone int_list string_list mac_list :
      Kind

pub record FieldSpec : Type 0 where
  pub path : String
  pub label : String
  pub kind : Kind
  pub description : String
  pub section : String
  pub default : Value
  pub unit : Option String
  pub minimum : Option ℤ
  pub maximum : Option ℤ
  pub choices : Option (List String)
  pub secret : Bool
  pub restart_required : Bool
  pub blank_writes_null : Bool
  pub yaml_path : Option String
