-- ===== src/Scripting.antt =====
-- What the program takes from Rune and `serde_json` to carry values between a script and JSON: a
-- script's value as a document, a document as a script's value, and a document as bytes.
use programmable_redfish_pro.Prelude.{Text, Result}
use programmable_redfish_pro.Json.{Value}

pub record Scripting : Type 1 where
  pub Script : Type 0
  -- `serde_json::to_value`
  pub to_json : Script → Result Text Value
  -- `to_script_value` of src/script_bmc.rs, whose body is one call of `serde_json::from_value`
  pub of_json : Value → Result Text Script
  -- `serde_json::to_vec`
  pub encode : Value → Result Text Text
