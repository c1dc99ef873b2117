-- ===== src/Examples/Settings.antt =====
-- A configuration with one route.
use programmable_redfish_pro.Prelude.{◌≡◌, ◌↔◌, none, some, [], ◌∷◌, lit, ok}
use programmable_redfish_pro.Config.{Config, validate}
use programmable_redfish_pro.Config.Checks.{IsAcceptable, validate-eq-ok_iff}

abbrev sample : Config
unfolding lit
sample = record {
  route = record { method = []; path = lit "/redfish/v1"; script = lit "root.rn" } ∷ [];
  base_path = lit "/";
  tls = record { cert_path = some (lit "cert.pem"); key_path = none };
}

validate-eq-ok_iff_example : (validate sample ≡ ok tt) ↔ IsAcceptable sample
validate-eq-ok_iff_example = validate-eq-ok_iff sample
