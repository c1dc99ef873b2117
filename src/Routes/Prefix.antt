-- ===== src/Routes/Prefix.antt =====
-- The specificity of a route: `literal_prefix_len` of src/config.rs.
use programmable_redfish_pro.Prelude.{
  ◌≡◌, refl, ap, true, not, Bool-cases, [], ◌∷◌, ◌++◌, Text, all, length, inl, inr,
}
use programmable_redfish_pro.Routes.{is_wildcard, literal_prefix_len}

-- The text is at its end, or at a wildcard.
abbrev pub AtWildcard : Text → Type 0
AtWildcard [] = Unit
AtWildcard (b ∷ rest) = is_wildcard b ≡ true

-- The specificity of a pattern is the length of the part before its first wildcard, all of it where
-- it has none.
pub literal_prefix_len_lem :
    (pattern : Text)
    → (prefix : Text) × (rest : Text) × (pattern ≡ prefix ++ rest)
      × (length prefix ≡ literal_prefix_len pattern)
      × (all (λ b. not (is_wildcard b)) prefix ≡ true)
      × AtWildcard rest
unfolding literal_prefix_len
literal_prefix_len_lem [] = ([], [], refl, refl, refl, tt)
literal_prefix_len_lem (b ∷ pattern) = elim (Bool-cases (is_wildcard b)) [
  | inl wild ↦ ([], b ∷ pattern, refl, rw wild refl, refl, wild)
  | inr plain ↦
      let (prefix, rest, parts, count, literal, stop) = literal_prefix_len_lem pattern in
      (b ∷ prefix, rest, ap (λ t. b ∷ t) parts, rw (plain, count) refl, rw plain literal, stop)
]
