-- ===== src/Http/Headers.antt =====
-- The `HeaderMap` of the `http` crate, as far as the program uses it: the operations, and what the
-- crate documents of them. A `HeaderName` is its text, which the crate keeps in lower case.
pub mod Copied
pub mod Listed
use programmable_redfish_pro.Prelude.{
  ℕ, zero, suc, ◌≡◌, Bool, true, false, Option, none, some, List, [], ◌∷◌, ◌++◌, Text, lit, text_eq,
  if◌then◌else◌, ◌&&◌, ◌||◌, leb, ◌==◌, all, length, is_empty,
}
use programmable_redfish_pro.DeepPath.{to_ascii_lowercase}

pub record HeaderMaps : Type 1 where
  pub HeaderMap : Type 0
  pub HeaderValue : Type 0
  -- `HeaderValue::to_str`, `HeaderValue::from_str`, and the values of constants and of lengths.
  pub to_str : HeaderValue → Option Text
  pub from_str : Text → Option HeaderValue
  pub from_static : Text → HeaderValue
  pub from_usize : ℕ → HeaderValue
  -- `HeaderName::from_bytes`
  pub from_bytes : Text → Option Text
  pub new : HeaderMap
  pub append : HeaderMap → Text → HeaderValue → HeaderMap
  pub insert : HeaderMap → Text → HeaderValue → HeaderMap
  pub remove : HeaderMap → Text → HeaderMap
  pub get : HeaderMap → Text → Option HeaderValue
  pub get_all : HeaderMap → Text → List HeaderValue
  -- `iter`, which goes over each value with its name, and `keys`.
  pub iter : HeaderMap → List (Text × HeaderValue)
  pub keys : HeaderMap → List Text

abbrev pub first_value : {A : Type 0} → List A → Option A
first_value [] = none
first_value (v ∷ vs) = some v

-- The values that a list of entries has under a name.
unfoldable pub values_of : {A : Type 0} → Text → List (Text × A) → List A
values_of name [] = []
values_of name ((key, v) ∷ entries) =
    let rest = values_of name entries in if text_eq name key then v ∷ rest else rest

unfoldable pub times : Text → List Text → ℕ
times name [] = 0
times name (key ∷ keys) = let rest = times name keys in if text_eq name key then suc rest else rest

abbrev pub one_if_any : {A : Type 0} → List A → ℕ
one_if_any [] = 0
one_if_any (v ∷ vs) = 1

-- A lower case letter or a dash.
abbrev pub is_plain : ℕ → Bool
is_plain b = leb b'a' b && leb b b'z' || b == b'-'

-- What the crate documents.
pub record IsLawful (http : HeaderMaps) : Type 0 where
  pub get_all-new : (n : Text) → http.get_all http.new n ≡ []
  pub get_all-append :
      (m : http.HeaderMap) (k : Text) (v : http.HeaderValue) (n : Text)
      → http.get_all (http.append m k v) n
        ≡ (if text_eq n k then http.get_all m n ++ v ∷ [] else http.get_all m n)
  pub get_all-insert :
      (m : http.HeaderMap) (k : Text) (v : http.HeaderValue) (n : Text)
      → http.get_all (http.insert m k v) n ≡ (if text_eq n k then v ∷ [] else http.get_all m n)
  pub get_all-remove :
      (m : http.HeaderMap) (k n : Text)
      → http.get_all (http.remove m k) n ≡ (if text_eq n k then [] else http.get_all m n)
  pub get-get_all :
      (m : http.HeaderMap) (n : Text)
      → http.get m n ≡ first_value (http.get_all m (to_ascii_lowercase n))
  pub values_of-iter :
      (m : http.HeaderMap) (n : Text) → values_of n (http.iter m) ≡ http.get_all m n
  pub times-keys :
      (m : http.HeaderMap) (n : Text) → times n (http.keys m) ≡ one_if_any (http.get_all m n)
  pub from_bytes-lowercase : (s n : Text) → http.from_bytes s ≡ some n → n ≡ to_ascii_lowercase s
  pub from_bytes-plain :
      (s : Text)
      → is_empty s ≡ false
      → leb (length s) 64 ≡ true
      → all is_plain s ≡ true
      → http.from_bytes s ≡ some s
  pub to_str-from_static :
      http.to_str (http.from_static (lit "application/json")) ≡ some (lit "application/json")
