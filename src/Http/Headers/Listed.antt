-- ===== src/Http/Headers/Listed.antt =====
-- Header maps as lists of entries, which keep what the `http` crate documents.
use programmable_redfish_pro.Prelude.{
  ◌≡◌, refl, ◌∙◌, ap, true, false, ◌&&◌, Bool-cases, inl, inr, Option, none, some, List, [], ◌∷◌,
  ◌++◌, Text, text_eq, text_eq_iff, lit, all, leb, length, is_empty, if◌then◌else◌, arith,
}
use programmable_redfish_pro.DeepPath.{to_ascii_lowercase}
use programmable_redfish_pro.Http.Headers.{
  HeaderMaps, IsLawful, values_of, times, one_if_any, is_plain, first_value,
}

abbrev pub Entries : Type 0
Entries = List (Text × Text)

unfoldable pub without : Text → Entries → Entries
without name [] = []
without name ((key, v) ∷ entries) =
    let rest = without name entries in if text_eq key name then rest else (key, v) ∷ rest

unfoldable without_name : Text → List Text → List Text
without_name name [] = []
without_name name (key ∷ keys) =
    let rest = without_name name keys in if text_eq key name then rest else key ∷ rest

unfoldable pub names : Entries → List Text
unfolding without_name
names [] = []
names ((key, v) ∷ entries) = key ∷ without_name key (names entries)

abbrev pub visible : Text → Option Text
visible s = if all (λ b. leb 32 b && leb b 126) s then some s else none

abbrev pub name_of : Text → Option Text
name_of s = if is_empty s then none else some (to_ascii_lowercase s)

values_of-snoc :
    (m : Entries) (k v n : Text)
    → values_of n (m ++ (k, v) ∷ [])
      ≡ (if text_eq n k then values_of n m ++ v ∷ [] else values_of n m)
unfolding values_of
values_of-snoc [] k v n = refl
values_of-snoc ((key, w) ∷ m) k v n = elim (Bool-cases (text_eq n k)) [
  | inl same ↦ elim (Bool-cases (text_eq n key)) [
    | inl here ↦ rw (here, values_of-snoc m k v n, same) refl
    | inr there ↦ rw (there, values_of-snoc m k v n, same) refl
  ]
  | inr other ↦ elim (Bool-cases (text_eq n key)) [
    | inl here ↦ rw (here, values_of-snoc m k v n, other) refl
    | inr there ↦ rw (there, values_of-snoc m k v n, other) refl
  ]
]

values_of-without :
    (m : Entries) (k n : Text)
    → values_of n (without k m) ≡ (if text_eq n k then [] else values_of n m)
unfolding values_of without
values_of-without [] k n = elim (Bool-cases (text_eq n k)) [
  | inl same ↦ rw same refl
  | inr other ↦ rw other refl
]
values_of-without ((key, w) ∷ m) k n = elim (Bool-cases (text_eq key k)) [
  | inl gone ↦
      let one : key ≡ k = (text_eq_iff key k).0 gone in
      elim (Bool-cases (text_eq n k)) [
        | inl same ↦ rw (gone, values_of-without m k n, same) refl
        | inr other ↦ rw (gone, values_of-without m k n, one, other) refl
      ]
  | inr stays ↦ elim (Bool-cases (text_eq n key)) [
    | inl here ↦
        let off : text_eq n k ≡ false =
          ap (λ (s : Text). text_eq s k) ((text_eq_iff n key).0 here) ∙ stays in
        rw (stays, here, values_of-without m k n, off) refl
    | inr there ↦ rw (stays, there, values_of-without m k n) refl
  ]
]

times-without_name :
    (ks : List Text) (k n : Text)
    → times n (without_name k ks) ≡ (if text_eq n k then 0 else times n ks)
unfolding times without_name
times-without_name [] k n = elim (Bool-cases (text_eq n k)) [
  | inl same ↦ rw same refl
  | inr other ↦ rw other refl
]
times-without_name (key ∷ ks) k n = elim (Bool-cases (text_eq key k)) [
  | inl gone ↦
      let one : key ≡ k = (text_eq_iff key k).0 gone in
      elim (Bool-cases (text_eq n k)) [
        | inl same ↦ rw (gone, times-without_name ks k n, same) refl
        | inr other ↦ rw (gone, times-without_name ks k n, one, other) refl
      ]
  | inr stays ↦ elim (Bool-cases (text_eq n key)) [
    | inl here ↦
        let off : text_eq n k ≡ false =
          ap (λ (s : Text). text_eq s k) ((text_eq_iff n key).0 here) ∙ stays in
        rw (stays, here, times-without_name ks k n, off) refl
    | inr there ↦ rw (stays, there, times-without_name ks k n) refl
  ]
]

times-names : (m : Entries) (n : Text) → times n (names m) ≡ one_if_any (values_of n m)
unfolding times names values_of
times-names [] n = refl
times-names ((key, v) ∷ m) n = elim (Bool-cases (text_eq n key)) [
  | inl here ↦ rw (here, times-without_name (names m) key n, here) refl
  | inr there ↦ rw (there, times-without_name (names m) key n, there) (times-names m n)
]

abbrev pub listed : HeaderMaps
listed = record {
  HeaderMap = Entries;
  HeaderValue = Text;
  to_str = visible;
  from_str = visible;
  from_static = λ s. s;
  from_usize = λ n. n ∷ [];
  from_bytes = name_of;
  new = [];
  append = λ m k v. m ++ (k, v) ∷ [];
  insert = λ m k v. without k m ++ (k, v) ∷ [];
  remove = λ m k. without k m;
  get = λ m n. first_value (values_of (to_ascii_lowercase n) m);
  get_all = λ m n. values_of n m;
  iter = λ m. m;
  keys = names;
}

values_of-insert :
    (m : Entries) (k v n : Text)
    → values_of n (without k m ++ (k, v) ∷ []) ≡ (if text_eq n k then v ∷ [] else values_of n m)
values_of-insert m k v n = elim (Bool-cases (text_eq n k)) [
  | inl same ↦ rw (values_of-snoc (without k m) k v n, values_of-without m k n, same) refl
  | inr other ↦ rw (values_of-snoc (without k m) k v n, values_of-without m k n, other) refl
]

name_of-lowercase : (s n : Text) → name_of s ≡ some n → n ≡ to_ascii_lowercase s
name_of-lowercase s n h = elim (Bool-cases (is_empty s)) [
  | inl none_there ↦ ground (arith, h)
  | inr there ↦ ground (arith, h)
]

lower_plain : (s : Text) → all is_plain s ≡ true → to_ascii_lowercase s ≡ s
lower_plain [] h = refl
lower_plain (b ∷ s) h =
    let rest : all is_plain s ≡ true = ground arith in
    let upper : (leb b'A' b && leb b b'Z') ≡ false = ground arith in
    rw (upper, lower_plain s rest) refl

name_of-plain :
    (s : Text)
    → is_empty s ≡ false
    → leb (length s) 64 ≡ true
    → all is_plain s ≡ true
    → name_of s ≡ some s
name_of-plain s some' short plain = rw (some', lower_plain s plain) refl

pub listed-IsLawful : IsLawful listed
unfolding lit values_of
listed-IsLawful = record {
  get_all-new = λ n. refl;
  get_all-append = values_of-snoc;
  get_all-insert = values_of-insert;
  get_all-remove = values_of-without;
  get-get_all = λ m n. refl;
  values_of-iter = λ m n. refl;
  times-keys = times-names;
  from_bytes-lowercase = name_of-lowercase;
  from_bytes-plain = name_of-plain;
  to_str-from_static = refl;
}
