-- ===== src/Store/Capacity.antt =====
-- What bounds the store: 1024 keys, 256 bytes to a key, 64 KiB to an encoded value.
use mathlib.Core.Path.{subst}
use programmable_redfish_pro.Prelude.{
  suc, ◌≤◌, ◌≡◌, ◌≢◌, refl, ap, ◌∙◌, ◌>>◌, map_err-eq-ok, Result-cases, Bool, false, not,
  Bool-cases, Text, text_eq, text_lt, starts_with, inl, inr, arith, length, ltb, leb, Result, ok,
  err, >>=-eq-ok, ok_injective, err_ne_ok, if◌then◌else◌, ◌&&◌, map_err,
}
use programmable_redfish_pro.Json.{
  Value, Fields, end, field, lookup, insert, remove, HasOrderedKeys, Above, Above-trans,
  lookup-Above, insert-HasOrderedKeys, remove-HasOrderedKeys,
}
use programmable_redfish_pro.Scripting.{Scripting}
use programmable_redfish_pro.Store.{
  Store, StoreError, max_keys, max_value_bytes, size, retain, check_key, lock, is_some, set,
  remove_key, remove_prefix, overflowed, full, not_serialisable, not_encodable,
}

size-insert :
    (k : Text) (v : Value) (fs : Fields)
    → HasOrderedKeys fs
    → size (insert k v fs) ≡ (if is_some (lookup k fs) then size fs else suc (size fs))
unfolding lookup insert
size-insert k v end o = refl
size-insert k v (field j w fs) o = elim (Bool-cases (text_eq j k)) [
  | inl same ↦ rw same refl
  | inr other ↦ elim (Bool-cases (text_lt k j)) [
    | inl before ↦ rw (other, before, lookup-Above k fs (Above-trans k j fs before o.0)) refl
    | inr later ↦ rw (other, later) (ground (arith, size-insert k v fs o.1))
  ]
]

size-remove_le : (k : Text) (fs : Fields) → size (remove k fs) ≤ size fs
unfolding remove
size-remove_le k end = omega arith
size-remove_le k (field j w fs) = ground (arith, size-remove_le k fs)

pub size-retain_le : (keep : Text → Bool) (fs : Fields) → size (retain keep fs) ≤ size fs
unfolding retain
size-retain_le keep end = omega arith
size-retain_le keep (field j w fs) = ground (arith, size-retain_le keep fs)

Above-retain : (k : Text) (keep : Text → Bool) (fs : Fields) → Above k fs → Above k (retain keep fs)
unfolding retain
Above-retain k keep end a = tt
Above-retain k keep (field j w fs) a = ground (arith, Above-retain k keep fs a.1)

retain-HasOrderedKeys :
    (keep : Text → Bool) (fs : Fields) → HasOrderedKeys fs → HasOrderedKeys (retain keep fs)
unfolding retain
retain-HasOrderedKeys keep end o = tt
retain-HasOrderedKeys keep (field j w fs) o =
    ground (arith, Above-retain j keep fs o.0, retain-HasOrderedKeys keep fs o.1)

-- A removal of a prefix never fails for the count: no store holds so many keys.
pub remove_prefix-ne-overflowed :
    (prefix : Text) (store : Store)
    → size store.entries ≤ max_keys
    → (remove_prefix prefix store).0 ≢ err overflowed
unfolding remove_prefix check_key lock
remove_prefix-ne-overflowed prefix store few h =
    ground (arith, size-retain_le (λ key. not (starts_with prefix key)) store.entries)

pub lock_entries :
    (store : Store) {entries : Fields} → lock store ≡ ok entries → entries ≡ store.entries
unfolding lock
lock_entries store h = ground arith

-- What `set` does once the entries are at hand.
abbrev SetEnd : Text → Value → Store → Fields → Store → Type 0
SetEnd key json store entries after =
    ◌≡◌ {A = Result StoreError Store}
      (if leb max_keys (size entries) && not (is_some (lookup key entries))
        then err full
        else ok (record store { entries = insert key json entries }))
      (ok after)

module _ (scripting : Scripting) where
  open scripting use {Script, to_json, encode}

  -- An entry that `set` would have let in.
  pub record Fits (k : Text) (v : Value) : Type 0 where
    pub key : check_key k ≡ ok tt
    pub bytes : Text
    pub encoded : encode v ≡ ok bytes
    pub small : length bytes ≤ max_value_bytes

  abbrev pub AllFit : Fields → Type 0
  AllFit end = Unit
  AllFit (field k v fs) = Fits k v × AllFit fs

  pub record IsValid (store : Store) : Type 0 where
    pub ordered : HasOrderedKeys store.entries
    pub few : size store.entries ≤ max_keys
    pub fit : AllFit store.entries

  AllFit-insert :
      (k : Text) (v : Value) (fs : Fields) → Fits k v → AllFit fs → AllFit (insert k v fs)
  unfolding insert
  AllFit-insert k v end f a = (f, a)
  AllFit-insert k v (field j w fs) f a = elim (Bool-cases (text_eq j k)) [
    | inl same ↦ rw same (f, a.1)
    | inr other ↦ elim (Bool-cases (text_lt k j)) [
      | inl before ↦ rw (other, before) (f, a)
      | inr later ↦ rw (other, later) (a.0, AllFit-insert k v fs f a.1)
    ]
  ]

  AllFit-remove : (k : Text) (fs : Fields) → AllFit fs → AllFit (remove k fs)
  unfolding remove
  AllFit-remove k end a = tt
  AllFit-remove k (field j w fs) a = elim (Bool-cases (text_eq j k)) [
    | inl same ↦ rw same (AllFit-remove k fs a.1)
    | inr other ↦ rw other (a.0, AllFit-remove k fs a.1)
  ]

  AllFit-retain : (keep : Text → Bool) (fs : Fields) → AllFit fs → AllFit (retain keep fs)
  unfolding retain
  AllFit-retain keep end a = tt
  AllFit-retain keep (field j w fs) a = elim (Bool-cases (keep j)) [
    | inl kept ↦ rw kept (a.0, AllFit-retain keep fs a.1)
    | inr gone ↦ rw gone (AllFit-retain keep fs a.1)
  ]

  -- The steps of a `set` that succeeded.
  pub record SetSteps (key : Text) (value : Script) (store after : Store) : Type 0 where
    pub json : Value
    pub fits : Fits key json
    pub read : to_json value ≡ ok json
    pub opened : lock store ≡ ok store.entries
    pub room :
        (leb max_keys (size store.entries) && not (is_some (lookup key store.entries))) ≡ false
    pub same : record store { entries = insert key json store.entries } ≡ after

  pub set_steps :
      (key : Text) (value : Script) (store : Store) {after : Store}
      → set scripting key value store ≡ ok after
      → SetSteps key value store after
  unfolding set
  set_steps key value store {after} h =
      let (u, checked, h1) = >>=-eq-ok (check_key key) _ h in
      let (json, read, h2) = >>=-eq-ok (map_err not_serialisable (to_json value)) _ h1 in
      let (bytes, encoded, h3) = >>=-eq-ok (map_err not_encodable (encode json)) _ h2 in
      elim (Bool-cases (ltb max_value_bytes (length bytes))) [
        | inl large ↦ absurd (err_ne_ok (rw large at h3))
        | inr small ↦
            let (entries, opened, h4) = >>=-eq-ok (lock store) _ (rw small at h3) in
            let same = lock_entries store opened in
            let there = subst (λ e. SetEnd key json store e after) same h4 in
            elim (Bool-cases
              (leb max_keys (size store.entries) && not (is_some (lookup key store.entries)))) [
                | inl packed ↦ absurd (err_ne_ok (rw packed at there))
                | inr room ↦ record {
                  json = json;
                  fits = record {
                    key = checked;
                    bytes = bytes;
                    encoded = map_err-eq-ok not_encodable (encode json) encoded;
                    small = ground arith;
                  };
                  read = map_err-eq-ok not_serialisable (to_json value) read;
                  opened = opened ∙ ap ok same;
                  room = room;
                  same = ok_injective (rw room at there);
                }
              ]
      ]

  -- Whatever `set` lets in fits, and the store holds no more than its keys.
  pub set-IsValid :
      (key : Text) (value : Script) (store : Store) {after : Store}
      → IsValid store
      → set scripting key value store ≡ ok after
      → IsValid after
  set-IsValid key value store v h =
      let s = set_steps key value store h in
      subst IsValid s.same (record {
        ordered = insert-HasOrderedKeys key s.json store.entries v.ordered;
        few = ground (arith, size-insert key s.json store.entries v.ordered, s.room, v.few);
        fit = AllFit-insert key s.json store.entries s.fits v.fit;
      })

  pub remove_key-IsValid :
      (key : Text) (store : Store) {b : Bool} {after : Store}
      → IsValid store
      → remove_key key store ≡ ok (b, after)
      → IsValid after
  unfolding remove_key
  remove_key-IsValid key store v h =
      let (u, checked, h1) = >>=-eq-ok (check_key key) _ h in
      let (entries, opened, h2) = >>=-eq-ok (lock store) _ h1 in
      let same = lock_entries store opened in
      subst IsValid (ap (λ (p : Bool × Store). p.1) (ok_injective h2)) (record {
        ordered = rw same (remove-HasOrderedKeys key store.entries v.ordered);
        few = rw same (omega (arith, size-remove_le key store.entries, v.few));
        fit = rw same (AllFit-remove key store.entries v.fit);
      })

  pub remove_prefix-IsValid :
      (prefix : Text) (store : Store) → IsValid store → IsValid (remove_prefix prefix store).1
  unfolding remove_prefix
  remove_prefix-IsValid prefix store v = elim (Result-cases (do check_key prefix; lock store)) [
    | inr (e, failed) ↦ rw (failed, remove_prefix) v
    | inl (entries, opened) ↦
        let keep = λ (key : Text). not (starts_with prefix key) in
        let (u, checked, there) = >>=-eq-ok (check_key prefix) _ opened in
        let same = lock_entries store there in
        rw (opened, remove_prefix)
          (rw same (record {
            ordered = retain-HasOrderedKeys keep store.entries v.ordered;
            few = omega (arith, size-retain_le keep store.entries, v.few);
            fit = AllFit-retain keep store.entries v.fit;
          }))
  ]
