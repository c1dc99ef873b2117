-- ===== src/Store/Reads.antt =====
-- What a script reads back from the store.
use mathlib.Core.Path.{subst}
use programmable_redfish_pro.Prelude.{
  ◌↔◌, leb, leb→le, Option-cases, ℕ, ◌+◌, ◌≤◌, ◌≡◌, refl, sym, ap, ◌∙◌, Bool, true, false, not,
  Bool-cases, some, none, Text, text_eq, text_eq_iff, starts_with, inl, inr, arith, length, ok, err,
  >>=-eq-ok, ok_injective, err_ne_ok, if◌then◌else◌, ◌>>◌, Result-cases,
}
use programmable_redfish_pro.Json.{
  Value, Fields, end, field, lookup, insert, remove, lookup-insert, lookup-remove,
}
use programmable_redfish_pro.Scripting.{Scripting}
use programmable_redfish_pro.Store.{
  Store, max_keys, max_value_bytes, size, retain, check_key, lock, is_some, found, get, set,
  remove_key, remove_prefix, contains, full,
}
use programmable_redfish_pro.Store.Capacity.{set_steps, lock_entries, size-retain_le}

lookup-retain :
    (keep : Text → Bool) (k : Text) (fs : Fields)
    → lookup k (retain keep fs) ≡ (if keep k then lookup k fs else none)
unfolding lookup retain
lookup-retain keep k end = ground arith
lookup-retain keep k (field j v fs) = elim (Bool-cases (text_eq j k)) [
  | inl same ↦ elim (Bool-cases (keep k)) [
    | inl kept ↦ rw (ap keep ((text_eq_iff j k).0 same) ∙ kept, kept, same) refl
    | inr gone ↦
        rw (ap keep ((text_eq_iff j k).0 same) ∙ gone, gone) (rw gone at (lookup-retain keep k fs))
  ]
  | inr other ↦ elim (Bool-cases (keep j)) [
    | inl kept ↦ rw (kept, other) (lookup-retain keep k fs)
    | inr gone ↦ rw (gone, other) (lookup-retain keep k fs)
  ]
]

-- A call can be made: from inside a handler, with the lock sound.
pub record IsOpen (store : Store) : Type 0 where
  pub inside : store.handling ≡ true
  pub sound : store.poisoned_lock ≡ false

lock_update :
    (store : Store) (e e' : Fields)
    → lock store ≡ ok e
    → lock (record store { entries = e' }) ≡ ok e'
unfolding lock
lock_update store e e' h = ground arith

-- `contains` on a store that can be read.
contains_opened :
    (j : Text) (store : Store) {e : Fields}
    → check_key j ≡ ok tt
    → lock store ≡ ok e
    → contains j store ≡ ok (is_some (lookup j e))
unfolding contains
contains_opened j store valid opened = rw (valid, opened) refl

-- A `remove` that succeeds answers what `contains` said before; after it `contains` says no for that
-- key, and for every other valid key what it said before.
pub remove_key-contains :
    (key j : Text) (store after : Store) (there : Bool)
    → check_key j ≡ ok tt
    → remove_key key store ≡ ok (there, after)
    → (contains key store ≡ ok there)
      × (contains j after ≡ (if text_eq key j then ok false else contains j store))
unfolding remove_key
remove_key-contains key j store after there valid h =
    let (u, checked, h1) = >>=-eq-ok (check_key key) _ h in
    let (entries, opened, h2) = >>=-eq-ok (lock store) _ h1 in
    let both = ok_injective h2 in
    (
      contains_opened key store checked opened ∙ ap (λ (p : Bool × Store). ok p.0) both,
      subst (λ (s : Store). contains j s ≡ (if text_eq key j then ok false else contains j store))
          (ap (λ (p : Bool × Store). p.1) both)
          (contains_opened j (record store { entries = remove key entries }) valid
              (lock_update store entries (remove key entries) opened)
            ∙ rw (lookup-remove, contains_opened j store valid opened)
                (elim (Bool-cases (text_eq key j)) [ inl e ↦ rw e refl | inr e ↦ rw e refl ])),
    )

-- A `remove_prefix` that succeeds answers by how many keys the store has shrunk; after it `contains`
-- says no for every valid key with the prefix, and for every other what it said before.
pub remove_prefix-contains :
    (prefix j : Text) (store : Store) (n : ℕ)
    → check_key j ≡ ok tt
    → (remove_prefix prefix store).0 ≡ ok n
    → (size (remove_prefix prefix store).1.entries + n ≡ size store.entries)
      × (contains j (remove_prefix prefix store).1
          ≡ (if starts_with prefix j then ok false else contains j store))
unfolding remove_prefix
remove_prefix-contains prefix j store n valid h =
    elim (Result-cases (do check_key prefix; lock store)) [
      | inr (e, failed) ↦ absurd (err_ne_ok (rw (failed, remove_prefix) at h))
      | inl (entries, opened) ↦
          let keep = λ (key : Text). not (starts_with prefix key) in
          let h' = rw (opened, remove_prefix) at h in
          let (u, checked, there) = >>=-eq-ok (check_key prefix) _ opened in
          rw (opened, remove_prefix)
            (
              ground (arith, size-retain_le keep entries, lock_entries store there, h'),
              contains_opened j (record store { entries = retain keep entries }) valid
                    (lock_update store entries (retain keep entries) there)
                  ∙ rw (lookup-retain, contains_opened j store valid there)
                      (elim (Bool-cases (starts_with prefix j)) [
                        | inl e ↦ rw e refl
                        | inr e ↦ rw e refl
                      ]),
            )
    ]

module _ (scripting : Scripting) where
  open scripting use {Script, to_json, of_json, encode}

  get_opened :
      (j : Text) (store : Store) {e : Fields}
      → check_key j ≡ ok tt
      → lock store ≡ ok e
      → get scripting j store ≡ found scripting (lookup j e)
  unfolding get
  get_opened j store valid opened = rw (valid, opened) refl

  -- After a `set` that succeeds, its key reads as the value that was written, and every other valid
  -- key as before.
  pub get-set :
      (key j : Text) (value : Script) (json : Value) (store after : Store)
      → check_key j ≡ ok tt
      → to_json value ≡ ok json
      → set scripting key value store ≡ ok after
      → get scripting j after
        ≡ (if text_eq key j then found scripting (some json) else get scripting j store)
  get-set key j value json store after valid read h =
      let s = set_steps scripting key value store h in
      let written : s.json ≡ json = ok_injective (sym s.read ∙ read) in
      subst
        (λ (x : Store).
          get scripting j x
          ≡ (if text_eq key j then found scripting (some json) else get scripting j store))
        s.same
        (get_opened j (record store { entries = insert key s.json store.entries }) valid
            (lock_update store store.entries (insert key s.json store.entries) s.opened)
          ∙ rw (lookup-insert, get_opened j store valid s.opened, written)
              (elim (Bool-cases (text_eq key j)) [ inl e ↦ rw e refl | inr e ↦ rw e refl ]))

  -- A `set` on a key that is there writes it, however full the store, where the key is valid, the value
  -- is JSON of at most 64 KiB, and the store can be locked.
  set_over :
      (key : Text) (value : Script) (store : Store) (json old : Value) (bytes : Text)
      → IsOpen store
      → check_key key ≡ ok tt
      → to_json value ≡ ok json
      → encode json ≡ ok bytes
      → length bytes ≤ max_value_bytes
      → lookup key store.entries ≡ some old
      → set scripting key value store
        ≡ ok (record store { entries = insert key json store.entries })
  unfolding set lock
  set_over key value store json old bytes open' valid read encoded small there = ground arith

  -- A `set` on a key that is not there is refused as full by a store that holds 1024 keys, where the
  -- key is valid, the value is JSON of at most 64 KiB, and the store can be locked.
  set_full :
      (key : Text) (value : Script) (store : Store) (json : Value) (bytes : Text)
      → IsOpen store
      → check_key key ≡ ok tt
      → to_json value ≡ ok json
      → encode json ≡ ok bytes
      → length bytes ≤ max_value_bytes
      → lookup key store.entries ≡ none
      → max_keys ≤ size store.entries
      → set scripting key value store ≡ err full
  unfolding set lock
  set_full key value store json bytes open' valid read encoded small absent packed = ground arith

  set_new :
      (key : Text) (value : Script) (store : Store) (json : Value) (bytes : Text)
      → IsOpen store
      → check_key key ≡ ok tt
      → to_json value ≡ ok json
      → encode json ≡ ok bytes
      → length bytes ≤ max_value_bytes
      → lookup key store.entries ≡ none
      → leb max_keys (size store.entries) ≡ false
      → set scripting key value store
        ≡ ok (record store { entries = insert key json store.entries })
  unfolding set lock
  set_new key value store json bytes open' valid read encoded small absent room = ground arith

  -- A `set` is refused as full exactly when the store holds 1024 keys and this is none of them, where
  -- the key is valid, the value is JSON of at most 64 KiB, and the store can be locked.
  pub set-full_iff :
      (key : Text) (value : Script) (store : Store) (json : Value) (bytes : Text)
      → IsOpen store
      → check_key key ≡ ok tt
      → to_json value ≡ ok json
      → encode json ≡ ok bytes
      → length bytes ≤ max_value_bytes
      → (set scripting key value store ≡ err full)
        ↔ ((max_keys ≤ size store.entries) × (lookup key store.entries ≡ none))
  unfolding set
  set-full_iff key value store json bytes open' valid read encoded small =
      elim (Option-cases (lookup key store.entries)) [
        | inl absent ↦ (
          λ h. elim (Bool-cases (leb max_keys (size store.entries))) [
            | inl packed ↦ (leb→le max_keys (size store.entries) packed, absent)
            | inr room ↦
                let done =
                  set_new key value store json bytes open' valid read encoded small absent room in
                absurd (err_ne_ok (sym h ∙ done))
          ],
          λ h. set_full key value store json bytes open' valid read encoded small absent h.0,
        )
        | inr (old, there) ↦
            let done =
              set_over key value store json old bytes open' valid read encoded small there in
            (λ h. absurd (err_ne_ok (sym h ∙ done)), λ h. cc (sym h.1 ∙ there))
      ]
