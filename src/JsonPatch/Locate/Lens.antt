-- ===== src/JsonPatch/Locate/Lens.antt =====
-- What `resolve_mut` finds is what `resolve` finds, and a write through it is seen there.
use mathlib.Core.Path.{subst}
use mathlib.Core.Option.{some-injective}
use programmable_redfish_pro.Prelude.{
  ◌≡◌, refl, ap, some, Option-cases, inl, inr, List, [], ◌∷◌, ◌++◌, Text, text_eq_refl, arith,
  to_option, false, ℕ,
}
use programmable_redfish_pro.Prelude.Optional.{◌>>=◌, >>=-eq-some}
use programmable_redfish_pro.Json.{
  Value, arr, obj, Items, Fields, count, item, lookup, set_field, set_item, count-set_item,
  item-set_item, lookup-set_field, set_item_twice, set_field_twice, set_item_self, set_field_self,
}
use programmable_redfish_pro.JsonPatch.Pointer.{array_index}
use programmable_redfish_pro.JsonPatch.Locate.{resolve, resolve_mut, Slot, under}

-- The steps of `resolve_mut` that have succeeded.
pub record ItemStep (items : Items) (token : Text) (tokens : List Text) (s : Slot) : Type 0 where
  pub index : ℕ
  pub node : Value
  pub inner : Slot
  pub read : to_option (array_index token (count items) false) ≡ some index
  pub found : item items index ≡ some node
  pub rest : resolve_mut node tokens ≡ some inner
  pub same : under (λ w. arr (set_item items index w)) inner ≡ s

pub item_step :
    (items : Items) (token : Text) (tokens : List Text) {s : Slot}
    → resolve_mut (arr items) (token ∷ tokens) ≡ some s
    → ItemStep items token tokens s
unfolding resolve_mut
item_step items token tokens h =
    let (i, p, h') = >>=-eq-some (to_option (array_index token (count items) false)) _ h in
    let (v, q, h'') = >>=-eq-some (item items i) _ h' in
    let (t, r, e) = >>=-eq-some (resolve_mut v tokens) _ h'' in
    record { index = i; node = v; inner = t; read = p; found = q; rest = r; same = cc }

pub record FieldStep (map : Fields) (token : Text) (tokens : List Text) (s : Slot) : Type 0 where
  pub node : Value
  pub inner : Slot
  pub found : lookup token map ≡ some node
  pub rest : resolve_mut node tokens ≡ some inner
  pub same : under (λ w. obj (set_field token w map)) inner ≡ s

pub field_step :
    (map : Fields) (token : Text) (tokens : List Text) {s : Slot}
    → resolve_mut (obj map) (token ∷ tokens) ≡ some s
    → FieldStep map token tokens s
unfolding resolve_mut
field_step map token tokens h =
    let (v, q, h'') = >>=-eq-some (lookup token map) _ h in
    let (t, r, e) = >>=-eq-some (resolve_mut v tokens) _ h'' in
    record { node = v; inner = t; found = q; rest = r; same = cc }

pub resolve-here :
    (root : Value) (tokens : List Text) {s : Slot}
    → resolve_mut root tokens ≡ some s
    → resolve root tokens ≡ some s.here
unfolding resolve resolve_mut
resolve-here root [] h = ground arith
resolve-here (arr items) (token ∷ tokens) h =
    let t = item_step items token tokens h in
    rw (t.read, t.found, resolve-here t.node tokens t.rest) (ap (λ (x : Slot). some x.here) t.same)
resolve-here (obj map) (token ∷ tokens) h =
    let t = field_step map token tokens h in
    rw (t.found, resolve-here t.node tokens t.rest) (ap (λ (x : Slot). some x.here) t.same)
resolve-here _ (token ∷ tokens) h = cc

-- Writing back what stands there changes nothing.
pub write_self :
    (root : Value) (tokens : List Text) {s : Slot}
    → resolve_mut root tokens ≡ some s
    → s.write s.here ≡ root
unfolding resolve_mut
write_self root [] h = subst (λ (x : Slot). x.write x.here ≡ root) (some-injective _ _ h) refl
write_self (arr items) (token ∷ tokens) h =
    let t = item_step items token tokens h in
    subst (λ (x : Slot). x.write x.here ≡ arr items) t.same
      (rw (write_self t.node tokens t.rest, set_item_self items t.index t.found))
write_self (obj map) (token ∷ tokens) h =
    let t = field_step map token tokens h in
    subst (λ (x : Slot). x.write x.here ≡ obj map) t.same
      (rw (write_self t.node tokens t.rest, set_field_self token t.node map t.found))
write_self _ (token ∷ tokens) h = cc

-- After a write the same tokens lead to the same place, which holds what was written.
pub resolve_mut-write :
    (root : Value) (tokens : List Text) (v : Value) {s : Slot}
    → resolve_mut root tokens ≡ some s
    → resolve_mut (s.write v) tokens ≡ some (record { here = v; write = s.write })
unfolding resolve_mut
resolve_mut-write root [] v h =
    subst (λ (x : Slot). resolve_mut (x.write v) [] ≡ some (record { here = v; write = x.write }))
      (some-injective _ _ h) refl
resolve_mut-write (arr items) (token ∷ tokens) v h =
    let t = item_step items token tokens h in
    subst
      (λ (x : Slot).
        resolve_mut (x.write v) (token ∷ tokens) ≡ some (record { here = v; write = x.write }))
      t.same
      (simp (
        count-set_item,
        t.read,
        item-set_item items t.index (t.inner.write v) t.found,
        resolve_mut-write t.node tokens v t.rest,
        set_item_twice,
      ))
resolve_mut-write (obj map) (token ∷ tokens) v h =
    let t = field_step map token tokens h in
    subst
      (λ (x : Slot).
        resolve_mut (x.write v) (token ∷ tokens) ≡ some (record { here = v; write = x.write }))
      t.same
      (simp (
        lookup-set_field token token (t.inner.write v) t.node map t.found,
        text_eq_refl,
        resolve_mut-write t.node tokens v t.rest,
        set_field_twice,
      ))
resolve_mut-write _ (token ∷ tokens) v h = cc

-- What was written is what `resolve` then finds.
pub resolve-write :
    (root : Value) (tokens : List Text) (v : Value) {s : Slot}
    → resolve_mut root tokens ≡ some s
    → resolve (s.write v) tokens ≡ some v
resolve-write root tokens v {s} h =
    resolve-here (s.write v) tokens (resolve_mut-write root tokens v h)

-- Where `resolve` finds a value, `resolve_mut` does.
pub resolve_mut-of_resolve :
    (root : Value) (tokens : List Text) {v : Value}
    → resolve root tokens ≡ some v
    → (s : Slot) × (resolve_mut root tokens ≡ some s)
unfolding resolve resolve_mut
resolve_mut-of_resolve root [] h = (record { here = root; write = λ w. w }, refl)
resolve_mut-of_resolve (arr items) (token ∷ tokens) h =
    let (i, p, h') = >>=-eq-some (to_option (array_index token (count items) false)) _ h in
    let (node, q, h'') = >>=-eq-some (item items i) _ h' in
    let (s, e) = resolve_mut-of_resolve node tokens h'' in
    (under (λ w. arr (set_item items i w)) s, rw (p, q, e))
resolve_mut-of_resolve (obj map) (token ∷ tokens) h =
    let (node, q, h') = >>=-eq-some (lookup token map) _ h in
    let (s, e) = resolve_mut-of_resolve node tokens h' in
    (under (λ w. obj (set_field token w map)) s, rw (q, e))
resolve_mut-of_resolve _ (token ∷ tokens) h = cc

-- A longer walk is a walk, and then another from where it ends.
pub resolve-append :
    (root : Value) (first later : List Text)
    → resolve root (first ++ later) ≡ (resolve root first >>= λ v. resolve v later)
unfolding resolve
resolve-append root [] later = refl
resolve-append (arr items) (token ∷ tokens) later =
    elim (Option-cases (to_option (array_index token (count items) false))) [
      | inl missed ↦ rw missed
      | inr (i, read) ↦ rw read (elim (Option-cases (item items i)) [
        | inl missed ↦ rw missed
        | inr (v, found) ↦ rw found (resolve-append v tokens later)
      ])
    ]
resolve-append (obj map) (token ∷ tokens) later = elim (Option-cases (lookup token map)) [
  | inl missed ↦ rw missed
  | inr (v, found) ↦ rw found (resolve-append v tokens later)
]
resolve-append _ (token ∷ tokens) later = refl

-- The slot of a longer walk is the slot of its end inside the slot of its beginning.
pub resolve_mut-append :
    (root : Value) (first later : List Text) {s t : Slot}
    → resolve_mut root first ≡ some s
    → resolve_mut s.here later ≡ some t
    → resolve_mut root (first ++ later) ≡ some (under s.write t)
unfolding resolve_mut
resolve_mut-append root [] later {t} h k =
    subst
      (λ (x : Slot).
        resolve_mut x.here later ≡ some t → resolve_mut root later ≡ some (under x.write t))
      (some-injective _ _ h) (λ e. e) k
resolve_mut-append (arr items) (token ∷ tokens) later {t} h k =
    let u = item_step items token tokens h in
    subst
      (λ (x : Slot).
        resolve_mut x.here later ≡ some t
        → resolve_mut (arr items) (token ∷ tokens ++ later) ≡ some (under x.write t))
      u.same (λ e. rw (u.read, u.found, resolve_mut-append u.node tokens later u.rest e)) k
resolve_mut-append (obj map) (token ∷ tokens) later {t} h k =
    let u = field_step map token tokens h in
    subst
      (λ (x : Slot).
        resolve_mut x.here later ≡ some t
        → resolve_mut (obj map) (token ∷ tokens ++ later) ≡ some (under x.write t))
      u.same (λ e. rw (u.found, resolve_mut-append u.node tokens later u.rest e)) k
resolve_mut-append _ (token ∷ tokens) later h k = cc
