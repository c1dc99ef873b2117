-- ===== src/JsonPatch/Edit/RoundTrip.antt =====
-- Adding, removing and moving in a whole document.
use mathlib.Core.Path.{subst}
use programmable_redfish_pro.Prelude.{
  ◌≡◌, refl, ap, ◌∙◌, Option, none, some, List, [], ◌∷◌, ◌++◌, Text, lit, text_eq, split_last,
  by_last, split_last-append, ok, ok_or, >>=-eq-ok, ok_or-eq-ok, ok_injective, err_ne_ok, false,
}
use programmable_redfish_pro.Json.{Value, IsOrdered}
use programmable_redfish_pro.JsonPatch.Pointer.{no_parent}
use programmable_redfish_pro.JsonPatch.Locate.{resolve, resolve_mut, Slot, under}
use programmable_redfish_pro.JsonPatch.Locate.Lens.{
  resolve-here, resolve-write, resolve_mut-write, write_self, resolve-append, resolve_mut-append,
}
use programmable_redfish_pro.JsonPatch.Locate.Ordered.{resolve-IsOrdered}
use programmable_redfish_pro.JsonPatch.Edit.{add_under, remove_under, patch_add, patch_remove}
use programmable_redfish_pro.JsonPatch.Edit.Under.{
  IsFreshIn, resolve-add_under, remove_under-add_under, add_under-remove_under,
}

-- The last token is not the `-` that names no place.
abbrev pub NamesPlace : List Text → Type 0
NamesPlace tokens = elim (split_last tokens) [
  | none ↦ Unit
  | some (parents, last) ↦ text_eq last (lit "-") ≡ false
]

abbrev pub FreshUnder : Option Value → Text → Type 0
FreshUnder none last = Unit
FreshUnder (some parent) last = IsFreshIn parent last

-- No member of an object stands at the tokens yet.
abbrev pub IsFresh : Value → List Text → Type 0
IsFresh root tokens = elim (split_last tokens) [
  | none ↦ ⊥
  | some (parents, last) ↦ FreshUnder (resolve root parents) last
]

pub record AddAt (root : Value) (parents : List Text) (last : Text) (value after : Value)
    : Type 0 where
  pub slot : Slot
  pub parent : Value
  pub found : resolve_mut root parents ≡ some slot
  pub added : add_under slot.here last value ≡ ok parent
  pub same : slot.write parent ≡ after

pub add_at :
    (root : Value) (parents : List Text) (last : Text) (value : Value) {after : Value}
    → patch_add root (parents ++ last ∷ []) value ≡ ok after
    → AddAt root parents last value after
unfolding patch_add
add_at root parents last value h =
    let (slot, found, h') =
      >>=-eq-ok (ok_or no_parent (resolve_mut root parents)) _
        (rw (split_last-append parents last, patch_add) at h) in
    let (parent, added, h'') = >>=-eq-ok (add_under slot.here last value) _ h' in
    record {
      slot = slot;
      parent = parent;
      found = ok_or-eq-ok no_parent (resolve_mut root parents) found;
      added = added;
      same = ok_injective h'';
    }

pub record TakeAt (root : Value) (parents : List Text) (last : Text) (taken after : Value)
    : Type 0 where
  pub slot : Slot
  pub parent : Value
  pub found : resolve_mut root parents ≡ some slot
  pub removed : remove_under slot.here last ≡ ok (taken, parent)
  pub same : slot.write parent ≡ after

pub take_at :
    (root : Value) (parents : List Text) (last : Text) {taken after : Value}
    → patch_remove root (parents ++ last ∷ []) ≡ ok (taken, after)
    → TakeAt root parents last taken after
unfolding patch_remove
take_at root parents last h =
    let (slot, found, h') =
      >>=-eq-ok (ok_or no_parent (resolve_mut root parents)) _
        (rw (split_last-append parents last, patch_remove) at h) in
    let (r, removed, h'') = >>=-eq-ok (remove_under slot.here last) _ h' in
    record {
      slot = slot;
      parent = r.1;
      found = ok_or-eq-ok no_parent (resolve_mut root parents) found;
      removed =
          removed
          ∙ ap (λ (t : Value). ok (t, r.1)) (ap (λ (p : Value × Value). p.0) (ok_injective h''));
      same = ap (λ (p : Value × Value). p.1) (ok_injective h'');
    }

named_last :
    (parents : List Text) (last : Text)
    → NamesPlace (parents ++ last ∷ [])
    → text_eq last (lit "-") ≡ false
named_last parents last h = rw (split_last-append parents last, NamesPlace) at h

fresh_last :
    (root : Value) (parents : List Text) (last : Text)
    → IsFresh root (parents ++ last ∷ [])
    → (parent : Value) → resolve root parents ≡ some parent
    → IsFreshIn parent last
fresh_last root parents last h parent found =
    let under = rw (split_last-append parents last, IsFresh) at h in rw found at under

pub whole_add :
    (root value : Value) {after : Value} → patch_add root [] value ≡ ok after → value ≡ after
unfolding patch_add
whole_add root value h = ok_injective h

pub whole_remove :
    (root : Value) {taken after : Value} → patch_remove root [] ≡ ok (taken, after) → ⊥
unfolding patch_remove
whole_remove root h = err_ne_ok h

-- The same steps, run forwards.
pub add_from :
    (root : Value) (parents : List Text) (last : Text) (value : Value) {s : Slot} {parent : Value}
    → resolve_mut root parents ≡ some s
    → add_under s.here last value ≡ ok parent
    → patch_add root (parents ++ last ∷ []) value ≡ ok (s.write parent)
unfolding patch_add
add_from root parents last value found added =
    rw (patch_add, split_last-append parents last, found, added) refl

pub take_from :
    (root : Value) (parents : List Text) (last : Text) {s : Slot} {taken parent : Value}
    → resolve_mut root parents ≡ some s
    → remove_under s.here last ≡ ok (taken, parent)
    → patch_remove root (parents ++ last ∷ []) ≡ ok (taken, s.write parent)
unfolding patch_remove
take_from root parents last found removed =
    rw (patch_remove, split_last-append parents last, found, removed) refl

-- The value that a successful `add` put down is found at its path, which does not end in `-`.
pub resolve-patch_add :
    (root : Value) (path : List Text) (value : Value) {after : Value}
    → NamesPlace path
    → patch_add root path value ≡ ok after
    → resolve after path ≡ some value
resolve-patch_add root path value {after} =
    by_last (λ p. NamesPlace p → patch_add root p value ≡ ok after → resolve after p ≡ some value)
      (λ named h. rw (whole_add root value h) (unfold resolve in refl))
      (λ parents last named h.
        let t = add_at root parents last value h in
        let placed =
          resolve-add_under t.slot.here last value (named_last parents last named) t.added in
        rw
          (
            resolve-append after parents (last ∷ []),
            ← t.same,
            resolve-write root parents t.parent t.found,
          )
          placed)
      path

-- Removing at the path of a successful `add` gives the value back, and the document as it was, where
-- the path does not end in `-` and names no member that was there.
pub patch_remove-patch_add :
    (root : Value) (path : List Text) (value : Value) {after : Value}
    → NamesPlace path
    → IsFresh root path
    → patch_add root path value ≡ ok after
    → patch_remove after path ≡ ok (value, root)
unfolding patch_remove
patch_remove-patch_add root path value {after} =
    by_last
      (λ p.
        NamesPlace p
        → IsFresh root p
        → patch_add root p value ≡ ok after
        → patch_remove after p ≡ ok (value, root))
      (λ named fresh h. absurd fresh)
      (λ parents last named fresh h.
        let t = add_at root parents last value h in
        let back =
          remove_under-add_under t.slot.here last value (named_last parents last named)
            (fresh_last root parents last fresh t.slot.here (resolve-here root parents t.found))
            t.added in
        subst (λ (v : Value). patch_remove v (parents ++ last ∷ []) ≡ ok (value, root)) t.same
          (take_from (t.slot.write t.parent) parents last
              (resolve_mut-write root parents t.parent t.found) back
            ∙ ap (λ (v : Value). ok (value, v)) (write_self root parents t.found)))
      path

-- Where a value can be removed from a document whose keys are in order, adding a value at the same
-- path afterwards writes it in the place of the one removed.
pub patch_add-patch_remove :
    (root : Value) (path : List Text) (value : Value) {taken after : Value}
    → IsOrdered root
    → patch_remove root path ≡ ok (taken, after)
    → (s : Slot) × (resolve_mut root path ≡ some s)
      × (s.here ≡ taken)
      × (patch_add after path value ≡ ok (s.write value))
unfolding patch_add
patch_add-patch_remove root path value {taken} {after} ordered =
    by_last
      (λ p.
        patch_remove root p ≡ ok (taken, after)
        → (s : Slot) × (resolve_mut root p ≡ some s)
          × (s.here ≡ taken)
          × (patch_add after p value ≡ ok (s.write value)))
      (λ h. absurd (whole_remove root h))
      (λ parents last h.
        let t = take_at root parents last h in
        let here = resolve-here root parents t.found in
        let (s, found, same, added) =
          add_under-remove_under t.slot.here last value
            (resolve-IsOrdered root parents ordered here) t.removed in
        (
          under t.slot.write s,
          resolve_mut-append root parents (last ∷ []) t.found found,
          same,
          subst
              (λ (v : Value).
                patch_add v (parents ++ last ∷ []) value ≡ ok (t.slot.write (s.write value)))
              t.same
              (add_from (t.slot.write t.parent) parents last value
                (resolve_mut-write root parents t.parent t.found) added),
        ))
      path
