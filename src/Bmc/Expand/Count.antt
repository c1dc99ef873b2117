-- ===== src/Bmc/Expand/Count.antt =====
-- How many members an expanded collection has.
use programmable_redfish_pro.Prelude.{
  ◌≡◌, refl, sym, ap, ◌∙◌, Bool-cases, Option-cases, Result-cases, inl, inr, Option, Text, lit,
  text_eq_refl, arith, Result, ok, err, map_ok, err_ne_ok, ok_injective,
}
use programmable_redfish_pro.Json.{
  Value, arr, obj, Fields, Items, nil, cons, count, insert, lookup-insert,
}
use programmable_redfish_pro.Bmc.{Upstream, index, member_path, members_of}
use programmable_redfish_pro.Bmc.Expand.{
  ExpandError, as_str, all_expanded, set_members, fetch_members, expand_answer,
}

map_ok-cons :
    (r : Result ExpandError Items) (v : Value) {vs : Items}
    → map_ok (cons v) r ≡ ok vs
    → (ws : Items) × (r ≡ ok ws) × (cons v ws ≡ vs)
map_ok-cons (ok ws) v h = (ws, refl, ok_injective h)
map_ok-cons (err e) v h = absurd (err_ne_ok h)

index-insert : (k : Text) (v : Value) (fs : Fields) → index (obj (insert k v fs)) k ≡ v
unfolding index
index-insert k v fs = rw (index, lookup-insert, text_eq_refl k) refl

module _ (upstream : Upstream) (parse_url : Text → Option Text) where
  open upstream use {World, get_json}

  count-fetch_members :
      (members : Items) (w : World) {vs : Items}
      → (fetch_members upstream parse_url members w).0 ≡ ok vs
      → count vs ≡ count members
  unfolding fetch_members
  count-fetch_members nil w h = sym (ap (λ (l : Items). count l) (ok_injective h))
  count-fetch_members (cons member members) w h =
      elim (Option-cases (as_str (index member (lit "@odata.id")))) [
        | inl missed ↦ absurd (err_ne_ok (rw (fetch_members, missed) at h))
        | inr (id, link) ↦ elim (Result-cases (member_path parse_url id)) [
          | inr (e, failed) ↦ absurd (err_ne_ok (rw (fetch_members, link, failed) at h))
          | inl (path, good) ↦ elim (Result-cases (get_json path w).0) [
            | inr (e, failed) ↦ absurd (err_ne_ok (rw (fetch_members, link, good, failed) at h))
            | inl (v, read) ↦
                let rest = fetch_members upstream parse_url members (get_json path w).1 in
                let (ws, more, whole) =
                  map_ok-cons rest.0 v (rw (fetch_members, link, good, read) at h) in
                let same = count-fetch_members members (get_json path w).1 more in
                sym (ap (λ (l : Items). count l) whole) ∙ omega (arith, same)
          ]
        ]
      ]

  set_members-count :
      (collection : Value) (vs : Items) {after : Value}
      → set_members collection vs ≡ ok after
      → count (members_of (index after (lit "Members"))) ≡ count vs
  unfolding set_members index
  set_members-count (obj fs) vs h =
      sym (ap (λ (v : Value). count (members_of (index v (lit "Members")))) (ok_injective h))
      ∙ ap (λ (v : Value). count (members_of v)) (index-insert (lit "Members") (arr vs) fs)
  set_members-count _ vs h = absurd (err_ne_ok h)

  -- A collection that is expanded has as many members as the one that the BMC answered, whatever it
  -- answers for each of them.
  pub count-expand_answer :
      (collection : Value) (w : World) (after : Value)
      → (expand_answer upstream parse_url collection w).0 ≡ ok after
      → count (members_of (index after (lit "Members")))
        ≡ count (members_of (index collection (lit "Members")))
  unfolding expand_answer
  count-expand_answer collection w after h =
      let members = members_of (index collection (lit "Members")) in
      elim (Bool-cases (all_expanded members)) [
        | inl already ↦
            let same = ok_injective (rw (expand_answer, already) at h) in
            ap (λ (v : Value). count (members_of (index v (lit "Members")))) (sym same)
        | inr shallow ↦ elim (Result-cases (fetch_members upstream parse_url members w).0) [
          | inr (e, failed) ↦ absurd (err_ne_ok (rw (expand_answer, shallow, failed) at h))
          | inl (vs, fetched) ↦
              set_members-count collection vs (rw (expand_answer, shallow, fetched) at h)
              ∙ count-fetch_members members w fetched
        ]
      ]
