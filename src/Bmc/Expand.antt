-- ===== src/Bmc/Expand.antt =====
-- `expand_collection` and `expand_or_empty` of src/script_bmc.rs, up to the conversion of the result
-- to a script's value.
pub mod Count
use programmable_redfish_pro.Prelude.{
  ℕ, Bool, true, false, ◌&&◌, ◌||◌, not, Option, none, some, List, [], ◌∷◌, ◌++◌, Text, lit,
  starts_with, any, ◌==◌, if◌then◌else◌, Result, ok, err, map_ok,
}
use programmable_redfish_pro.Json.{
  Value, str, arr, obj, Items, nil, cons, Fields, end, field, insert,
}
use programmable_redfish_pro.DeepPath.{empty_collection_json}
use programmable_redfish_pro.Bmc.{
  BmcError, Upstream, require_absolute, member_path, index, members_of,
}

-- What an expansion fails with, besides the errors of the helpers; writing a key into what is no
-- object panics.
pub data ExpandError : Type 0 where
  refused : BmcError → ExpandError
  no_id panicked : ExpandError
  not_answered : Text → ExpandError

-- The query that asks for the members, after what separates it from the path.
unfoldable pub expand_path : Text → Text
unfolding lit
expand_path path =
    path ++ ((if any (λ b. b == b'?') path then b'&' else b'?') ∷ lit "$expand=.($levels=1)")

-- A member that has a key which does not begin with `@odata.`.
unfoldable pub has_content : Fields → Bool
unfolding lit starts_with
has_content end = false
has_content (field key v fs) = not (starts_with (lit "@odata.") key) || has_content fs

unfoldable pub is_expanded : Value → Bool
unfolding has_content
is_expanded (obj fs) = has_content fs
is_expanded _ = false

unfoldable pub all_expanded : Items → Bool
unfolding is_expanded
all_expanded nil = true
all_expanded (cons member members) = is_expanded member && all_expanded members

abbrev pub as_str : Value → Option Text
as_str (str s) = some s
as_str _ = none

-- `collection["Members"] = ..`
unfoldable pub set_members : Value → Items → Result ExpandError Value
unfolding lit insert
set_members (obj fs) members = ok (obj (insert (lit "Members") (arr members) fs))
set_members _ members = err panicked

module _ (upstream : Upstream) (parse_url : Text → Option Text) where
  open upstream use {World, get_json}

  -- The loop that fetches each member.
  unfoldable pub fetch_members : Items → World → Result ExpandError Items × World
  unfolding index member_path lit
  fetch_members nil w = (ok nil, w)
  fetch_members (cons member members) w = elim (as_str (index member (lit "@odata.id"))) [
    | none ↦ (err no_id, w)
    | some id ↦ elim (member_path parse_url id) [
      | err e ↦ (err (refused e), w)
      | ok path ↦
          let (answer, w1) = get_json path w in
          let (rest, w2) = fetch_members members w1 in
          elim answer [ err e ↦ (err (not_answered e), w1) | ok v ↦ (map_ok (cons v) rest, w2) ]
    ]
  ]

  -- What is done with the collection that the BMC answered.
  unfoldable pub expand_answer : Value → World → Result ExpandError Value × World
  unfolding fetch_members all_expanded set_members index lit
  expand_answer collection w =
      let members = members_of (index collection (lit "Members")) in
      if all_expanded members
      then (ok collection, w)
      else (let (expanded, w') = fetch_members members w in
          elim expanded [ ok vs ↦ (set_members collection vs, w') | err e ↦ (err e, w') ])

  unfoldable pub expand_collection : Text → World → Result ExpandError Value × World
  unfolding expand_answer expand_path require_absolute
  expand_collection path w = elim (require_absolute path) [
    | err e ↦ (err (refused e), w)
    | ok u ↦
        let (answer, w') = get_json (expand_path path) w in
        elim answer [
          | err e ↦ (err (not_answered e), w')
          | ok collection ↦ expand_answer collection w'
        ]
  ]

  unfoldable pub expand_or_empty : Text → Text → World → Value × World
  unfolding expand_collection empty_collection_json
  expand_or_empty path name w =
      let (result, w') = expand_collection path w in
      elim result [
        | ok collection ↦ (collection, w')
        | err e ↦ (empty_collection_json path name, w')
      ]
