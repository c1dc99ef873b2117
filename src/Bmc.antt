-- ===== src/Bmc.antt =====
-- What a script may ask of the BMC: the checks and helpers of src/script_bmc.rs, and how it finds
-- the ids of the system and the manager.
pub mod Segment
pub mod Once
pub mod Listed
pub mod Expand
pub mod Context
pub mod Request
pub mod Send
pub mod Forward
use programmable_redfish_pro.Prelude.{
  ℕ, Bool, true, false, ◌&&◌, not, Option, none, some, List, [], ◌∷◌, ◌++◌, Text, lit, text_eq,
  is_empty, starts_with, if◌then◌else◌, Result, ok, err, ok_or, map_err,
}
use programmable_redfish_pro.Json.{Value, null, str, arr, obj, Items, nil, cons, lookup}
use programmable_redfish_pro.Http.{eq_ignore_ascii_case, is_redacted, is_hop_by_hop}
use programmable_redfish_pro.Http.Swap.{trim_end_slashes}
use programmable_redfish_pro.Http.Rewrite.{rsplit_once}

pub data BmcError : Type 0 where
  not_absolute not_a_link : Text → BmcError
  request_failed : Text → BmcError
  no_systems no_managers : BmcError

unfoldable pub require_absolute : Text → Result BmcError Unit
unfolding lit starts_with
require_absolute path =
    if starts_with (lit "/") path && not (starts_with (lit "//") path)
    then ok tt
    else err (not_absolute path)

unfoldable pub script_may_set : Text → Bool
unfolding is_redacted is_hop_by_hop lit
script_may_set name =
    not (is_redacted name)
    && not (is_hop_by_hop name)
    && not (eq_ignore_ascii_case name (lit "host"))
    && not (eq_ignore_ascii_case name (lit "content-length"))

-- `rsplit('/').next()`: what stands after the last slash.
unfoldable pub after_last_slash : Text → Text
unfolding rsplit_once
after_last_slash s = elim (rsplit_once b'/' s) [ some (front, back) ↦ back | none ↦ s ]

abbrev pub filter_non_empty : Text → Option Text
filter_non_empty [] = none
filter_non_empty (x ∷ s) = some (x ∷ s)

unfoldable pub last_segment : Text → Option Text
unfolding after_last_slash trim_end_slashes
last_segment id = filter_non_empty (after_last_slash (trim_end_slashes id))

-- `Url::parse` and `Url::path` of a crate: the path of a text that is an absolute URL.
unfoldable pub member_path : (parse_url : Text → Option Text) → Text → Result BmcError Text
unfolding lit starts_with
member_path parse_url id = elim (parse_url id) [
  | some path ↦ ok path
  | none ↦ if starts_with (lit "/") id then ok id else err (not_a_link id)
]

-- `value[key]`, which is null where there is no such key.
unfoldable pub index : Value → Text → Value
index (obj map) key = elim (lookup key map) [ some v ↦ v | none ↦ null ]
index _ key = null

-- `as_str().and_then(last_segment)`
unfoldable pub segment_of : Value → Option Text
unfolding last_segment
segment_of (str id) = last_segment id
segment_of _ = none

-- The `filter_map` over the members.
unfoldable pub ids_of : Items → List Text
unfolding segment_of index lit
ids_of nil = []
ids_of (cons member members) =
    let rest = ids_of members in
    elim (segment_of (index member (lit "@odata.id"))) [ some id ↦ id ∷ rest | none ↦ rest ]

abbrev pub members_of : Value → Items
members_of (arr members) = members
members_of _ = nil

unfoldable pub member_ids : Value → List Text
unfolding ids_of index lit
member_ids collection = ids_of (members_of (index collection (lit "Members")))

-- The BMC: what `get_json` answers, and the state it leaves the BMC in.
pub record Upstream : Type 1 where
  pub World : Type 0
  pub get_json : Text → World → Result Text Value × World

pub record Ids : Type 0 where
  pub system : Text
  pub manager : Text

-- `find(== "System_0")`, or the first.
unfoldable pub find_id : Text → List Text → Option Text
find_id wanted [] = none
find_id wanted (id ∷ ids) = if text_eq id wanted then some id else find_id wanted ids

abbrev pub first_of : List Text → Option Text
first_of [] = none
first_of (id ∷ ids) = some id

unfoldable pub preferred_of : List Text → Option Text
unfolding find_id lit
preferred_of systems = elim (find_id (lit "System_0") systems) [
  | some id ↦ some id
  | none ↦ first_of systems
]

unfoldable pub others : Text → List Text → List Text
others preferred [] = []
others preferred (id ∷ ids) =
    let rest = others preferred ids in if text_eq id preferred then rest else id ∷ rest

abbrev pub has_key : Text → Value → Bool
has_key key (obj map) = elim (lookup key map) [ some v ↦ true | none ↦ false ]
has_key key _ = false

abbrev pub first_item : Value → Option Value
first_item (arr (cons v vs)) = some v
first_item _ = none

-- The manager that a system names.
unfoldable pub managed_by : Value → Option Text
unfolding index segment_of lit
managed_by system = elim (first_item (index (index system (lit "Links")) (lit "ManagedBy"))) [
  | some first ↦ segment_of (index first (lit "@odata.id"))
  | none ↦ none
]

abbrev pub manager_named : Option (Text × Value) → Option Text
manager_named none = none
manager_named (some (id, system)) = managed_by system

abbrev pub system_chosen : Text → Option (Text × Value) → Text
system_chosen preferred none = preferred
system_chosen preferred (some (id, system)) = id

module _ (upstream : Upstream) where
  open upstream use {World, get_json}

  -- The loop over the candidates, which stops at the first system that has a `Bios`.
  unfoldable pub find_bios : List Text → World → Option (Text × Value) × World
  unfolding lit
  find_bios [] w = (none, w)
  find_bios (id ∷ ids) w =
      let (answer, w') = get_json (lit "/redfish/v1/Systems/" ++ id) w in
      let rest = find_bios ids w' in
      elim answer [
        | ok system ↦ if has_key (lit "Bios") system then (some (id, system), w') else rest
        | err e ↦ rest
      ]

  unfoldable pub find_manager : Option (Text × Value) → World → Result BmcError Text × World
  unfolding member_ids lit
  find_manager found w = elim (manager_named found) [
    | some manager ↦ (ok manager, w)
    | none ↦
        let (answer, w') = get_json (lit "/redfish/v1/Managers") w in
        elim answer [
          | ok managers ↦ (ok_or no_managers (first_of (member_ids managers)), w')
          | err e ↦ (err (request_failed e), w')
        ]
  ]

  -- The requests that are made where nothing is cached, from the ids of the systems.
  unfoldable pub choose_ids : List Text → World → Result BmcError Ids × World
  unfolding find_bios find_manager preferred_of others
  choose_ids systems w = elim (preferred_of systems) [
    | none ↦ (err no_systems, w)
    | some preferred ↦
        let (found, w1) = find_bios (preferred ∷ others preferred systems) w in
        let (manager, w2) = find_manager found w1 in
        elim manager [
          | ok m ↦ (ok (record { system = system_chosen preferred found; manager = m }), w2)
          | err e ↦ (err e, w2)
        ]
  ]

  unfoldable pub fetch_ids : World → Result BmcError Ids × World
  unfolding choose_ids member_ids lit
  fetch_ids w =
      let (answer, w') = get_json (lit "/redfish/v1/Systems") w in
      elim answer [
        | ok systems ↦ choose_ids (member_ids systems) w'
        | err e ↦ (err (request_failed e), w')
      ]

  abbrev pub cached : Result BmcError Ids → Option Ids
  cached (ok ids) = some ids
  cached (err e) = none

  -- `resolve_ids`, with the cache of the request and what it is afterwards.
  unfoldable pub resolve_ids : Option Ids → World → Result BmcError Ids × (Option Ids × World)
  unfolding fetch_ids
  resolve_ids (some ids) w = (ok ids, (some ids, w))
  resolve_ids none w = let (answer, w') = fetch_ids w in (answer, (cached answer, w'))
