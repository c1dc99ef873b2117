-- ===== src/Http/Rewrite/Shown.antt =====
-- What it means that a document shows a URL of the target, whatever src/http.rs does with it, and that
-- a document in which its walk finds none shows none.
use programmable_redfish_pro.Prelude.{
  ◌≢◌, ◌≡◌, refl, sym, ◌∙◌, Bool, true, false, ◌&&◌, not, [], ◌++◌, Text, all, arith,
}
use programmable_redfish_pro.Http.Address.{SocketAddrV4}
use programmable_redfish_pro.Http.Address.Printed.{Names, is_target-Names, all-Names}
use programmable_redfish_pro.Http.Url.{is_scheme, is_ended}
use programmable_redfish_pro.Http.Swap.Scan.Runs.{is_ended-stops}
use programmable_redfish_pro.Http.Swap.Scan.Occurs.{Before, IsUrl, all-authorities}
use programmable_redfish_pro.Json.{
  Value, null, bool, num, str, arr, obj, Items, nil, cons, Fields, end, field,
}
use programmable_redfish_pro.DeepPath.{contains_text}
use programmable_redfish_pro.Http.Swap.{sep}
use programmable_redfish_pro.Http.Swap.Scan.{authorities, authorities_from}
use programmable_redfish_pro.Http.Rewrite.Values.{find_sep-plain}
use programmable_redfish_pro.Http.Rewrite.{is_target}

pub authorities-plain : (s : Text) → contains_text sep s ≡ false → authorities s ≡ []
unfolding authorities authorities_from
authorities-plain s h = rw (authorities_from, find_sep-plain s h) refl

-- No URL of the text has the target's authority.
unfoldable pub hides_text : (target : SocketAddrV4) → (text : Text) → Bool
unfolding authorities is_target
hides_text target text = all (λ a. not (is_target a target)) (authorities text)

-- No string of the document has such a URL, keys left aside.
unfoldable mutual
  unfolding hides_text

  pub hides : (target : SocketAddrV4) → Value → Bool
  hides target (str s) = hides_text target s
  hides target (arr items) = hides_items target items
  hides target (obj fields) = hides_fields target fields
  hides target value = true

  pub hides_items : (target : SocketAddrV4) → Items → Bool
  hides_items target nil = true
  hides_items target (cons v vs) = hides target v && hides_items target vs

  pub hides_fields : (target : SocketAddrV4) → Fields → Bool
  hides_fields target end = true
  hides_fields target (field key v fs) = hides target v && hides_fields target fs

-- `Exposes target text`: a URL of the target stands in the text, at its start or after a front before
-- which no other reading of the text can run into it.
pub data Exposes (target : SocketAddrV4) : Text → Type 0 where
  exposed :
      (front scheme authority rest : Text)
      → Before front
      → is_scheme scheme ≡ true
      → Names target authority
      → is_ended rest ≡ true
      → Exposes target (front ++ (scheme ++ (sep ++ (authority ++ rest))))

-- A string of the document does.
mutual
  pub data Shown (target : SocketAddrV4) : Value → Type 0 where
    in_text : {s : Text} → Exposes target s → Shown target (str s)
    in_items : {vs : Items} → ShownItems target vs → Shown target (arr vs)
    in_fields : {fs : Fields} → ShownFields target fs → Shown target (obj fs)

  pub data ShownItems (target : SocketAddrV4) : Items → Type 0 where
    this_item : {v : Value} {vs : Items} → Shown target v → ShownItems target (cons v vs)
    other_item : {v : Value} {vs : Items} → ShownItems target vs → ShownItems target (cons v vs)

  pub data ShownFields (target : SocketAddrV4) : Fields → Type 0 where
    this_field :
        {key : Text} {v : Value} {fs : Fields}
        → Shown target v
        → ShownFields target (field key v fs)
    other_field :
        {key : Text} {v : Value} {fs : Fields}
        → ShownFields target fs
        → ShownFields target (field key v fs)

true_ne_false : true ≢ false
true_ne_false h = cc

hides_text-Exposes :
    (target : SocketAddrV4) {text : Text} → hides_text target text ≡ true → ¬ Exposes target text
unfolding hides_text
hides_text-Exposes target h (exposed front scheme authority rest before s names ended) =
    let url : IsUrl scheme authority rest = record {
      scheme_whole = s;
      inside = all-Names target authority names;
      ended = sym (is_ended-stops rest) ∙ ended;
    } in
    let apart = all-authorities (λ a. not (is_target a target)) url front before h in
    let same = is_target-Names target authority names in true_ne_false (sym (rw same at apart))

mutual
  unfolding hides

  pub hides-Shown : (target : SocketAddrV4) (w : Value) → hides target w ≡ true → ¬ Shown target w
  hides-Shown target null h e = elim e [ ]
  hides-Shown target (bool b) h e = elim e [ ]
  hides-Shown target (num n) h e = elim e [ ]
  hides-Shown target (str s) h (in_text e) = hides_text-Exposes target h e
  hides-Shown target (arr vs) h (in_items e) = hides_items-ShownItems target vs h e
  hides-Shown target (obj fs) h (in_fields e) = hides_fields-ShownFields target fs h e

  hides_items-ShownItems :
      (target : SocketAddrV4) (vs : Items) → hides_items target vs ≡ true → ¬ ShownItems target vs
  hides_items-ShownItems target nil h e = elim e [ ]
  hides_items-ShownItems target (cons v vs) h (this_item e) =
      let one : hides target v ≡ true = ground (arith, h) in hides-Shown target v one e
  hides_items-ShownItems target (cons v vs) h (other_item e) =
      let more : hides_items target vs ≡ true = ground (arith, h) in
      hides_items-ShownItems target vs more e

  hides_fields-ShownFields :
      (target : SocketAddrV4) (fs : Fields)
      → hides_fields target fs ≡ true
      → ¬ ShownFields target fs
  hides_fields-ShownFields target end h e = elim e [ ]
  hides_fields-ShownFields target (field key v fs) h (this_field e) =
      let one : hides target v ≡ true = ground (arith, h) in hides-Shown target v one e
  hides_fields-ShownFields target (field key v fs) h (other_field e) =
      let more : hides_fields target fs ≡ true = ground (arith, h) in
      hides_fields-ShownFields target fs more e
