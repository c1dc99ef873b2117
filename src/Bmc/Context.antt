-- ===== src/Bmc/Context.antt =====
-- What a handler's calls of the BMC read: the `RequestCtx` of src/rune_host.rs with its
-- `relay_headers`, and the HTTP client, which is a crate.
use programmable_redfish_pro.Http.Address.{SocketAddrV4}
use programmable_redfish_pro.Prelude.{ℕ, Option, none, some, List, [], ◌∷◌, Text, lit, Bool, Result}
use programmable_redfish_pro.Http.Headers.{HeaderMaps}
use programmable_redfish_pro.Http.Headers.Copied.{append_all}

abbrev pub relayed : List Text
unfolding lit
relayed = lit "authorization" ∷ lit "x-auth-token" ∷ lit "odata-version" ∷ []

pub record SendError : Type 0 where
  pub is_timeout : Bool
  pub message : Text

module _ (http : HeaderMaps) where
  open http use {HeaderMap, HeaderValue, from_bytes, get_all, new}

  -- `http::request::Parts`
  pub record Parts : Type 0 where
    pub method : Text
    pub path : Text
    pub query : Option Text
    pub headers : HeaderMap

  pub record RequestCtx : Type 0 where
    pub target : SocketAddrV4
    pub base : Text
    pub relay_headers : HeaderMap
    pub parts : Parts
    pub body : Text

  unfoldable pub relay_names : List Text → HeaderMap → HeaderMap → HeaderMap
  unfolding append_all
  relay_names [] headers out = out
  relay_names (name ∷ names) headers out = relay_names names headers (elim (from_bytes name) [
    | some n ↦ append_all http n (get_all headers name) out
    | none ↦ out
  ])

  unfoldable pub relay_headers : HeaderMap → HeaderMap
  unfolding relay_names
  relay_headers headers = relay_names relayed headers new

  -- The context that `execute` makes of a request.
  unfoldable pub context :
      (target : SocketAddrV4) → (base : Text) → Parts → (body : Text) → RequestCtx
  unfolding relay_headers
  context target base parts body = record {
    target = target;
    base = base;
    relay_headers = relay_headers parts.headers;
    parts = parts;
    body = body;
  }

  -- A request as it is given to `reqwest`.
  pub record Outbound : Type 0 where
    pub method : Text
    pub url : Text
    pub headers : HeaderMap
    pub body : Option Text

  pub record Reply (Stream : Type 0) : Type 0 where
    pub status : ℕ
    pub headers : HeaderMap
    pub body : Stream

  -- `send` of a request, and `bytes` of a response: the world that they leave is what has become of
  -- the BMC and the network.
  pub record Client : Type 1 where
    pub World : Type 0
    pub Stream : Type 0
    pub parse_method : Text → Option Text
    pub send : Outbound → World → Result SendError (Reply Stream) × World
    pub bytes : Stream → World → Result Text Text × World
