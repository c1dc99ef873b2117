-- ===== src/Http/Address/Printed.antt =====
-- What stands in the text of an address, and that `is_target` of src/http.rs knows it again.
use Prim.Native.Nat.{◌/◌, ◌%◌}
use native.Mathlib.Nat.{mod-lt, zero-lt-suc}
use programmable_redfish_pro.Prelude.{
  ℕ, zero, suc, ◌+◌, ◌<◌, ◌≡◌, ◌≢◌, refl, ◌∙◌, Bool, true, false, ◌||◌, not, Bool-cases, inl, inr,
  none, [], ◌∷◌, ◌++◌, Text, ltb, all, is_ascii_digit, ◌==◌, text_eq_iff, arith,
}
use programmable_redfish_pro.DeepPath.{to_ascii_lowercase}
use programmable_redfish_pro.Http.{eq_ignore_ascii_case}
use programmable_redfish_pro.Http.Address.{SocketAddrV4, Ipv4Addr, digits, decimal, ip_text}
use programmable_redfish_pro.Http.Swap.{is_delimiter}
use programmable_redfish_pro.Http.Rewrite.{rsplit_once, host_of, is_target}
use programmable_redfish_pro.Http.Rewrite.Target.{is_target-port}

-- `Names target authority`: the authority is the target's address, with or without a port.
pub data Names (target : SocketAddrV4) : Text → Type 0 where
  address : Names target (ip_text target.ip)
  at_port :
      (port : Text)
      → port ≢ []
      → all is_ascii_digit port ≡ true
      → Names target (ip_text target.ip ++ b':' ∷ port)

abbrev pub is_address_byte : ℕ → Bool
is_address_byte b = is_ascii_digit b || b == b'.'

all-append : (p : ℕ → Bool) (s t : Text) → all p s ≡ true → all p t ≡ true → all p (s ++ t) ≡ true
all-append p [] t h k = k
all-append p (x ∷ s) t h k = ground (arith, all-append p s t)

digit_lem : (n : ℕ) → n < 10 → is_address_byte (b'0' + n) ≡ true
digit_lem n h = ground (arith, h)

all-digits : (fuel n : ℕ) → all is_address_byte (digits fuel n) ≡ true
unfolding digits
all-digits zero n = refl
all-digits (suc fuel) n = elim (Bool-cases (ltb n 10)) [
  | inl small ↦
      let less : n < 10 = ground (arith, small) in rw (digits, small, digit_lem n less) refl
  | inr large ↦
      let last = digit_lem (n % 10) (mod-lt n (zero-lt-suc 9)) in
      let one : all is_address_byte ((b'0' + n % 10) ∷ []) ≡ true = rw last refl in
      rw (digits, large)
        (all-append is_address_byte (digits fuel (n / 10)) ((b'0' + n % 10) ∷ [])
          (all-digits fuel (n / 10)) one)
]

-- The text of an address is digits and dots.
pub all-ip_text : (ip : Ipv4Addr) → all is_address_byte (ip_text ip) ≡ true
unfolding ip_text decimal
all-ip_text ip =
    let join = λ (n : ℕ) (t : Text) (h : all is_address_byte t ≡ true).
      all-append is_address_byte (decimal n) (b'.' ∷ t) (all-digits 5 n) h in
    join ip.first _ (join ip.second _ (join ip.third _ (all-digits 5 ip.fourth)))

rsplit_once-address : (s : Text) → all is_address_byte s ≡ true → rsplit_once b':' s ≡ none
unfolding rsplit_once
rsplit_once-address [] h = refl
rsplit_once-address (x ∷ s) h =
    let rest : all is_address_byte s ≡ true = ground arith in
    let apart : (x == b':') ≡ false = ground arith in rw (rsplit_once-address s rest, apart) refl

same_text : (s : Text) → eq_ignore_ascii_case s s ≡ true
same_text s = (text_eq_iff (to_ascii_lowercase s) (to_ascii_lowercase s)).1 refl

-- Every authority that names the target is taken for the target.
pub is_target-Names :
    (target : SocketAddrV4) (authority : Text)
    → Names target authority
    → is_target authority target ≡ true
unfolding is_target host_of
is_target-Names target authority address =
    rw (is_target, host_of, rsplit_once-address (ip_text target.ip) (all-ip_text target.ip))
      (same_text (ip_text target.ip))
is_target-Names target authority (at_port port some_port digits') =
    is_target-port (ip_text target.ip) port target some_port digits' ∙ same_text (ip_text target.ip)

all-inside : (s : Text) → all is_address_byte s ≡ true → all (λ b. not (is_delimiter b)) s ≡ true
all-inside [] h = refl
all-inside (x ∷ s) h =
    let one : is_address_byte x ≡ true = ground (arith, h) in
    let more : all is_address_byte s ≡ true = ground (arith, h) in
    let inside : is_delimiter x ≡ false = ground (arith, one) in rw (inside, all-inside s more) refl

all-port : (s : Text) → all is_ascii_digit s ≡ true → all (λ b. not (is_delimiter b)) s ≡ true
all-port [] h = refl
all-port (x ∷ s) h =
    let one : is_ascii_digit x ≡ true = ground (arith, h) in
    let more : all is_ascii_digit s ≡ true = ground (arith, h) in
    let inside : is_delimiter x ≡ false = ground (arith, one) in rw (inside, all-port s more) refl

-- Nothing in such an authority ends it.
pub all-Names :
    (target : SocketAddrV4) (authority : Text)
    → Names target authority
    → all (λ b. not (is_delimiter b)) authority ≡ true
all-Names target authority address = all-inside (ip_text target.ip) (all-ip_text target.ip)
all-Names target authority (at_port port some_port digits') =
    all-append (λ b. not (is_delimiter b)) (ip_text target.ip) (b':' ∷ port)
      (all-inside (ip_text target.ip) (all-ip_text target.ip)) (all-port port digits')
