-- ===== src/Http/Rewrite/Target.antt =====
-- Which authorities are taken for the target.
use programmable_redfish_pro.Http.Address.{SocketAddrV4, ip_text}
use programmable_redfish_pro.Prelude.{
  ◌≡◌, ◌≢◌, refl, true, false, none, some, [], ◌∷◌, ◌++◌, Text, is_ascii_digit, all, ◌==◌, arith,
}
use programmable_redfish_pro.Http.{eq_ignore_ascii_case}
use programmable_redfish_pro.Http.Rewrite.{rsplit_once, host_of, is_target}

rsplit_once-none : (port : Text) → all is_ascii_digit port ≡ true → rsplit_once b':' port ≡ none
unfolding rsplit_once
rsplit_once-none [] h = refl
rsplit_once-none (x ∷ port) h =
    let rest : all is_ascii_digit port ≡ true = ground arith in
    let apart : (x == b':') ≡ false = ground arith in rw (rsplit_once-none port rest, apart) refl

rsplit_once-append :
    (host port : Text)
    → all is_ascii_digit port ≡ true
    → rsplit_once b':' (host ++ b':' ∷ port) ≡ some (host, port)
unfolding rsplit_once
rsplit_once-append [] port h = rw (rsplit_once-none port h) refl
rsplit_once-append (x ∷ host) port h = rw (rsplit_once-append host port h) refl

-- A host with any port of digits is the target exactly when the host is the target's address, in
-- either case of its letters.
pub is_target-port :
    (host port : Text) (target : SocketAddrV4)
    → port ≢ []
    → all is_ascii_digit port ≡ true
    → is_target (host ++ b':' ∷ port) target ≡ eq_ignore_ascii_case host (ip_text target.ip)
unfolding is_target host_of
is_target-port host [] target some' digits = absurd (some' refl)
is_target-port host (x ∷ port) target some' digits =
    rw (is_target, host_of, rsplit_once-append host (x ∷ port) digits, digits) refl
