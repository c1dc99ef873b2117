-- ===== src/Examples/Rewriting.antt =====
-- URLs of a BMC at 10.0.0.1, behind https://p.
use programmable_redfish_pro.Prelude.{
  map, if◌then◌else◌, ◌≡◌, refl, some, [], ◌∷◌, ◌++◌, Text, lit, ok, text_eq,
}
use programmable_redfish_pro.Json.{Value, str}
use programmable_redfish_pro.Http.Swap.{
  find_sep, span, scheme_len, trim_end_slashes, swap_authorities,
}
use programmable_redfish_pro.Http.Swap.Total.{Swapped, swap_authorities_lem}
use programmable_redfish_pro.Http.Rewrite.{is_target, rewrite_value, host_of}
use programmable_redfish_pro.Http.Swap.Scan.{authorities}
use programmable_redfish_pro.Http.Swap.Scan.Swapped.{authorities-swap_authorities}
use programmable_redfish_pro.Http.Rewrite.Values.{Rewritten}
use programmable_redfish_pro.Http.Rewrite.Hidden.{hides-rewrite_value}
use programmable_redfish_pro.Http.Rewrite.Shown.{Shown}
use programmable_redfish_pro.Http.Address.{SocketAddrV4, ip_text, decimal}
use programmable_redfish_pro.Http.Body.{Codec}
use programmable_redfish_pro.Http.Body.Clipped.{Clipping, truncate_at_lem}

abbrev target : SocketAddrV4
target = record { ip = record { first = 10; second = 0; third = 0; fourth = 1 }; port = 443 }

abbrev link_text : Text
unfolding lit
link_text = lit "see http://10.0.0.1:80/a and https://x.org/b"

abbrev base_text : Text
unfolding lit
base_text = lit "https://p/"

swapped_run :
    swap_authorities base_text link_text (λ a. is_target a target)
    ≡ some (lit "see https://p/a and https://x.org/b")
unfolding swap_authorities find_sep span scheme_len is_target host_of ip_text decimal text_eq lit
swapped_run = refl

-- A line end is no delimiter, so it joins the authority, which is then not the target's.
line_run :
    swap_authorities base_text (lit "http://10.0.0.1" ++ b'\n' ∷ lit "b") (λ a. is_target a target)
    ≡ some (lit "http://10.0.0.1" ++ b'\n' ∷ lit "b")
unfolding swap_authorities find_sep span scheme_len is_target host_of ip_text decimal text_eq lit
line_run = refl

-- So does what stands before an `@`.
user_run :
    swap_authorities base_text (lit "http://u@10.0.0.1/a") (λ a. is_target a target)
    ≡ some (lit "http://u@10.0.0.1/a")
unfolding swap_authorities find_sep span scheme_len is_target host_of ip_text decimal text_eq lit
user_run = refl

swap_authorities_lem_example :
    (out : Text) × (swap_authorities base_text link_text (λ a. is_target a target) ≡ some out)
    × Swapped (trim_end_slashes base_text) (λ a. is_target a target) link_text out
swap_authorities_lem_example = swap_authorities_lem base_text link_text (λ a. is_target a target)

hides-rewrite_value_example :
    (w : Value) × (rewrite_value target base_text (str link_text) ≡ some w)
    × Rewritten target base_text (str link_text) w
    × ¬ Shown target w
unfolding trim_end_slashes is_target host_of ip_text decimal text_eq lit
hides-rewrite_value_example =
    hides-rewrite_value target base_text b'h' (lit "ttps") (lit "p") refl refl refl refl refl
      (str link_text)

authorities-swap_authorities_example :
    (out : Text) × (swap_authorities base_text link_text (λ a. is_target a target) ≡ some out)
    × (authorities out
        ≡ map (λ a. if is_target a target then lit "p" else a) (authorities link_text))
unfolding trim_end_slashes lit
authorities-swap_authorities_example =
    authorities-swap_authorities base_text link_text (λ a. is_target a target) b'h' (lit "ttps")
      (lit "p") refl refl refl refl

-- A codec for which every body is one string.
abbrev whole : Codec
whole = record {
  from_slice = λ body. ok (str body);
  to_vec = λ v. elim v [ str s ↦ ok s | _ ↦ ok [] ];
}

truncate_at_lem_example : Clipping 2 (lit "abc")
truncate_at_lem_example = truncate_at_lem 2 (lit "abc")
