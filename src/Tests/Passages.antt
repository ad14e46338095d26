-- ===== src/Tests/Passages.antt =====
-- The theorems on tokens and the gate, for one browser.
use flashaccess.Base.{
  text_eq, codes, true, some, List, [], ◌∷◌, find, put, ◌≡◌, refl, trim_space, trim_left,
  trim_right,
}
use flashaccess.Net.{
  Ip, parse_ip, parse_cidr, prefix_of, cidr_mask, and_bytes, contains_ip, to_4, agree_under,
}
use flashaccess.Net.Parse.{split_slash, parse_addr, v4_from, parse_digits}
use flashaccess.Session.{is_live, ip_allowed}
use flashaccess.Session.Lock.{lock, unlock, r_lock, r_unlock}
use flashaccess.Session.Manager.{active_session, verify_access, judge}
use flashaccess.Web.Auth.{issue_token, validate, hex_text, revoke_session}
use flashaccess.Web.Auth.Tokens.{Event, issues, ends, history, happen, Vouched, validate-Vouched}
use flashaccess.Web.Client.{Request, real_ip}
use flashaccess.Web.Gate.{Times, require_auth, handle_gate_post}
use flashaccess.Web.Gate.Passage.{
  Passes, Entitled, IsForwarded, SetsCookie, serving, require_auth-Passes,
  handle_gate_post-Entitled,
}
use flashaccess.Tests.{sample, one_session, plain_setup}
use flashaccess.Tests.Manager.{client}

-- a token for the session, issued at 50
abbrev past : List Event
past = issues (171 ∷ 205 ∷ []) (codes "ab12cd34") 50 ∷ ends (codes "00000000") ∷ []

abbrev browser : Request
browser = record {
  cf_connecting_ip = codes "10.0.0.7";
  x_real_ip = [];
  remote_addr = codes "192.0.2.1:4000";
  cookie = some (codes "abcd");
  key = some (codes " k ");
}

abbrev clock : Times
clock = record { lookup = 60; check = 61; issue = 62 }

token_is_valid : (validate (some (codes "abcd")) 61 (history past)).0 ≡ some (codes "ab12cd34")
unfolding validate history happen issue_token hex_text put find text_eq revoke_session
token_is_valid = refl

validate-Vouched_example : Vouched (some (codes "abcd")) (codes "ab12cd34") 61 past
validate-Vouched_example =
    validate-Vouched past (some (codes "abcd")) 61 (codes "ab12cd34") token_is_valid

browser_is_client :
    real_ip browser ≡ some (0 ∷ 0 ∷ 0 ∷ 0 ∷ 0 ∷ 0 ∷ 0 ∷ 0 ∷ 0 ∷ 0 ∷ 255 ∷ 255 ∷ client)
unfolding real_ip parse_ip parse_addr v4_from trim_space trim_right trim_left
browser_is_client = refl

abbrev client_16 : Ip
client_16 = 0 ∷ 0 ∷ 0 ∷ 0 ∷ 0 ∷ 0 ∷ 0 ∷ 0 ∷ 0 ∷ 0 ∷ 255 ∷ 255 ∷ client

sample_allows_16 : ip_allowed sample client_16 ≡ true
unfolding ip_allowed parse_cidr split_slash parse_addr v4_from parse_digits prefix_of cidr_mask
    and_bytes contains_ip to_4 agree_under text_eq
sample_allows_16 = refl

browser_passes :
    IsForwarded plain_setup
      (require_auth plain_setup browser clock (serving one_session 0 (history past))).0
unfolding require_auth active_session is_live r_lock r_unlock text_eq
browser_passes = rw browser_is_client (rw sample_allows_16 (rw token_is_valid refl))

require_auth-Passes_example : Passes plain_setup browser clock one_session past
require_auth-Passes_example =
    require_auth-Passes plain_setup browser clock one_session 0 past browser_passes

gate_lets_key_in :
    SetsCookie plain_setup
      (handle_gate_post plain_setup browser clock (1 ∷ []) (serving one_session 0 [])).0
unfolding handle_gate_post active_session is_live r_lock r_unlock text_eq verify_access judge lock
    unlock find put trim_space trim_left trim_right issue_token
gate_lets_key_in = rw browser_is_client (rw sample_allows_16 (λ h. cc))

handle_gate_post-Entitled_example : Entitled plain_setup browser clock one_session
handle_gate_post-Entitled_example =
    handle_gate_post-Entitled plain_setup browser clock (1 ∷ []) one_session 0 [] gate_lets_key_in
