-- ===== src/Workflow/Links/Tests.antt =====
-- Links to try the theorems of packages/workflow/src/links on.
use mortar.Prelude.{◌≡◌, refl, false, none, some, [], ◌∷◌, arith}
use mortar.Workflow.Machine.{Name}
use mortar.Workflow.Links.Encoding.{
  to_base64_url, from_base64_url, timing_safe_equal, symbol, value_of, btoa, url_symbol,
  plain_symbol, strip_padding, strip_two, decode_symbols, unpadded, atob, padding, differs,
}
use mortar.Workflow.Links.Token.{
  LinkClaims, Platform, NewClaims, decode_text, sign, sign_link, until_dot, second_part,
  is_well_formed, VerifyOptions, judged, parsed, verify_link,
}
use mortar.Workflow.Links.Token.Signed.{IsSound, Accepts, verify_link-sign_link, verify_link-sign}

abbrev claims : LinkClaims
claims = record {
  subject = 113 ∷ 58 ∷ 49 ∷ [];
  tenant_id = 116 ∷ [];
  party = none;
  expires_at = 900;
  issued_at = 500;
  jti = 106 ∷ [];
}

abbrev new_claims : NewClaims
new_claims = record {
  subject = 113 ∷ 58 ∷ 49 ∷ [];
  tenant_id = 116 ∷ [];
  party = none;
  expires_at = 900;
  issued_at = none;
  jti = none;
}

-- A platform that knows these claims only, by four bytes, and digests everything to two.
abbrev platform : Platform
platform = record {
  stringify = λ c. 123 ∷ 255 ∷ 62 ∷ 125 ∷ [];
  parse = λ text. some claims;
  encode = λ text. text;
  decode = λ bytes. bytes;
  hmac = λ text secret. 17 ∷ 251 ∷ [];
}

abbrev options : VerifyOptions
options = record { is_revoked = some (λ (jti : Name). false); now = 600 }

abbrev secret : Name
secret = 115 ∷ []

platform-IsSound : IsSound platform claims secret
platform-IsSound = record {
  parses = refl;
  decodes = refl;
  byte_text = (omega arith, (omega arith, (omega arith, (omega arith, tt))));
  byte_digest = (omega arith, (omega arith, tt));
  some_text = refl;
  some_digest = refl;
}

verify_link-sign_link_example :
    verify_link platform (sign_link platform new_claims secret 500 (106 ∷ [])).0 secret options
    ≡ judged options (some (sign_link platform new_claims secret 500 (106 ∷ [])).1)
verify_link-sign_link_example =
    verify_link-sign_link platform new_claims secret 500 (106 ∷ []) options platform-IsSound

-- 'e_8-fQ', a dot and 'Efs'.
abbrev token : Name
token = 101 ∷ 95 ∷ 56 ∷ 45 ∷ 102 ∷ 81 ∷ 46 ∷ 69 ∷ 102 ∷ 115 ∷ []

verify_link-sign_example :
    (second_part (until_dot token).1 ≡ sign platform (until_dot token).0 secret)
    × (parsed platform (decode_text platform (until_dot token).0) ≡ some claims)
    × Accepts options claims
unfolding verify_link until_dot is_well_formed sign decode_text to_base64_url from_base64_url
    timing_safe_equal symbol value_of btoa url_symbol plain_symbol strip_padding strip_two
    decode_symbols unpadded atob padding differs
verify_link-sign_example = verify_link-sign platform token secret options claims refl
