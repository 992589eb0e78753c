-- ===== src/Gate/Tests.antt =====
-- conditional.rs and block_list.rs: the theorems at concrete rules.
use noxy.Common.{◌||◌, ℕ, suc, Bool, false, Option, none, some, List, [], ◌∷◌}
use noxy.Http.{Bytes, bytes_eq, text, Uri, Request, ok, Service, plain_response}
use noxy.Gate.{default_respond, extract_host, host_matches, Rule, set_response, BlockList}
use noxy.Gate.Rules.{host_pattern, path_pattern, Pattern}

abbrev request : Request
request = record {
  method = text "GET";
  uri = record {
    scheme = none;
    authority = some (text "ads.example");
    path = text "/x";
    query = none;
  };
  headers = [];
  target = none;
  body = [];
}

abbrev counting : Service ℕ
counting req calls = (ok (plain_response 200 req.body), suc calls)

abbrev rules : List (Rule ℕ)
rules = (λ r. false, set_response 500 []) ∷ []

-- A compiler of patterns without wildcards.
abbrev exact : Bytes → Option (Bytes → Bool)
exact pattern = some (λ subject. bytes_eq pattern subject)

abbrev authority_host : Uri → Option Bytes
authority_host uri = uri.authority

abbrev patterns : List Pattern
patterns = path_pattern (text "/y") ∷ host_pattern (text "ads.example") ∷ []

abbrev blocked : BlockList
blocked = record {
  is_blocked = λ req.
      (false || bytes_eq (text "/y") req.uri.path)
      || host_matches exact authority_host (bytes_eq (text "ads.example"))
          (extract_host authority_host req);
  respond = default_respond;
}
