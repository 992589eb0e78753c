-- ===== src/Forward/Tests.antt =====
-- http.rs: messages stripped, and the theorems at concrete ones.
use noxy.Common.{true, List, ℕ, none, some, [], ◌∷◌, ◌≡◌, ◌⊎◌, refl}
use noxy.Http.{Bytes, text, HeaderMap, Uri, UpstreamTarget, Request, Response, Outcome, ok, err}
use noxy.Forward.{strip_hop_by_hop, requests_upgrade, get_all, connection}
use noxy.Forward.Hop.{NoStandard}
use noxy.Forward.Service.{ForwardService, Client, call, outgoing, call-NoStandard}

abbrev headers : HeaderMap
headers =
    (text "connection", text "close, X-Hop")
    ∷ (text "accept", text "*")
    ∷ (text "x-hop", text "1")
    ∷ (text "te", text "gzip")
    ∷ []

strips : strip_hop_by_hop headers ≡ (text "accept", text "*") ∷ []
unfolding strip_hop_by_hop noxy.Forward.remove noxy.Forward.connection_named noxy.Http.bytes_eq
strips = refl

abbrev request : Request
request = record {
  method = text "GET";
  uri = record { scheme = none; authority = none; path = text "/"; query = none };
  headers = headers;
  target = some (record { authority = text "api:8080"; scheme = text "http" });
  body = [];
}

abbrev service : ForwardService
service = record { authority = text "origin"; scheme = text "https"; request_timeout = some 100 }

-- An upstream that answers in time, with a header of its own connection, and keeps what it was sent.
abbrev upstream : Client (List Request)
upstream req seen = (
  (
    50,
    ok (record {
      status = 200;
      headers = (text "keep-alive", text "timeout=5") ∷ (text "accept", text "*") ∷ [];
      body = [];
    }),
  ),
  req ∷ seen,
)

abbrev answered : Response
answered = record { status = 200; headers = (text "accept", text "*") ∷ []; body = [] }

-- What is left of the request: the target of its extension, and the one header that is not of the
-- connection.
abbrev stripped : Request
stripped = record request {
  uri = record {
    scheme = some (text "http");
    authority = some (text "api:8080");
    path = text "/";
    query = none;
  };
  headers = (text "accept", text "*") ∷ [];
}

call-NoStandard_example :
    (sent : Request) × (reply : ℕ × Outcome) × (upstream sent [] ≡ (reply, stripped ∷ []))
    × ((requests_upgrade request.headers ≡ true) ⊎ NoStandard sent.headers)
    × (sent.method ≡ text "GET")
    × (sent.body ≡ [])
    × ((answered.status ≡ 101) ⊎ NoStandard answered.headers)
unfolding call noxy.Forward.Service.timed outgoing strip_hop_by_hop requests_upgrade
    noxy.Forward.remove noxy.Http.bytes_eq noxy.Forward.connection_named
call-NoStandard_example =
    call-NoStandard (λ uri. some uri) upstream service request [] (stripped ∷ []) answered refl
