-- ===== src/Proxy/Tests.antt =====
-- Connections to a forward proxy with one credential, tunnels with a timeout of 10, and a server with a
-- limit of one connection; and the theorems at them.
use noxy.Common.{
  map, ◌*◌, ◌↔◌, ℕ, ◌+◌, ◌≤◌, true, max, Option, none, some, List, [], ◌∷◌, ◌≡◌, refl, arith,
  replicate,
}
use mathlib.Core.List.{Mem}
use noxy.Http.{Bytes, text, Request, Service, ok, plain_response, bytes_eq}
use noxy.Gate.{Layer}
use noxy.Config.Matching.{Predicate}
use noxy.Proxy.Chain.{build_service_chain, apply_layer, in_force, build_service_chain-in_force}
use noxy.Proxy.Credentials.{
  credentials_match, credentials_match_iff, basic_credentials, authenticated,
}
use noxy.Proxy.Handshake.{
  handshake, serve, target, connect_failed, proxy_authentication_failed, parse_target,
  authentication_required, connected,
}
use noxy.Proxy.Handshake.Access.{handshake-authenticated, challenge-unanswerable}
use noxy.Proxy.Tunnel.{chunk, Read, TunnelOutcome, relay_tunnel, copy_half}
use noxy.Proxy.Tunnel.Idle.{relay_tunnel-Quiet, relay_tunnel-ends, Quiet}
use noxy.Proxy.Listen.{
  Server, selecting, acquiring, closed, connection, finished, shutdown, new_server, run,
}
use noxy.Proxy.Listen.Limit.{shutdown-closes}

-- A decoder that leaves its text as it is.
abbrev plain : Bytes → Option Bytes
plain bytes = some bytes

abbrev creds : List (Bytes × Bytes)
creds = (text "user", text "pw") ∷ []

abbrev connect_to : Bytes → Bytes → Request
connect_to authority auth = record {
  method = text "CONNECT";
  uri = record { scheme = none; authority = some authority; path = []; query = none };
  headers = (text "proxy-authorization", auth) ∷ [];
  target = none;
  body = [];
}

abbrev known : Request
known = connect_to (text "a:8443") (text "Basic user:pw")

abbrev unknown : Request
unknown = connect_to (text "a:8443") (text "Basic user:no")

known_reaches : handshake plain (some creds) true (known ∷ []) ≡ target (text "a") 8443
unfolding handshake authenticated noxy.Http.get noxy.Forward.to_str
known_reaches = refl

default_port : parse_target (text "example.com") ≡ target (text "example.com") 443
unfolding parse_target
default_port = refl

credentials_match_iff_example :
    (credentials_match creds (text "user") (text "pw") ≡ true) ↔ Mem (text "user", text "pw") creds
credentials_match_iff_example = credentials_match_iff creds (text "user") (text "pw")

handshake-authenticated_example :
    (req : Request) × (rest : List Request) × (authority user pass : Bytes) × (◌≡◌
      {A = List Request}
      (known ∷ [])
      (req ∷ rest))
    × (req.method ≡ text "CONNECT")
    × (req.uri.authority ≡ some authority)
    × (basic_credentials plain req ≡ some (user, pass))
    × Mem (user, pass) creds
    × (parse_target authority ≡ target (text "a") 8443)
unfolding handshake authenticated noxy.Http.get noxy.Forward.to_str
handshake-authenticated_example =
    handshake-authenticated plain creds true (known ∷ []) (text "a") 8443 refl

challenge-unanswerable_example :
    ((serve plain (some creds) true none (unknown ∷ known ∷ [])).1
      ≡ authentication_required ∷ connected (text "a:8443") ∷ [])
    × (handshake plain (some creds) true (unknown ∷ known ∷ [])
        ≡ connect_failed proxy_authentication_failed)
unfolding noxy.Http.bytes_eq authenticated noxy.Http.get noxy.Forward.to_str
challenge-unanswerable_example =
    challenge-unanswerable plain creds true unknown known [] (text "a:8443") (text "a:8443") refl
      refl refl refl refl refl

abbrev sent : List Read
sent = chunk 3 (text "x") true ∷ chunk 12 (text "y") true ∷ []

stalled : relay_tunnel 3 true (some 10) 0 sent [] ≡ some (30, TunnelOutcome.idle)
unfolding relay_tunnel
stalled = refl

relay_tunnel-Quiet_example :
    (from : ℕ) × (◌≡◌ {A = ℕ} 30 (from + 10)) × (0 ≤ from) × Quiet from 30 (3 ∷ 12 ∷ [])
unfolding copy_half relay_tunnel
relay_tunnel-Quiet_example = relay_tunnel-Quiet 3 true 10 0 30 sent [] (omega arith) refl

relay_tunnel-ends_example :
    (t : ℕ) × (relay_tunnel 3 true (some 10) 0 sent [] ≡ some (t, TunnelOutcome.idle))
    × (t ≤ max (0 + 10) (12 + 2 * 10))
unfolding copy_half
relay_tunnel-ends_example =
    relay_tunnel-ends 2 true 10 0 12 sent [] refl refl (omega arith) (omega arith)

abbrev full : Server
full = record { available = some 0; running = 1; drain_timeout = some 5; phase = acquiring }

fills_up : run (new_server (some 1) (some 5)) (connection ∷ connection ∷ []) ≡ full
unfolding run new_server
fills_up = refl

abbrev serving : Server
serving = record { available = some 0; running = 1; drain_timeout = none; phase = selecting }

shutdown-closes_example :
    ((run serving (shutdown ∷ replicate 1 finished)).phase ≡ closed)
    × ((run serving (shutdown ∷ replicate 1 finished)).running ≡ 0)
shutdown-closes_example = shutdown-closes serving refl

-- The state counts the calls that reach the bottom, which answers 200.
abbrev bottom : Service ℕ
bottom req n = (ok (plain_response 200 []), n + 1)

abbrev on_path : Bytes → Option Predicate
on_path path = some (λ req. bytes_eq req.uri.path path)

abbrev at_path : Bytes → Request
at_path path = record {
  method = text "GET";
  uri = record { scheme = none; authority = none; path = path; query = none };
  headers = [];
  target = none;
  body = [];
}

-- A layer under `/a` that answers, and one under `/b` that renames the path to `/a` and comes first.
abbrev answers : Option Predicate × Layer ℕ
answers = (on_path (text "/a"), λ inner req n. (ok (plain_response 503 []), n))

abbrev renames : Option Predicate × Layer ℕ
renames = (on_path (text "/b"), λ inner req n. inner (at_path (text "/a")) n)

build_service_chain-in_force_example :
    build_service_chain (map apply_layer (renames ∷ answers ∷ [])) bottom (at_path (text "/a")) 0
    ≡ build_service_chain
        (in_force (at_path (text "/a")) (renames ∷ answers ∷ []))
        bottom
        (at_path (text "/a"))
        0
unfolding bytes_eq
build_service_chain-in_force_example =
    build_service_chain-in_force (renames ∷ answers ∷ []) bottom (at_path (text "/a"))
      ((λ h. cc), ((λ h inner inner' same w. refl), tt)) 0

-- A predicate is asked of what the layers before it have made of the request.
renamed_into_scope :
    build_service_chain (map apply_layer (renames ∷ answers ∷ [])) bottom (at_path (text "/b")) 0
    ≡ (ok (plain_response 503 []), 0)
unfolding build_service_chain apply_layer bytes_eq
renamed_into_scope = refl
