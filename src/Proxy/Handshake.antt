-- ===== src/Proxy/Handshake.antt =====
-- lib.rs, `handshake`: the CONNECT exchange of a forward proxy. A connection is the list of the requests
-- that hyper reads from it, until one upgrades it. The sender of `connect_tx` can be used once: what it
-- has sent is the state, `none` while it is there.
pub mod Access
use noxy.Common.{
  ℕ, zero, suc, ◌+◌, ◌-◌, ◌*◌, ◌==◌, Bool, true, false, not, ◌&&◌, ◌||◌, Option, none, some, List,
  [], ◌∷◌, ◌++◌, leb, ltb, if◌then◌else◌, ◌>>=◌, ◌≡◌, ◌↔◌, refl, sym, ap, ◌∙◌, arith,
}
use noxy.Http.{Bytes, bytes_eq, text, get, Request, HeaderMap, Response, plain_response}
use noxy.Proxy.Credentials.{authenticated, split_once}

pub data Refusal : Type 0 where
  expected_connect : Bytes → Refusal
  missing_authority proxy_authentication_failed upgrade_failed : Refusal

-- `ConnectInfo`; the connection that comes with the authority is the one of the exchange.
pub data ConnectInfo : Type 0 where
  refused : Refusal → ConnectInfo
  upgraded : Bytes → ConnectInfo

-- `connect_tx.lock().unwrap().take()` and `send`.
unfoldable pub send_once : Option ConnectInfo → ConnectInfo → Option ConnectInfo
send_once none info = some info
send_once (some sent) info = some sent

-- What the service answers, and the authority for which the connection is upgraded, if it is.
pub record Reply : Type 0 where
  pub status : ℕ
  pub headers : HeaderMap
  pub upgrade : Option Bytes

abbrev pub bad_request : Reply
bad_request = record { status = 400; headers = []; upgrade = none }

abbrev pub authentication_required : Reply
authentication_required = record {
  status = 407;
  headers = (text "proxy-authenticate", text "Basic realm=\"noxy\"") ∷ [];
  upgrade = none;
}

abbrev pub connected : Bytes → Reply
connected authority = record { status = 200; headers = []; upgrade = some authority }

-- The end of an upgrade, where it works or fails.
unfoldable pub finish_upgrade : Bool → Bytes → Option ConnectInfo → Option ConnectInfo
unfolding send_once
finish_upgrade works authority sent =
    send_once sent (if works then upgraded authority else refused upgrade_failed)

-- After an answer the connection is upgraded, or goes on to `next`.
unfoldable pub after_answer :
    Bool
    → Option ConnectInfo × Reply
    → (Option ConnectInfo → Option ConnectInfo × List Reply)
    → Option ConnectInfo × List Reply
unfolding finish_upgrade
after_answer works (sent, reply) next = elim reply.upgrade [
  | none ↦ ((next sent).0, reply ∷ (next sent).1)
  | some authority ↦ (finish_upgrade works authority sent, reply ∷ [])
]

-- `authority.rfind(':')`, as what precedes and what follows it.
unfoldable pub rsplit_once : ℕ → Bytes → Option (Bytes × Bytes)
rsplit_once c [] = none
rsplit_once c (b ∷ bs) = elim (rsplit_once c bs) [
  | some (l, r) ↦ some (b ∷ l, r)
  | none ↦ if b == c then some ([], bs) else none
]

module _ (decode : Bytes → Option Bytes) where
  -- Whether the request may go on: without configured credentials any may.
  unfoldable pub admits : Option (List (Bytes × Bytes)) → Request → Bool
  admits none req = true
  admits (some creds) req = authenticated decode creds req

  -- The handler; the task that it spawns at the end sends the outcome of the upgrade.
  unfoldable pub answer :
      Option (List (Bytes × Bytes)) → Option ConnectInfo → Request → Option ConnectInfo × Reply
  unfolding send_once admits bytes_eq
  answer credentials sent req =
      if not (bytes_eq req.method (text "CONNECT"))
      then (send_once sent (refused (expected_connect req.method)), bad_request)
      else elim req.uri.authority [
        | none ↦ (send_once sent (refused missing_authority), bad_request)
        | some authority ↦
            if not (admits credentials req)
            then (send_once sent (refused proxy_authentication_failed), authentication_required)
            else (sent, connected authority)
      ]

  -- `serve_connection(..).with_upgrades()`: requests are answered until one upgrades the connection or
  -- they end. The replies are those that the client reads.
  unfoldable pub serve :
      Option (List (Bytes × Bytes))
      → Bool
      → Option ConnectInfo
      → List Request
      → Option ConnectInfo × List Reply
  unfolding answer after_answer
  serve credentials works sent [] = (sent, [])
  serve credentials works sent (req ∷ reqs) =
      after_answer works (answer credentials sent req) (λ sent'. serve credentials works sent' reqs)

-- The digits of `parse::<u16>()`, from the first.
unfoldable pub parse_port_digits : ℕ → Bytes → Option ℕ
parse_port_digits n [] = some n
parse_port_digits n (c ∷ cs) =
    if leb 48 c && leb c 57 && leb (n * 10 + (c - 48)) 65_535
    then parse_port_digits (n * 10 + (c - 48)) cs
    else none

unfoldable pub parse_port : Bytes → Option ℕ
unfolding parse_port_digits
parse_port [] = none
parse_port (c ∷ []) = parse_port_digits 0 (c ∷ [])
parse_port (c ∷ (d ∷ cs)) =
    if c == 43 then parse_port_digits 0 (d ∷ cs) else parse_port_digits 0 (c ∷ d ∷ cs)

pub data Handshake : Type 0 where
  target : Bytes → ℕ → Handshake
  connect_failed : Refusal → Handshake
  not_completed invalid_port : Handshake

-- The host and the port of the authority; without a colon the port is 443.
unfoldable pub parse_target : Bytes → Handshake
unfolding rsplit_once parse_port
parse_target authority = elim (rsplit_once 58 authority) [
  | none ↦ target authority 443
  | some (host, digits) ↦ elim (parse_port digits) [
    | none ↦ invalid_port
    | some port ↦ target host port
  ]
]

-- What `connect_rx.await` yields, and the rest of `handshake` up to the TLS handshake with the client.
unfoldable pub received : Option ConnectInfo → Handshake
unfolding parse_target
received none = not_completed
received (some (refused why)) = connect_failed why
received (some (upgraded authority)) = parse_target authority

module _ (decode : Bytes → Option Bytes) where
  unfoldable pub handshake : Option (List (Bytes × Bytes)) → Bool → List Request → Handshake
  unfolding serve received
  handshake credentials works reqs = received (serve decode credentials works none reqs).0
