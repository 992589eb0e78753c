-- ===== src/Proxy/Handshake/Access.antt =====
-- Who gets through the handshake: the first request of a connection decides.
use mathlib.Core.List.{Mem}
use noxy.Common.{
  ◌≢◌, ℕ, ◌⊎◌, ◌⊎◌, Bool, true, false, Option, none, some, List, [], ◌∷◌, ◌≡◌, refl, sym, ap, ◌∙◌,
  arith, Bool-cases, Option-cases, inl, inr,
}
use noxy.Http.{Bytes, bytes_eq, bytes_eq_iff, text, Request}
use noxy.Proxy.Credentials.{authenticated, basic_credentials, credentials_match_iff}
use noxy.Proxy.Handshake.{
  expected_connect, after_answer, missing_authority, proxy_authentication_failed,
  proxy_authentication_failed, missing_authority, expected_connect, answer, serve, handshake,
  received, parse_target, target, connect_failed, ConnectInfo, Refusal, refused, Reply, bad_request,
  authentication_required, connected, admits, send_once, finish_upgrade,
}

module _ (decode : Bytes → Option Bytes) where
  -- Once the sender is used, nothing changes what it sent.
  serve-sent :
      (credentials : Option (List (Bytes × Bytes))) (works : Bool) (info : ConnectInfo)
      (reqs : List Request)
      → (serve decode credentials works (some info) reqs).0 ≡ some info
  unfolding serve answer after_answer
  serve-sent credentials works info [] = refl
  serve-sent credentials works info (req ∷ reqs) =
      ground (arith, serve-sent credentials works info reqs)

  -- The credentials of a request that passes.
  authenticated-Held :
      (creds : List (Bytes × Bytes)) (req : Request)
      → authenticated decode creds req ≡ true
      → (user : Bytes) × (pass : Bytes) × (basic_credentials decode req ≡ some (user, pass))
        × Mem (user, pass) creds
  unfolding authenticated
  authenticated-Held creds req h = elim (Option-cases (basic_credentials decode req)) [
    | inl missing ↦ absurd (ground arith)
    | inr ((user, pass), found) ↦
        (user, pass, found, (credentials_match_iff creds user pass).0 (ground arith))
  ]

  -- What a request that does not upgrade the connection comes to, and one that does.
  answer-first :
      (creds : List (Bytes × Bytes)) (req : Request)
      → ((why : Refusal) × (reply : Reply) × (answer decode (some creds) none req
            ≡ (some (refused why), reply))
          × (reply.upgrade ≡ none))
        ⊎ ((authority : Bytes) × (answer decode (some creds) none req ≡ (none, connected authority))
            × (bytes_eq req.method (text "CONNECT") ≡ true)
            × (req.uri.authority ≡ some authority)
            × (authenticated decode creds req ≡ true))
  unfolding answer
  answer-first creds req = elim (Bool-cases (bytes_eq req.method (text "CONNECT"))) [
    | inr other ↦ inl (expected_connect req.method, bad_request, ground arith, refl)
    | inl connect ↦ elim (Option-cases req.uri.authority) [
      | inl missing ↦ inl (missing_authority, bad_request, ground arith, refl)
      | inr (authority, found) ↦ elim (Bool-cases (authenticated decode creds req)) [
        | inr unknown ↦
            inl (proxy_authentication_failed, authentication_required, ground arith, refl)
        | inl known ↦ inr (authority, ground arith, connect, found, known)
      ]
    ]
  ]

  refused-next :
      (works : Bool) (reply : Reply)
      → reply.upgrade ≡ none
      → (next : Option ConnectInfo → Option ConnectInfo × List Reply) (info : ConnectInfo)
      → (after_answer works (some info, reply) next).0 ≡ (next (some info)).0
  unfolding after_answer
  refused-next works reply no_upgrade next info = rw no_upgrade

  upgraded-target :
      (works : Bool) (authority host : Bytes) (port : ℕ)
      → received (finish_upgrade works authority none) ≡ target host port
      → parse_target authority ≡ target host port
  unfolding finish_upgrade send_once received
  upgraded-target true authority host port h = h
  upgraded-target false authority host port h = cc

  -- A connection whose first request is refused.
  serve-refused :
      (creds : List (Bytes × Bytes)) (works : Bool) (req : Request) (reqs : List Request)
      (why : Refusal) (reply : Reply)
      → answer decode (some creds) none req ≡ (some (refused why), reply)
      → reply.upgrade ≡ none
      → (serve decode (some creds) works none (req ∷ reqs)).0 ≡ some (refused why)
  unfolding serve
  serve-refused creds works req reqs why reply e no_upgrade =
      ap (λ a. (after_answer works a (λ sent. serve decode (some creds) works sent reqs)).0) e
      ∙ refused-next works reply no_upgrade (λ sent. serve decode (some creds) works sent reqs)
          (refused why)
      ∙ serve-sent (some creds) works (refused why) reqs

  refused-not_target :
      (why : Refusal) (host : Bytes) (port : ℕ) → received (some (refused why)) ≢ target host port
  unfolding received
  refused-not_target why host port h = cc

  -- Where credentials are configured and the handshake comes to a target, the first request of the
  -- connection is a CONNECT to an authority, it carries a user and a password in its
  -- `Proxy-Authorization` header that are one of the configured pairs, and the target is the one that its
  -- authority names.
  pub handshake-authenticated :
      (creds : List (Bytes × Bytes)) (works : Bool) (reqs : List Request) (host : Bytes) (port : ℕ)
      → handshake decode (some creds) works reqs ≡ target host port
      → (req : Request) × (rest : List Request) × (authority user pass : Bytes) × (reqs
          ≡ req ∷ rest)
        × (req.method ≡ text "CONNECT")
        × (req.uri.authority ≡ some authority)
        × (basic_credentials decode req ≡ some (user, pass))
        × Mem (user, pass) creds
        × (parse_target authority ≡ target host port)
  unfolding handshake serve after_answer
  handshake-authenticated creds works [] host port h = absurd (ground arith)
  handshake-authenticated creds works (req ∷ rest) host port h = elim (answer-first creds req) [
    | inl (why, reply, e, no_upgrade) ↦ absurd (
        refused-not_target why host port
          (ap received (sym (serve-refused creds works req rest why reply e no_upgrade)) ∙ h))
    | inr (authority, e, connect, found, known) ↦
        let (user, pass, held, member) = authenticated-Held creds req known in
        (
          req,
          rest,
          authority,
          user,
          pass,
          refl,
          (bytes_eq_iff req.method (text "CONNECT")).0 connect,
          found,
          held,
          member,
          upgraded-target works authority host port (
              ap
                (λ a.
                  received
                    (after_answer works a (λ sent. serve decode (some creds) works sent rest)).0)
                (sym e)
              ∙ h),
        )
  ]

  -- Where a CONNECT without valid credentials is challenged and the client repeats it on the same
  -- connection with valid ones, it is answered 407 and then 200, and the handshake fails all the same, as
  -- it reports the first answer: the client has a tunnel to nowhere.
  pub challenge-unanswerable :
      (creds : List (Bytes × Bytes)) (works : Bool) (first retry : Request) (rest : List Request)
      (authority retry_authority : Bytes)
      → bytes_eq first.method (text "CONNECT") ≡ true
      → first.uri.authority ≡ some authority
      → authenticated decode creds first ≡ false
      → bytes_eq retry.method (text "CONNECT") ≡ true
      → retry.uri.authority ≡ some retry_authority
      → authenticated decode creds retry ≡ true
      → ((serve decode (some creds) works none (first ∷ retry ∷ rest)).1
          ≡ authentication_required ∷ connected retry_authority ∷ [])
        × (handshake decode (some creds) works (first ∷ retry ∷ rest)
            ≡ connect_failed proxy_authentication_failed)
  unfolding serve after_answer answer admits handshake received finish_upgrade send_once
  challenge-unanswerable creds works first retry rest authority retry_authority c1 a1 k1 c2 a2 k2 =
      ground arith
