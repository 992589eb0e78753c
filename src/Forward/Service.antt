-- ===== src/Forward/Service.antt =====
-- http.rs, `ForwardService`. The HTTP client is an argument: it takes a request and answers after some
-- time. So is `Uri::from_parts`, of the http crate.
use mathlib.Core.Path.{subst}
use noxy.Common.{
  true, ==_iff, Bool-cases, ap, ℕ, ◌==◌, ltb, Option, none, some, [], if◌then◌else◌, ◌≡◌, ◌⊎◌, refl,
  inl, inr,
}
use noxy.Http.{Bytes, Uri, UpstreamTarget, Request, Response, Outcome, ok, err, plain_response}
use noxy.Forward.{requests_upgrade, strip_hop_by_hop}
use noxy.Forward.Hop.{NoStandard, strip_hop_by_hop-NoStandard}

pub record ForwardService : Type 0 where
  pub authority : Bytes
  pub scheme : Bytes
  pub request_timeout : Option ℕ

pub gateway_timeout : Response
gateway_timeout = plain_response 504 []

-- The extension's target, or the service's own.
abbrev pub target_of : ForwardService → Option UpstreamTarget → UpstreamTarget
target_of f none = record { authority = f.authority; scheme = f.scheme }
target_of f (some t) = t

-- The request keeps its URI where the parts make none.
abbrev pub with_uri : Request → Option Uri → Request
with_uri req none = req
with_uri req (some uri) = record req { uri = uri }

module _ (from_parts : Uri → Option Uri) where
  unfoldable pub with_target : Request → UpstreamTarget → Request
  with_target req t =
      with_uri req
        (from_parts (record req.uri { scheme = some t.scheme; authority = some t.authority }))

  -- The request that the client is given.
  unfoldable pub outgoing : ForwardService → Request → Request
  unfolding with_target
  outgoing f req =
      let targeted = with_target req (target_of f req.target) in
      if requests_upgrade targeted.headers
      then targeted
      else record targeted { headers = strip_hop_by_hop targeted.headers }

unfoldable pub relayed : Response → Response
relayed resp =
    if resp.status == 101 then resp else record resp { headers = strip_hop_by_hop resp.headers }

-- A client's answer: after how long, and which.
abbrev pub Client : Type 0 → Type 0
Client W = Request → W → (ℕ × Outcome) × W

pub finish : Outcome → Outcome
unfolding relayed
finish (err e) = err e
finish (ok resp) = ok (relayed resp)

unfoldable pub timed : Option ℕ → ℕ → Outcome → Outcome
unfolding finish
timed none elapsed outcome = finish outcome
timed (some timeout) elapsed outcome =
    if ltb timeout elapsed then ok gateway_timeout else finish outcome

-- `ForwardService::call`
unfoldable pub call :
    {W : Type 0} → (Uri → Option Uri) → Client W → ForwardService → Request → W → Outcome × W
call from_parts client f req w =
    let ((elapsed, outcome), w') = client (outgoing from_parts f req) w in
    (timed f.request_timeout elapsed outcome, w')

relayed-NoStandard : (r : Response) → ((relayed r).status ≡ 101) ⊎ NoStandard (relayed r).headers
unfolding relayed
relayed-NoStandard r = elim (Bool-cases (r.status == 101)) [
  | inl switching ↦ rw switching (inl ((==_iff r.status 101).0 switching))
  | inr other ↦ rw other (inr (strip_hop_by_hop-NoStandard r.headers))
]

finish-NoStandard :
    (outcome : Outcome) (resp : Response)
    → finish outcome ≡ ok resp
    → (resp.status ≡ 101) ⊎ NoStandard resp.headers
unfolding finish
finish-NoStandard (err e) resp h = cc
finish-NoStandard (ok r) resp h =
    let same : relayed r ≡ resp = cc in
    subst (λ x. (x.status ≡ 101) ⊎ NoStandard x.headers) same (relayed-NoStandard r)

timed-NoStandard :
    (timeout : Option ℕ) (elapsed : ℕ) (outcome : Outcome) (resp : Response)
    → timed timeout elapsed outcome ≡ ok resp
    → (resp.status ≡ 101) ⊎ NoStandard resp.headers
unfolding timed
timed-NoStandard none elapsed outcome resp h = finish-NoStandard outcome resp h
timed-NoStandard (some timeout) elapsed outcome resp h = elim (Bool-cases (ltb timeout elapsed)) [
  | inl late ↦
      let same : gateway_timeout ≡ resp = cc in
      subst (λ x. (x.status ≡ 101) ⊎ NoStandard x.headers) same (inr (unfold gateway_timeout in tt))
  | inr early ↦ finish-NoStandard outcome resp (rw early at h)
]

with_uri-rest :
    (req : Request) (uri : Option Uri)
    → ((with_uri req uri).headers ≡ req.headers)
      × ((with_uri req uri).method ≡ req.method)
      × ((with_uri req uri).body ≡ req.body)
with_uri-rest req none = (refl, refl, refl)
with_uri-rest req (some uri) = (refl, refl, refl)

outgoing-NoStandard :
    (from_parts : Uri → Option Uri) (f : ForwardService) (req : Request)
    → ((requests_upgrade req.headers ≡ true) ⊎ NoStandard (outgoing from_parts f req).headers)
      × ((outgoing from_parts f req).method ≡ req.method)
      × ((outgoing from_parts f req).body ≡ req.body)
unfolding outgoing with_target
outgoing-NoStandard from_parts f req =
    let t = target_of f req.target in
    let uri =
      from_parts (record req.uri { scheme = some t.scheme; authority = some t.authority }) in
    let (headers, method, body) = with_uri-rest req uri in
    let same : requests_upgrade (with_uri req uri).headers ≡ requests_upgrade req.headers =
      ap requests_upgrade headers in
    elim (Bool-cases (requests_upgrade req.headers)) [
      | inl upgrades ↦ rw (same, upgrades) (inl refl, method, body)
      | inr plain ↦
          rw (same, plain)
            (inr (strip_hop_by_hop-NoStandard (with_uri req uri).headers), method, body)
    ]

-- The standard hop-by-hop headers stop at the proxy, in both directions. Where a call returns a
-- response, it has given the client one request, with the method and the body of its own: that request
-- carries no standard hop-by-hop header, unless the call's own asks for an upgrade. And the response
-- carries none, unless it is a `101 Switching Protocols`.
pub call-NoStandard :
    {W : Type 0} (from_parts : Uri → Option Uri) (client : Client W) (f : ForwardService)
    (req : Request) (w w' : W) (resp : Response)
    → call from_parts client f req w ≡ (ok resp, w')
    → (sent : Request) × (reply : ℕ × Outcome) × (client sent w ≡ (reply, w'))
      × ((requests_upgrade req.headers ≡ true) ⊎ NoStandard sent.headers)
      × (sent.method ≡ req.method)
      × (sent.body ≡ req.body)
      × ((resp.status ≡ 101) ⊎ NoStandard resp.headers)
unfolding call
call-NoStandard from_parts client f req w w' resp answered =
    let (headers, method, body) = outgoing-NoStandard from_parts f req in
    let sent = outgoing from_parts f req in
    let (elapsed, outcome) = (client sent w).0 in
    (
      sent,
      (client sent w).0,
      ap (λ (last : _). ((client sent w).0, last)) (ap (λ p. p.1) answered),
      headers,
      method,
      body,
      timed-NoStandard f.request_timeout elapsed outcome resp (ap (λ p. p.0) answered),
    )
