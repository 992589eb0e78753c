-- ===== src/Router/Tests.antt =====
-- router.rs: the theorems at concrete routers.
use noxy.Common.{ℕ, suc, true, false, Option, none, some, [], ◌∷◌, ◌≡◌, refl, arith}
use noxy.Http.{Bytes, text, Uri, UpstreamTarget, Request, ok, Service, plain_response}
use noxy.Router.{Upstream, Router, round_robin, random, new_upstream, to_target, target_of, call}
use noxy.Router.Balance.{targets-each_backend, targets, each_backend}
use noxy.Router.Choice.{call-first}

abbrev three : Upstream
three = record {
  backends =
      record { authority = text "a:8080"; scheme = text "http" }
      ∷ record { authority = text "b:8080"; scheme = text "http" }
      ∷ record { authority = text "c:8080"; scheme = text "http" }
      ∷ [];
  strategy = round_robin;
  counter = 3;
}

abbrev request : Request
request = record {
  method = text "GET";
  uri = record { scheme = none; authority = none; path = text "/api/users"; query = none };
  headers = [];
  target = none;
  body = [];
}

-- An upstream that counts its calls.
abbrev counting : Service ℕ
counting req calls = (ok (plain_response 200 req.body), suc calls)

abbrev to_b : UpstreamTarget
to_b = record { authority = text "b:8080"; scheme = text "http" }

abbrev at_b : Upstream
at_b = record three { counter = 4 }

abbrev after_b : Upstream
after_b = record three { counter = 5 }

-- A parser that takes every text to be a host.
abbrev as_host : Bytes → Option Uri
as_host url = some (record { scheme = none; authority = some url; path = []; query = none })

targets-each_backend_example : (targets (λ n. 0) 3 three).1 ≡ each_backend three
targets-each_backend_example =
    targets-each_backend (λ n. 0) three 1 refl (omega arith) refl (omega arith)

call-first_example :
    call
      (λ n. 0)
      counting
      request
      (record { routes = (λ r. false, three) ∷ (λ r. true, at_b) ∷ []; default = none })
      7
    ≡ some (
      ok (plain_response 200 []),
      record { routes = (λ r. false, three) ∷ (λ r. true, after_b) ∷ []; default = none },
      8,
    )
unfolding to_target noxy.Router.pick
call-first_example =
    call-first (λ n. 0) counting request none ((λ r. false, three) ∷ []) [] (λ r. true) at_b after_b
      to_b 7 (refl, tt) refl refl
