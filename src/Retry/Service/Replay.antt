-- ===== src/Retry/Service/Replay.antt =====
-- retry.rs: what the requests of a call are.
use noxy.Common.{
  ap, sym, ◌∙◌, length, if◌then◌else◌, ap, ◌∙◌, sym, ℕ, zero, suc, ◌<◌, Bool, true, false, Option,
  none, some, List, [], ◌∷◌, ◌++◌, All, ◌≡◌, refl, arith,
}
use noxy.Http.{Bytes, Request}
use noxy.Retry.Capture.{
  snapshot_new, ReplayCapture, snapshot, new_capture, Polled, Ending, whole, unfinished, broken,
  last_polls, Flowing, data_of, poll_all, replayable, snapshot-eq-replayable, usize_max,
}
use noxy.Retry.Settings.{Retry}
use noxy.Retry.Service.{
  Environment, Inner, Shared, Done, Call, iteration, attempts, call, or_else, rebuilt, recorded,
  is_known_empty, method_retryable,
}
use noxy.Retry.Service.Bounds.{answered-P}

-- At its end all the data of a body was seen.
abbrev pub AllRead : Bytes → List Polled → Ending → Type 0
AllRead body frames unfinished = Unit
AllRead body frames broken = Unit
AllRead body frames whole = data_of frames ≡ body

-- A body polled as a body is: frames, and then perhaps an error or the end.
pub record ReadsBody (body : Bytes) (polled : List Polled) : Type 0 where
  pub frames : List Polled
  pub ending : Ending
  pub split : polled ≡ frames ++ last_polls ending
  pub flowing : Flowing frames
  pub read : AllRead body frames ending

replayable-body :
    (max_bytes : ℕ) (body bytes : Bytes) (frames : List Polled) (e : Ending)
    → AllRead body frames e
    → replayable max_bytes frames e ≡ some bytes
    → bytes ≡ body
replayable-body max_bytes body bytes frames unfinished read offered = cc
replayable-body max_bytes body bytes frames broken read offered = cc
replayable-body max_bytes body bytes frames whole read offered = ground arith

snapshot-body :
    (max_bytes : ℕ) (body bytes : Bytes) (polled : List Polled)
    → max_bytes < usize_max
    → ReadsBody body polled
    → snapshot (poll_all (new_capture max_bytes) polled) ≡ some bytes
    → bytes ≡ body
snapshot-body max_bytes body bytes polled small reads found =
    replayable-body max_bytes body bytes reads.frames reads.ending reads.read (
      sym (snapshot-eq-replayable max_bytes reads.frames reads.ending small reads.flowing)
      ∙ ap (λ ps. snapshot (poll_all (new_capture max_bytes) ps)) (sym reads.split)
      ∙ found)

-- Every request that an attempt sends has the call's body.
abbrev pub SendsBody : Call → {W : Type 0} → Done W → Type 0
SendsBody c d = All (λ (q, o). q ≡ rebuilt c.request c.request.body) d.sent

later-SendsBody :
    {W : Type 0} (r : Retry) (env : Environment) (inner : Inner W) (c : Call) (attempt left : ℕ)
    (capture : ReplayCapture) (shared : Shared W)
    → SendsBody c (attempts r env inner c (suc attempt) left (some c.request.body) capture shared)
unfolding attempts iteration
later-SendsBody r env inner c attempt zero capture shared =
    let body = c.request.body in
    let (answer, shared') = inner (rebuilt c.request body) shared in
    answered-P r env (suc attempt) (rebuilt c.request body) none (some body) capture
      answer.body_error (SendsBody c) (λ reply outcome s h. (refl, tt))
      (λ next resp delay bytes s more found v. cc) shared' answer.outcome
later-SendsBody r env inner c attempt (suc left) capture shared =
    let body = c.request.body in
    let (answer, shared') = inner (rebuilt c.request body) shared in
    answered-P r env (suc attempt) (rebuilt c.request body)
      (some (attempts r env inner c (suc (suc attempt)) left)) (some body) capture answer.body_error
      (SendsBody c) (λ reply outcome s h. (refl, tt))
      (λ next resp delay bytes s more found v.
        let same : next ≡ attempts r env inner c (suc (suc attempt)) left = cc in
        let kept : bytes ≡ body = cc in
        rw (same, kept) (refl, later-SendsBody r env inner c (suc attempt) left capture s))
      shared' answer.outcome

-- The exact size of a body, where it is known.
abbrev pub HasSize : Option ℕ → Bytes → Type 0
HasSize none body = Unit
HasSize (some n) body = length body ≡ n

empty_body :
    (exact_size : Option ℕ) (body : Bytes)
    → HasSize exact_size body
    → is_known_empty exact_size ≡ true
    → body ≡ []
empty_body none body size h = cc
empty_body (some n) [] size h = refl
empty_body (some n) (b ∷ bs) size h = absurd (ground arith)

-- The bytes that the first attempt leaves for a replay are the body's.
replay_bytes :
    (known_empty retryable : Bool) (max_bytes : ℕ) (req : Request) (polled : List Polled)
    (bytes : Bytes)
    → max_bytes < usize_max
    → ReadsBody req.body polled
    → (known_empty ≡ true → req.body ≡ [])
    → or_else (if known_empty then some [] else none) (
        snapshot (
          recorded
            (record { request = req; body_known_empty = known_empty; retryable = retryable })
            0
            (new_capture max_bytes)
            polled))
      ≡ some bytes
    → bytes ≡ req.body
replay_bytes true retryable max_bytes req polled bytes small reads empty found =
    let nothing = empty refl in cc
replay_bytes false false max_bytes req polled bytes small reads empty found =
    let nothing = snapshot_new max_bytes in cc
replay_bytes false true max_bytes req polled bytes small reads empty found =
    snapshot-body max_bytes req.body bytes polled small reads found

abbrev call_of : Retry → Option ℕ → Request → Call
call_of r exact_size req = record {
  request = req;
  body_known_empty = is_known_empty exact_size;
  retryable = method_retryable r.retry_methods req.method;
}

abbrev start_bytes : Option ℕ → Option Bytes
start_bytes exact_size = if is_known_empty exact_size then some [] else none

first-SendsBody :
    {W : Type 0} (r : Retry) (env : Environment) (inner : Inner W) (exact_size : Option ℕ)
    (req : Request) (left : ℕ) (shared : Shared W)
    → ((q : Request) (s : Shared W) → ReadsBody q.body (inner q s).0.polled)
    → HasSize exact_size req.body
    → r.max_replay_body_bytes < usize_max
    → let c = call_of r exact_size req in
      SendsBody c (
        attempts r env inner c 0 left
          (start_bytes exact_size)
          (new_capture r.max_replay_body_bytes)
          shared)
unfolding attempts iteration
first-SendsBody r env inner exact_size req zero shared reads size small =
    let c = call_of r exact_size req in
    let (answer, shared') = inner (rebuilt req req.body) shared in
    answered-P r env 0 (rebuilt req req.body) none (start_bytes exact_size)
      (recorded c 0 (new_capture r.max_replay_body_bytes) answer.polled) answer.body_error
      (SendsBody c) (λ reply outcome s h. (refl, tt)) (λ next resp delay bytes s more found v. cc)
      shared' answer.outcome
first-SendsBody r env inner exact_size req (suc left) shared reads size small =
    let c = call_of r exact_size req in
    let (answer, shared') = inner (rebuilt req req.body) shared in
    let capture = recorded c 0 (new_capture r.max_replay_body_bytes) answer.polled in
    answered-P r env 0 (rebuilt req req.body) (some (attempts r env inner c 1 left))
      (start_bytes exact_size) capture answer.body_error (SendsBody c)
      (λ reply outcome s h. (refl, tt))
      (λ next resp delay bytes s more found v.
        let same : next ≡ attempts r env inner c 1 left = cc in
        let kept : bytes ≡ req.body =
          replay_bytes (is_known_empty exact_size) c.retryable r.max_replay_body_bytes req
            answer.polled bytes small (reads (rebuilt req req.body) shared)
            (empty_body exact_size req.body size) found in
        rw (same, kept) (refl, later-SendsBody r env inner c 0 left capture s))
      shared' answer.outcome

-- Every request of a call, the first and each retry, is the one that the call was given, without its
-- extensions: a replay sends the whole body, unchanged. The upstream reads a body as a body, frame by
-- frame to its end or an error, a size that is known exactly is right, and the replay limit is less
-- than the greatest `usize`.
pub call-SendsBody :
    {W : Type 0} (r : Retry) (env : Environment) (inner : Inner W) (exact_size : Option ℕ)
    (req : Request) (shared : Shared W)
    → ((q : Request) (s : Shared W) → ReadsBody q.body (inner q s).0.polled)
    → HasSize exact_size req.body
    → r.max_replay_body_bytes < usize_max
    → All (λ (q, o). q ≡ rebuilt req req.body) (call r env inner exact_size req shared).sent
unfolding call
call-SendsBody r env inner exact_size req shared reads size small =
    first-SendsBody r env inner exact_size req _ _ reads size small
