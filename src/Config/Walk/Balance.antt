-- ===== src/Config/Walk/Balance.antt =====
-- The walk leaves its context as it found it: what a match pushes on the stacks, it pops.
use noxy.Common.{ℕ, Option, none, some, List, [], ◌∷◌, ◌≡◌, refl, sym, ap, ◌∙◌}
use noxy.Http.{Bytes}
use noxy.Config.{Result, ok, err, ◌>>=◌, Libraries, RedisConfig}
use noxy.Config.Matching.{Predicate}
use noxy.Config.Walk.{
  push_back_if, pop_back_if, WalkCtx, push_back, pop_back, push_redis, push_scope, open_redis,
  RedisConnection, RedisCache, with_path, cached_connection,
}

pub pop-push {ℓ} : {A : Type ℓ} (xs : List A) (x : A) → pop_back (push_back xs x) ≡ xs
pop-push [] x = refl
pop-push (y ∷ []) x = refl
pop-push (y ∷ (z ∷ zs)) x = ap (◌∷◌ y) (pop-push (z ∷ zs) x)

-- Where two steps succeed, so does the first, and the second from what it found.
pub steps_ok {ℓ κ} :
    {A : Type ℓ} {B : Type κ} {out : B} (first : Result A) (second : A → Result B)
    → (first >>= second) ≡ ok out
    → (found : A) × (first ≡ ok found) × (second found ≡ ok out)
steps_ok (err failure) second done = cc
steps_ok (ok found) second done = (found, refl, done)

pub ok_pair {ℓ κ} :
    {A : Type ℓ} {B : Type κ} {a c : A} {b d : B}
    → ◌≡◌ {A = Result (A × B)} (ok (a, b)) (ok (c, d))
    → (a ≡ c) × (b ≡ d)
ok_pair h = (cc, cc)

pub ok_injective {ℓ} : {A : Type ℓ} {a b : A} → ◌≡◌ {A = Result A} (ok a) (ok b) → a ≡ b
ok_injective h = cc

-- What a walk restores.
pub record Restored (ctx ctx' : WalkCtx) : Type 0 where
  pub path : ctx'.path ≡ ctx.path
  pub preds : ctx'.preds ≡ ctx.preds
  pub scope_stack : ctx'.scope_stack ≡ ctx.scope_stack
  pub redis_stack : ctx'.redis_stack ≡ ctx.redis_stack

-- `push_redis` after the connection, and the way back.
abbrev enter : WalkCtx → Result (RedisCache × RedisConnection) → Result WalkCtx
enter ctx r = do
  (ctx', conn) ← r >>= λ (cache, conn). ok (record ctx { redis_cache = cache }, conn)
  ok (record ctx' { redis_stack = push_back ctx'.redis_stack conn })

pub unchanged : (ctx ctx' : WalkCtx) → ctx ≡ ctx' → Restored ctx ctx'
unchanged ctx ctx' e = record {
  path = ap (λ (c : WalkCtx). c.path) (sym e);
  preds = ap (λ (c : WalkCtx). c.preds) (sym e);
  scope_stack = ap (λ (c : WalkCtx). c.scope_stack) (sym e);
  redis_stack = ap (λ (c : WalkCtx). c.redis_stack) (sym e);
}

-- What entering the scope of a connection leaves alone, and what leaving it restores.
abbrev pub Entered : Option RedisConfig → WalkCtx → WalkCtx → Type 0
Entered redis ctx ctx' =
    (ctx'.path ≡ ctx.path)
    × (ctx'.preds ≡ ctx.preds)
    × (ctx'.scope_stack ≡ ctx.scope_stack)
    × (pop_back_if ctx'.redis_stack redis ≡ ctx.redis_stack)

connected-Entered :
    (ctx : WalkCtx) (cfg : RedisConfig) (r : Result (RedisCache × RedisConnection)) (ctx' : WalkCtx)
    → enter ctx r ≡ ok ctx'
    → Entered (some cfg) ctx ctx'
connected-Entered ctx cfg (ok (cache, conn)) ctx' h =
    let e : ctx' ≡ _ = sym (ok_injective h) in
    rw e (refl, refl, refl, pop-push ctx.redis_stack conn)
connected-Entered ctx cfg (err e) ctx' h = cc

pub push_redis-Entered :
    (l : Libraries) (ctx : WalkCtx) (redis : Option RedisConfig) (ctx' : WalkCtx)
    → push_redis l ctx redis ≡ ok ctx'
    → Entered redis ctx ctx'
unfolding push_redis open_redis
push_redis-Entered l ctx none ctx' h = rw (sym (ok_injective h)) (refl, refl, refl, refl)
push_redis-Entered l ctx (some cfg) ctx' h =
    connected-Entered ctx cfg (cached_connection l ctx.redis_cache cfg) ctx' h

pub push_scope-Scoped :
    (ctx : WalkCtx) (name : Option Bytes)
    → (pop_back (push_scope ctx name).scope_stack ≡ ctx.scope_stack)
      × ((push_scope ctx name).path ≡ ctx.path)
      × ((push_scope ctx name).preds ≡ ctx.preds)
      × ((push_scope ctx name).redis_stack ≡ ctx.redis_stack)
unfolding push_scope
push_scope-Scoped ctx none = (pop-push ctx.scope_stack _, refl, refl, refl)
push_scope-Scoped ctx (some name) = (pop-push ctx.scope_stack name, refl, refl, refl)

pub pop-push_if :
    (preds : List Predicate) (pred : Option Predicate)
    → pop_back_if (push_back_if preds pred) pred ≡ preds
pop-push_if preds none = refl
pop-push_if preds (some p) = pop-push preds p

-- Leaving the scope of a match restores what the walk of its body left.
module _ (ctx : WalkCtx) (name : Option Bytes) (redis : Option RedisConfig) (n : ℕ) where
  abbrev pub scoped : Option Predicate → WalkCtx
  scoped pred = push_scope (record ctx { preds = push_back_if ctx.preds pred }) name

  pub left_scope :
      (pred : Option Predicate) (entered inner : WalkCtx)
      → Entered redis (scoped pred) entered
      → Restored (with_path entered (push_back entered.path n)) inner
      → Restored ctx (record inner {
        path = pop_back inner.path;
        redis_stack = pop_back_if inner.redis_stack redis;
        preds = pop_back_if inner.preds pred;
        scope_stack = pop_back inner.scope_stack;
      })
  left_scope pred entered inner (path, preds, stack, redis') r =
      let (stack', path', preds', redis'') =
        push_scope-Scoped (record ctx { preds = push_back_if ctx.preds pred }) name in
      record {
        path = ap pop_back r.path ∙ pop-push entered.path n ∙ path ∙ path';
        preds =
            ap (λ ps. pop_back_if ps pred) (r.preds ∙ preds ∙ preds') ∙ pop-push_if ctx.preds pred;
        scope_stack = ap pop_back (r.scope_stack ∙ stack) ∙ stack';
        redis_stack = ap (λ rs. pop_back_if rs redis) r.redis_stack ∙ redis' ∙ redis'';
      }
