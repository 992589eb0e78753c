-- ===== src/Config/Listeners/Made.antt =====
-- What the loop over a listener's declarations makes of them: layers and routes, which a request meets or
-- does not.
use mathlib.Core.List.{append_assoc}
use noxy.Common.{
  ℕ, Bool, Option, none, some, List, [], ◌∷◌, ◌++◌, if◌then◌else◌, ◌≡◌, refl, sym, ap, ◌∙◌, arith,
  Bool-cases, inl, inr,
}
use noxy.Http.{Request}
use noxy.Router.{Upstream}
use noxy.Config.{ok}
use noxy.Config.Matching.{Predicate}
use noxy.Config.Build.{Engines}
use noxy.Config.Settings.{Identity, ProxyBuilder}
use noxy.Config.Emit.{Layer, Emitted, layer, route, emit}
use noxy.Config.Walk.{Decl}
use noxy.Config.Walk.Balance.{steps_ok, ok_injective}
use noxy.Config.Shadow.{in_scope, or_always, effective_predicate}
use noxy.Config.Shadow.Effect.{applies_to}
use noxy.Config.Listeners.{add, emit_decl, emit_decls}

-- The layers that a request passes in full, and the routes that it can take.
unfoldable pub active_layers : Request → List (Option Predicate × Layer) → List Layer
active_layers req [] = []
active_layers req ((pred, l) ∷ layers) =
    let rest = active_layers req layers in if in_scope pred req then l ∷ rest else rest

unfoldable pub active_routes : Request → List (Predicate × Upstream) → List Upstream
active_routes req [] = []
active_routes req ((pred, u) ∷ routes) =
    let rest = active_routes req routes in if pred req then u ∷ rest else rest

active_layers-append :
    (req : Request) (xs ys : List (Option Predicate × Layer))
    → active_layers req (xs ++ ys) ≡ active_layers req xs ++ active_layers req ys
unfolding active_layers
active_layers-append req [] ys = refl
active_layers-append req ((pred, l) ∷ xs) ys = ground (arith, active_layers-append req xs ys)

active_routes-append :
    (req : Request) (xs ys : List (Predicate × Upstream))
    → active_routes req (xs ++ ys) ≡ active_routes req xs ++ active_routes req ys
unfolding active_routes
active_routes-append req [] ys = refl
active_routes-append req ((pred, u) ∷ xs) ys = ground (arith, active_routes-append req xs ys)

-- Declarations, and the layers and the routes that are made of them, in order: each by its own rule, on the
-- connection and under the label that it was declared with.
pub data Made (e : Engines) (now : ℕ) : List Decl → List Layer → List Upstream → Type 0 where
  nothing : Made e now [] [] []
  layered :
      (d : Decl)
      → {l : Layer} {decls : List Decl} {ls : List Layer} {us : List Upstream}
      → emit e now d.redis d.scope_label d.leaf ≡ ok (layer l)
      → Made e now decls ls us
      → Made e now (d ∷ decls) (l ∷ ls) us
  routed :
      (d : Decl)
      → {u : Upstream} {decls : List Decl} {ls : List Layer} {us : List Upstream}
      → emit e now d.redis d.scope_label d.leaf ≡ ok (route u)
      → Made e now decls ls us
      → Made e now (d ∷ decls) ls (u ∷ us)

-- The declarations that apply to a request.
unfoldable pub applying : Request → List Decl → List Decl
unfolding applies_to
applying req [] = []
applying req (d ∷ decls) =
    let rest = applying req decls in if applies_to req d then d ∷ rest else rest

-- What a request meets of a builder, against what it meets of the one before it.
pub record Grown (e : Engines) (now : ℕ) (req : Request) (b b' : ProxyBuilder) (decls : List Decl)
    : Type 0 where
  pub layers : List Layer
  pub routes : List Upstream
  pub made : Made e now decls layers routes
  pub layers_after : active_layers req b'.layers ≡ active_layers req b.layers ++ layers
  pub routes_after : active_routes req b'.routes ≡ active_routes req b.routes ++ routes

append_nil {ℓ} : {A : Type ℓ} (xs : List A) → xs ++ [] ≡ xs
append_nil [] = refl
append_nil (x ∷ xs) = ap (◌∷◌ x) (append_nil xs)

or_always-in_scope :
    (pred : Option Predicate) (req : Request) → or_always pred req ≡ in_scope pred req
or_always-in_scope none req = refl
or_always-in_scope (some p) req = refl

module _ (e : Engines) (now : ℕ) (req : Request) where
  -- One more at the end of what a builder has.
  layers-add :
      (b : ProxyBuilder) (d : Decl) (l : Layer) (xs rest : List Layer)
      → xs ≡ active_layers req (add b (effective_predicate d) (layer l)).layers ++ rest
      → xs ≡ active_layers req b.layers ++ (if applies_to req d then l ∷ rest else rest)
  unfolding add applies_to active_layers
  layers-add b d l xs rest h =
      h
      ∙ ap (λ ys. ys ++ rest) (active_layers-append req b.layers ((effective_predicate d, l) ∷ []))
      ∙ append_assoc (active_layers req b.layers) _ rest
      ∙ ap (λ ys. active_layers req b.layers ++ ys) (ground arith)

  routes-add :
      (b : ProxyBuilder) (d : Decl) (u : Upstream) (xs rest : List Upstream)
      → xs ≡ active_routes req (add b (effective_predicate d) (route u)).routes ++ rest
      → xs ≡ active_routes req b.routes ++ (if applies_to req d then u ∷ rest else rest)
  unfolding add applies_to active_routes
  routes-add b d u xs rest h =
      h
      ∙ ap (λ ys. ys ++ rest)
          (active_routes-append req b.routes ((or_always (effective_predicate d), u) ∷ []))
      ∙ append_assoc (active_routes req b.routes) _ rest
      ∙ ap (λ ys. active_routes req b.routes ++ ys)
          (rw (or_always-in_scope (effective_predicate d) req) (ground arith))

  Grown-layer :
      (d : Decl) (decls : List Decl) (b b' : ProxyBuilder) (l : Layer)
      → emit e now d.redis d.scope_label d.leaf ≡ ok (layer l)
      → Grown e now req (add b (effective_predicate d) (layer l)) b' (applying req decls)
      → Grown e now req b b' (applying req (d ∷ decls))
  unfolding applying add
  Grown-layer d decls b b' l made g = elim (Bool-cases (applies_to req d)) [
    | inl on ↦ rw on (record {
      layers = l ∷ g.layers;
      routes = g.routes;
      made = layered d made g.made;
      layers_after =
          layers-add b d l _ g.layers g.layers_after
          ∙ ap (λ (t : Bool). active_layers req b.layers ++ (if t then l ∷ g.layers else g.layers))
              on;
      routes_after = g.routes_after;
    })
    | inr off ↦ rw off (record {
      layers = g.layers;
      routes = g.routes;
      made = g.made;
      layers_after =
          layers-add b d l _ g.layers g.layers_after
          ∙ ap (λ (t : Bool). active_layers req b.layers ++ (if t then l ∷ g.layers else g.layers))
              off;
      routes_after = g.routes_after;
    })
  ]

  Grown-route :
      (d : Decl) (decls : List Decl) (b b' : ProxyBuilder) (u : Upstream)
      → emit e now d.redis d.scope_label d.leaf ≡ ok (route u)
      → Grown e now req (add b (effective_predicate d) (route u)) b' (applying req decls)
      → Grown e now req b b' (applying req (d ∷ decls))
  unfolding applying add
  Grown-route d decls b b' u made g = elim (Bool-cases (applies_to req d)) [
    | inl on ↦ rw on (record {
      layers = g.layers;
      routes = u ∷ g.routes;
      made = routed d made g.made;
      layers_after = g.layers_after;
      routes_after =
          routes-add b d u _ g.routes g.routes_after
          ∙ ap (λ (t : Bool). active_routes req b.routes ++ (if t then u ∷ g.routes else g.routes))
              on;
    })
    | inr off ↦ rw off (record {
      layers = g.layers;
      routes = g.routes;
      made = g.made;
      layers_after = g.layers_after;
      routes_after =
          routes-add b d u _ g.routes g.routes_after
          ∙ ap (λ (t : Bool). active_routes req b.routes ++ (if t then u ∷ g.routes else g.routes))
              off;
    })
  ]

  after_first :
      (d : Decl) (decls : List Decl) (b b' : ProxyBuilder) (emitted : Emitted)
      → emit e now d.redis d.scope_label d.leaf ≡ ok emitted
      → Grown e now req (add b (effective_predicate d) emitted) b' (applying req decls)
      → Grown e now req b b' (applying req (d ∷ decls))
  after_first d decls b b' (layer l) made g = Grown-layer d decls b b' l made g
  after_first d decls b b' (route u) made g = Grown-route d decls b b' u made g

  module _ (identity_valid : Identity → Bool) where
    pub emit_decls-Grown :
        (decls : List Decl) (b b' : ProxyBuilder)
        → emit_decls e now identity_valid decls b ≡ ok b'
        → Grown e now req b b' (applying req decls)
    unfolding emit_decls emit_decl applying
    emit_decls-Grown [] b b' h =
        let same : b ≡ b' = ok_injective h in
        record {
          layers = [];
          routes = [];
          made = nothing;
          layers_after =
              ap (λ (p : ProxyBuilder). active_layers req p.layers) (sym same)
              ∙ sym (append_nil (active_layers req b.layers));
          routes_after =
              ap (λ (p : ProxyBuilder). active_routes req p.routes) (sym same)
              ∙ sym (append_nil (active_routes req b.routes));
        }
    emit_decls-Grown (d ∷ decls) b b' h =
        let (b1, first, rest) = steps_ok (emit_decl e now identity_valid b d) _ h in
        let (emitted, made, added) = steps_ok (emit e now d.redis d.scope_label d.leaf) _ first in
        let next : b1 ≡ add b (effective_predicate d) emitted = sym (ok_injective added) in
        after_first d decls b b' emitted made (
          emit_decls-Grown decls (add b (effective_predicate d) emitted) b'
            (ap (emit_decls e now identity_valid decls) (sym next) ∙ rest))
