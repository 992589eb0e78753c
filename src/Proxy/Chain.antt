-- ===== src/Proxy/Chain.antt =====
-- lib.rs, `build_service_chain`: the layers around the forwarding service; and `apply_layer` of config.rs,
-- which puts a layer under a predicate.
use noxy.Common.{
  true, false, Option, none, some, List, [], ◌∷◌, All, if◌then◌else◌, ◌≡◌, refl, ◌∙◌, map,
  Bool-cases, inl, inr,
}
use noxy.Http.{Request, Service}
use noxy.Gate.{Layer, conditional}
use noxy.Config.Matching.{Predicate}
use noxy.Config.Shadow.{in_scope}

-- From the last layer to the first, so that the first is the outermost.
unfoldable pub build_service_chain : {W : Type 0} → List (Layer W) → Service W → Service W
build_service_chain [] forward = forward
build_service_chain (layer ∷ layers) forward = layer (build_service_chain layers forward)

unfoldable pub apply_layer : {W : Type 0} → Option Predicate × Layer W → Layer W
unfolding conditional
apply_layer (none, layer) = layer
apply_layer (some p, layer) = conditional ((p, layer) ∷ [])

-- The layers whose predicates hold of a request.
unfoldable pub in_force :
    {W : Type 0} → Request → List (Option Predicate × Layer W) → List (Layer W)
in_force req [] = []
in_force req ((p, layer) ∷ layers) =
    let rest = in_force req layers in if in_scope p req then layer ∷ rest else rest

-- A layer that calls the service below with the request that it is given, and with no other.
abbrev pub PassesOn : {W : Type 0} → Request → Layer W → Type 0
PassesOn {W} req layer =
    (inner inner' : Service W)
    → ((w : W) → inner req w ≡ inner' req w)
    → (w : W) → layer inner req w ≡ layer inner' req w

module _ {W : Type 0} (req : Request) (layer : Layer W) (inner : Service W) (w : W) where
  apply_layer-inside :
      (p : Option Predicate)
      → in_scope p req ≡ true
      → apply_layer (p, layer) inner req w ≡ layer inner req w
  unfolding apply_layer
  apply_layer-inside none h = refl
  apply_layer-inside (some p) h = rw h refl

  apply_layer-outside :
      (p : Option Predicate)
      → in_scope p req ≡ false
      → apply_layer (p, layer) inner req w ≡ inner req w
  unfolding apply_layer
  apply_layer-outside none h = cc
  apply_layer-outside (some p) h = rw h refl

-- Where each layer in force at a request passes on that request unchanged, the chain of all layers
-- answers it as the chain of the layers in force does, in the same order, whatever the others are.
pub build_service_chain-in_force :
    {W : Type 0} (layers : List (Option Predicate × Layer W)) (forward : Service W) (req : Request)
    → All (λ d. in_scope d.0 req ≡ true → PassesOn req d.1) layers
    → (w : W)
    → build_service_chain (map apply_layer layers) forward req w
      ≡ build_service_chain (in_force req layers) forward req w
unfolding build_service_chain in_force
build_service_chain-in_force [] forward req passes w = refl
build_service_chain-in_force {W} ((p, layer) ∷ layers) forward req (passes, others) w =
    let below = build_service_chain-in_force layers forward req others in
    let inner = build_service_chain (map apply_layer layers) forward in
    elim (Bool-cases (in_scope p req)) [
      | inl inside ↦
          rw inside (apply_layer-inside req layer inner w p inside ∙ passes inside inner _ below w)
      | inr outside ↦ rw outside (apply_layer-outside req layer inner w p outside ∙ below w)
    ]
