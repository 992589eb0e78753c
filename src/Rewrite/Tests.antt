-- ===== src/Rewrite/Tests.antt =====
-- The template of the README's rewrite, and a value that is taken for a placeholder.
use noxy.Common.{List, [], ◌∷◌, ◌≡◌, refl, map}
use noxy.Http.{Bytes, text}
use noxy.Rewrite.{replace_params}
use noxy.Rewrite.Template.{Token, literal, hole, render, fill_all, replace_params-at_once}

abbrev captured : List (Bytes × Bytes)
captured = (text "rest", text "users/7") ∷ []

abbrev template : List Token
template = literal (text "/v2/") ∷ hole (text "rest") ∷ []

rewrites : replace_params captured (text "/v2/{rest}") ≡ text "/v2/users/7"
unfolding replace_params
rewrites = refl

-- `/{x}/{y}` of the path `/{y}/secret`: the first value is taken for the second placeholder.
taken_for_placeholder :
    replace_params ((text "x", text "{y}") ∷ (text "y", text "secret") ∷ []) (text "/{x}/{y}")
    ≡ text "/secret/secret"
unfolding replace_params
taken_for_placeholder = refl

replace_params-at_once_example :
    replace_params captured (render template) ≡ render (map (fill_all captured) template)
replace_params-at_once_example =
    replace_params-at_once captured template ((refl, refl), tt) (refl, (refl, tt))
