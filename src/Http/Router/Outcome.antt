-- ===== src/Http/Router/Outcome.antt =====
-- HttpRouter.cpp: which of its three outcomes `route` has.
use aorta.Prelude.{
  ◌≡◌, refl, subst, Bool, true, false, ◌&&◌, ◌||◌, any, Option, none, some, List, [], ◌∷◌,
  if◌then◌else◌, eq_bytes, Bool-cases, inl, inr,
}
use aorta.Http.Request.{HttpRequest}
use aorta.Http.Response.Defs.{
  HttpResponse, set_status, set_body, set_content_type, set_header, set_connection,
  set_content_length, set_content_length_to,
}
use aorta.Http.Router.{
  Route, route_from, route, method_matches, path_matches, method_not_allowed, not_found,
}

-- The first route for the method and the path of a request.
unfoldable pub first_route : HttpRequest → List Route → Option Route
unfolding eq_bytes
first_route request [] = none
first_route request (x ∷ routes) =
    if eq_bytes x.path request.target && eq_bytes x.method request.method
    then some x
    else first_route request routes

abbrev pub knows_path : HttpRequest → List Route → Bool
unfolding eq_bytes
knows_path request routes = any (λ x. eq_bytes (Route.path x) request.target) routes

-- The outcome for a request: the first route's handler answers, or the status is 405 for a path that some
-- route has, and 404 for one that none has.
unfoldable pub Outcome :
    Option Route → Bool → HttpRequest → HttpResponse → Bool × HttpResponse → Type 0
Outcome (some x) known request r (handled, response) =
    (handled ≡ true) × (response ≡ x.handler request r)
Outcome none known request r (handled, response) =
    (handled ≡ false) × (response.status_code ≡ (if known then 405 else 404))

refused-Outcome :
    (known : Bool) (request : HttpRequest) (r : HttpResponse)
    → Outcome none known request r
        (if known then (false, method_not_allowed r) else (false, not_found r))
unfolding Outcome method_not_allowed not_found set_status set_body set_content_type set_header
    set_connection set_content_length set_content_length_to
refused-Outcome true request r = (refl, refl)
refused-Outcome false request r = (refl, refl)

true_or : (b : Bool) → true ≡ (b || true)
true_or true = refl
true_or false = refl

route_from-Outcome :
    (routes : List Route) (found : Bool) (request : HttpRequest) (r : HttpResponse)
    → Outcome
        (first_route request routes)
        (found || knows_path request routes)
        request
        r
        (route_from routes found request r)
unfolding Outcome route_from first_route method_matches path_matches
route_from-Outcome [] true request r = refused-Outcome true request r
route_from-Outcome [] false request r = refused-Outcome false request r
route_from-Outcome (x ∷ routes) found request r =
    elim (Bool-cases (eq_bytes x.path request.target)) [
      | inl t ↦ elim (Bool-cases (eq_bytes x.method request.method)) [
        | inl u ↦ rw (t, u) (refl, refl)
        | inr u ↦
            rw (t, u)
              (subst
                (λ b.
                  Outcome (first_route request routes) b request r
                    (route_from routes true request r))
                (true_or found) (route_from-Outcome routes true request r))
      ]
      | inr t ↦ rw t (route_from-Outcome routes found request r)
    ]

-- `route` lets the first route that has the request's path and method answer. Where there is none, it
-- returns false with status 405 if some route has the path, and with status 404 if none has.
pub route-Outcome :
    (routes : List Route) (request : HttpRequest) (r : HttpResponse)
    → Outcome
        (first_route request routes)
        (knows_path request routes)
        request
        r
        (route routes request r)
unfolding route
route-Outcome routes request r = route_from-Outcome routes false request r
