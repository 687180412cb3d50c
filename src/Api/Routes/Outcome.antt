-- ===== src/Api/Routes/Outcome.antt =====
-- What holds after a request, where it holds before and after the handler of each route.
use hermes_manager.Prelude.{
  ℕ, zero, suc, String, ◌≡◌, sym, subst, ◌⊎◌, inl, inr, Bool, Option, none, some, List, [], ◌∷◌,
  All, get_elem?, ◌==◌, Bool-cases,
}
use hermes_manager.World.{World}
use hermes_manager.Api.Response.{Response}
use hermes_manager.Api.Auth.{
  Request, Handler, is_open, split_space, check_parts, check_authorization, auth_middleware,
}
use hermes_manager.Api.Routes.{Route}

-- A route's method serves a request: it is the request's method, or GET for a HEAD request.
abbrev pub Serves : Route → Request → Type 0
Serves r req = (r.method ≡ req.method) ⊎ ((r.method ≡ "GET") × (req.method ≡ "HEAD"))

-- `http.ServeMux` hands a request to a route whose method serves it, or answers by itself (a redirect,
-- 404, 405).
pub record IsMux (mux : List Route → Handler) : Type 0 where
  pub served :
      (rs : List Route) (req : Request) (w : World)
      → ((mux rs req w).1 ≡ w)
        ⊎ ((n : ℕ) × (r : Route) × (get_elem? rs n ≡ some r)
            × Serves r req
            × (mux rs req w ≡ r.handler req w))

All-get :
    (Q : Route → Type 0) (rs : List Route) (n : ℕ) (r : Route)
    → All Q rs
    → get_elem? rs n ≡ some r
    → Q r
All-get Q [] n r all h = cc
All-get Q (x ∷ rs) zero r (first, rest) h = let e : x ≡ r = cc in subst Q e first
All-get Q (x ∷ rs) (suc n) r (first, rest) h = All-get Q rs n r rest h

module _ (P : World → Type 0) (req : Request) (w : World) (before : P w) where
  pub mux-post :
      (mux : List Route → Handler) (rs : List Route)
      → IsMux mux
      → All (λ (r : Route). Serves r req → P (r.handler req w).1) rs
      → P (mux rs req w).1
  mux-post mux rs is all = elim (is.served rs req w) [
    | inl same ↦ subst P (sym same) before
    | inr (n, r, there, method, ran) ↦
        subst (λ (q : Response × World). P q.1) (sym ran)
          (All-get (λ (r : Route). Serves r req → P (r.handler req w).1) rs n r all there method)
  ]

  module _ (equal_fold : String → String → Bool) (token : String) (next : Handler)
      (after : P (next req w).1) where
    check_parts-post :
        (parts : Option (String × String)) → P (check_parts equal_fold token next parts req w).1
    unfolding check_parts
    check_parts-post none = before
    check_parts-post (some (scheme, presented)) = elim (Bool-cases (equal_fold scheme "Bearer")) [
      | inr other ↦ rw (other, check_parts) before
      | inl bearer ↦ elim (Bool-cases (presented == token)) [
        | inr wrong ↦ rw (bearer, check_parts) (rw (wrong) before)
        | inl same ↦ rw (bearer, check_parts) (rw (same) after)
      ]
    ]

    pub auth_middleware-post : P (auth_middleware equal_fold token next req w).1
    unfolding auth_middleware check_authorization
    auth_middleware-post = elim (Bool-cases (token == "")) [
      | inl unset ↦ rw (unset, auth_middleware) after
      | inr configured ↦ elim (Bool-cases (is_open req)) [
        | inl open_path ↦ rw (configured, auth_middleware) (rw (open_path) after)
        | inr protected ↦ elim (Bool-cases (req.authorization == "")) [
          | inl missing ↦ rw (configured, auth_middleware) (rw (protected, missing) before)
          | inr present ↦
              rw (configured, auth_middleware)
                (rw (protected, present) (check_parts-post (split_space req.authorization)))
        ]
      ]
    ]
