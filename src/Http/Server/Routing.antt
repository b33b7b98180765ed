-- ===== src/Http/Server/Routing.antt =====
-- Which handler a request gets.
use ungula_lib_net.Base.{
  All, ℕ, zero, suc, ◌+◌, ◌<◌, ◌≡◌, ◌↔◌, refl, sym, ◌∙◌, ap, true, List, [], ◌∷◌, ◌++◌, none, some,
  arith, length, length-append, append-nil, append_assoc, take,
}
use ungula_lib_net.Http.Httpd.{Method}
use ungula_lib_net.Http.Server.{
  max_routes, Route, HttpServer, ==method, strcmp_eq, find_handler, request_path, route, dispatch,
}

-- The comparisons decide equality.
==method_iff : (m n : Method) → (==method m n ≡ true) ↔ (m ≡ n)
==method_iff m n = ground arith

pub strcmp_eq_iff : (xs ys : List ℕ) → (strcmp_eq xs ys ≡ true) ↔ (xs ≡ ys)
unfolding strcmp_eq
strcmp_eq_iff [] [] = ground arith
strcmp_eq_iff [] (y ∷ ys) = ground arith
strcmp_eq_iff (x ∷ xs) [] = ground arith
strcmp_eq_iff (x ∷ xs) (y ∷ ys) = ground (arith, strcmp_eq_iff xs ys)

-- The registrations of an application, in order.
pub route_all : {H D : Type 0} → List (Route H) → HttpServer H D → HttpServer H D
unfolding route
route_all [] s = s
route_all (r ∷ rs) s = route_all rs (route r.method r.path r.handler s)

-- Does a route answer the request for a method and a path?
abbrev pub Answers : {H : Type 0} → Method → List ℕ → Route H → Type 0
Answers m path r = (r.method ≡ m) × (r.path ≡ path)

-- The specification of the search: `r` is the first route of the list that answers.
pub data First {H : Type 0} (m : Method) (path : List ℕ) (r : Route H)
    : List (Route H) → Type 0 where
  this : {rs : List (Route H)} → Answers m path r → First m path r (r ∷ rs)
  later :
      {q : Route H} {rs : List (Route H)}
      → (Answers m path q → ⊥)
      → First m path r rs
      → First m path r (q ∷ rs)

find-First :
    {H : Type 0} (m : Method) (path : List ℕ) (r : Route H) (rs : List (Route H))
    → First m path r rs
    → find_handler m path rs ≡ some r.handler
unfolding find_handler
find-First m path r [] f = elim f [ ]
find-First m path r (q ∷ rs) (this (em, ep)) =
    ground (arith, ==method_iff r.method m, strcmp_eq_iff r.path path)
find-First m path r (q ∷ rs) (later other f) =
    ground (arith, find-First m path r rs f, ==method_iff q.method m, strcmp_eq_iff q.path path)

find-none :
    {H : Type 0} (m : Method) (path : List ℕ) (rs : List (Route H))
    → All (λ q. Answers m path q → ⊥) rs
    → find_handler m path rs ≡ none
unfolding find_handler
find-none m path [] v = refl
find-none m path (q ∷ rs) v =
    ground (arith, find-none m path rs v.1, ==method_iff q.method m, strcmp_eq_iff q.path path)

module _ {H D : Type 0} where
  full :
      (r : Route H) (s : HttpServer H D)
      → length s.routes ≡ max_routes
      → route r.method r.path r.handler s ≡ s
  unfolding route
  full r s l = ground arith

  room :
      (r : Route H) (s : HttpServer H D)
      → length s.routes < max_routes
      → route r.method r.path r.handler s ≡ record s { routes = s.routes ++ r ∷ [] }
  unfolding route
  room r s l = ground arith

  route_all-full :
      (rs : List (Route H)) (s : HttpServer H D) → length s.routes ≡ max_routes → route_all rs s ≡ s
  unfolding route_all
  route_all-full [] s l = refl
  route_all-full (r ∷ rs) s l = ap (route_all rs) (full r s l) ∙ route_all-full rs s l

  -- The routes that fit are registered, in order.
  route_all_lem :
      (rs : List (Route H)) (m : ℕ) (s : HttpServer H D)
      → m + length s.routes ≡ max_routes
      → (route_all rs s ≡ record s { routes = s.routes ++ take m rs })
  unfolding route_all
  route_all_lem [] zero s l = ap (λ xs. record s { routes = xs }) (sym (append-nil s.routes))
  route_all_lem [] (suc m) s l = ap (λ xs. record s { routes = xs }) (sym (append-nil s.routes))
  route_all_lem (r ∷ rs) zero s l =
      route_all-full (r ∷ rs) s (omega (arith, l))
      ∙ ap (λ xs. record s { routes = xs }) (sym (append-nil s.routes))
  route_all_lem (r ∷ rs) (suc m) s l =
      ap (route_all rs) (room r s (omega (arith, l)))
      ∙ route_all_lem rs m (record s { routes = s.routes ++ r ∷ [] })
          (omega (arith, l, length-append s.routes (r ∷ [])))
      ∙ ap (λ xs. record s { routes = xs }) (append_assoc s.routes (r ∷ []) (take m rs))

  -- Routes are registered one after the other on a server that has none, and a request comes in. If
  -- one of the first forty routes has its method and its path, the path being what stands before the
  -- first '?' of the URI, at most 127 bytes of it, then the first such route handles the request.
  -- Otherwise the handler for unmatched requests does, if there is one.
  pub request_served :
      (rs : List (Route H)) (s : HttpServer H D) (m : Method) (uri : List ℕ)
      → s.routes ≡ []
      → ((r : Route H)
          → First m (request_path uri) r (take max_routes rs)
          → dispatch m uri (route_all rs s) ≡ some r.handler)
        × (All (λ q. Answers m (request_path uri) q → ⊥) (take max_routes rs)
            → dispatch m uri (route_all rs s) ≡ s.not_found_handler)
  unfolding dispatch
  request_served rs s m uri none_yet =
      let registered = route_all_lem rs max_routes s (ap (λ xs. max_routes + length xs) none_yet) in
      let table : (route_all rs s).routes ≡ take max_routes rs =
        ap (λ s'. s'.routes) registered ∙ ap (λ xs. xs ++ take max_routes rs) none_yet in
      (
        λ r first. rw (table, find-First m (request_path uri) r (take max_routes rs) first) refl,
        λ others.
            rw (table, find-none m (request_path uri) (take max_routes rs) others)
              (ap (λ s'. s'.not_found_handler) registered),
      )
