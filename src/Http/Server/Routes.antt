-- ===== src/Http/Server/Routes.antt =====
-- Dispatcher and Route: which handler answers a request.
use flux_a_high_performance.Prelude.{
  ℕ, ◌≡◌, refl, ap, Bool, false, not, List, [], ◌∷◌, ◌++◌, ◌==◌, ◌&&◌, if◌then◌else◌, length, codes,
  eq_bytes, ok, All, Bool-cases, Option, Option-cases, some, none, inl, inr,
}
use flux_a_high_performance.Http.Util.Path.{valid_path_total}
use flux_a_high_performance.Http.Request.{HttpRequest}
use flux_a_high_performance.Http.Response.{HttpResponse}
use flux_a_high_performance.Http.Server.{
  Files, Pattern, Handler, Handlers, HttpServer, dispatcher, route, route_by_method,
  is_file_handler, file_handler, file_name, register_post,
}

-- Among the handlers of a method, the first whose pattern matches the path answers, and finds what
-- its pattern has matched.
pub dispatcher-first :
    (req : HttpRequest) (resp : HttpResponse) (before after : Handlers) (re : Pattern) (f : Handler)
    (matches : List (List ℕ))
    → All (λ h. h.0 req.path ≡ none) before
    → re req.path ≡ some matches
    → dispatcher req resp (before ++ (re, f) ∷ after) ≡ f (record req { matches = matches }) resp
unfolding dispatcher
dispatcher-first req resp [] after re f matches h k = rw k refl
dispatcher-first req resp ((r, g) ∷ before) after re f matches h k =
    rw h.0 (dispatcher-first (record req { matches = [] }) resp before after re f matches (h.1) k)

pub dispatcher-none :
    (req : HttpRequest) (resp : HttpResponse) (handlers : Handlers)
    → All (λ h. h.0 req.path ≡ none) handlers
    → dispatcher req resp handlers ≡ record resp { status = 404 }
unfolding dispatcher
dispatcher-none req resp [] h = refl
dispatcher-none req resp ((r, g) ∷ handlers) h =
    rw h.0 (dispatcher-none (record req { matches = [] }) resp handlers (h.1))

-- What a handler answers, if its pattern has matched.
abbrev pub answer : Option (List (List ℕ)) → Handler → HttpRequest → HttpResponse → HttpResponse
answer none f req resp = record resp { status = 404 }
answer (some matches) f req resp = f (record req { matches = matches }) resp

post-no_file :
    (fs : Files) (s : HttpServer) (req : HttpRequest)
    → req.method ≡ codes "POST"
    → is_file_handler fs s req ≡ ok false
unfolding is_file_handler eq_bytes
post-no_file fs s req m = elim (Bool-cases (length s.basedir == 0)) [
  | inl t ↦ rw t refl
  | inr f ↦ simp (f, m, eq_bytes)
]

post-route :
    (s : HttpServer) (req : HttpRequest) (resp : HttpResponse)
    → req.method ≡ codes "POST"
    → route_by_method s req resp ≡ dispatcher req resp s.post_route
unfolding route_by_method eq_bytes
post-route s req resp m = simp (m, eq_bytes)

All-snoc {ℓ κ} :
    {A : Type ℓ} (P : A → Type κ) (x : A) (xs : List A) → All P xs → P x → All P (xs ++ x ∷ [])
All-snoc P x [] h p = (p, tt)
All-snoc P x (y ∷ xs) h p = (h.0, All-snoc P x xs (h.1) p)

dispatcher-last :
    (req : HttpRequest) (resp : HttpResponse) (before : Handlers) (re : Pattern) (f : Handler)
    → All (λ h. h.0 req.path ≡ none) before
    → dispatcher req resp (before ++ (re, f) ∷ []) ≡ answer (re req.path) f req resp
dispatcher-last req resp before re f h = elim (Option-cases (re req.path)) [
  | inl e ↦ rw e (
      dispatcher-none req resp (before ++ (re, f) ∷ [])
        (All-snoc (λ (h : Pattern × Handler). h.0 req.path ≡ none) (re, f) before h e))
  | inr (matches, e) ↦ rw e (dispatcher-first req resp before [] re f matches h e)
]

-- A POST request whose path no pattern of an earlier handler matches is answered by a handler that is
-- registered last, with what its pattern has matched, if it matches the path, and with status 404 if
-- it does not.
pub route-register_post :
    (fs : Files) (s : HttpServer) (req : HttpRequest) (resp : HttpResponse) (re : Pattern)
    (f : Handler)
    → req.method ≡ codes "POST"
    → All (λ h. h.0 req.path ≡ none) s.post_route
    → route fs (register_post s re f) req resp ≡ ok (answer (re req.path) f req resp)
unfolding route register_post
route-register_post fs s req resp re f m h =
    let s' = register_post s re f in
    rw (post-no_file fs s' req m, post-route s' req resp m)
      (ap ok (dispatcher-last req resp s.post_route re f h))

is_file_handler_total :
    (fs : Files) (s : HttpServer) (req : HttpRequest)
    → (b : Bool) × (is_file_handler fs s req ≡ ok b)
unfolding is_file_handler
is_file_handler_total fs s req =
    let (b, e) = valid_path_total req.path in
    elim (Bool-cases (length s.basedir == 0)) [
      | inl t ↦ (false, rw t refl)
      | inr f ↦
          elim (Bool-cases
            (not (eq_bytes req.method (codes "GET")) && not (eq_bytes req.method (codes "HEAD")))) [
              | inl t ↦ (false, rw (f, t) refl)
              | inr g ↦
                  ((if b then fs.is_regular (file_name s req.path) else false), rw (f, g, e) refl)
            ]
    ]

-- Route always returns a response.
pub route_total :
    (fs : Files) (s : HttpServer) (req : HttpRequest) (resp : HttpResponse)
    → (r : HttpResponse) × (route fs s req resp ≡ ok r)
unfolding route
route_total fs s req resp =
    let (b, e) = is_file_handler_total fs s req in
    ((if b then file_handler fs s req resp else route_by_method s req resp), rw e refl)
