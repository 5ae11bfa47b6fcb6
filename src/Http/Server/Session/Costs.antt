-- ===== src/Http/Server/Session/Costs.antt =====
-- What OnMessage keeps of a connection: how many rounds it takes, and which faults can end it.
use flux_a_high_performance.Prelude.{
  ◌+◌, ap, ℕ, ◌^◌, ◌≤◌, refl, Option, some, none, leb, length, Fault, assertion, overflow,
  null_pointer, uncaught, stuck, Result, ok, fault, ◌>>=◌, arith,
}
use flux_a_high_performance.Buffer.{Buffer}
use flux_a_high_performance.Buffer.Inv.{contents}
use flux_a_high_performance.Connection.Basics.{send_data}
use flux_a_high_performance.Connection.Inv.{Policy, WellFormed, Keeps, if-Keeps, send_data-Keeps}
use flux_a_high_performance.Http.Request.{HttpRequest}
use flux_a_high_performance.Http.Response.{HttpResponse, response_text}
use flux_a_high_performance.Http.Context.{HttpContext, reset}
use flux_a_high_performance.Http.Context.Progress.{Agreed}
use flux_a_high_performance.Http.Context.Bound.{reset-new_context, measure, weight, weight-ge}
use flux_a_high_performance.Http.Server.Session.{HttpConnection, make_response_on}

-- No assert fails, no null pointer is followed, and callbacks nest no deeper than the fuel; bytes can be too
-- many for a buffer, and std::stol can throw.
abbrev pub AllowsFault : Fault → Type 0
AllowsFault assertion = ⊥
AllowsFault overflow = Unit
AllowsFault null_pointer = ⊥
AllowsFault uncaught = Unit
AllowsFault stuck = ⊥

abbrev pub policy_of : (Option HttpContext → Buffer → Type 0) → Policy HttpContext
policy_of holds = record { Holds = holds; Allows = AllowsFault; overflows = tt; throws = tt }

-- There is a context, the status code of its request is in step with its state, and OnMessage ends within
-- `n` rounds.
abbrev pub Costs : ℕ → Option HttpContext → Buffer → Type 0
Costs n none b = ⊥
Costs n (some context) b = Agreed context.recv_status context.resp_status × (measure context b ≤ n)

abbrev pub http_policy : ℕ → Policy HttpContext
http_policy n = policy_of (Costs n)

-- With the context reset, the input is what counts.
abbrev pub InputWithin : ℕ → Option HttpContext → Buffer → Type 0
InputWithin n context b = length (contents b) + 1 ≤ n

abbrev pub Anything : Option HttpContext → Buffer → Type 0
Anything context b = Unit

pub Costs-InputWithin :
    (n : ℕ) (context : Option HttpContext) (b : Buffer)
    → Costs n context b
    → InputWithin n context b
Costs-InputWithin n none b h = absurd h
Costs-InputWithin n (some context) b h = omega (arith, h.1, weight-ge context.recv_status)

pub Costs-le :
    (m n : ℕ) (context : Option HttpContext) (b : Buffer)
    → m ≤ n
    → Costs m context b
    → Costs n context b
Costs-le m n none b le h = h
Costs-le m n (some context) b le h = (h.0, omega (arith, h.1))

pub reset-Costs :
    (n : ℕ) (context : HttpContext) (b : Buffer)
    → length (contents b) + 1 ≤ n
    → Costs n (some (reset context)) b
reset-Costs n context b h =
    let (s, r) = reset-new_context context in (rw (s, r) refl, omega (arith, ap weight s))

pub Keeps-le :
    (m n : ℕ) (r : Result HttpConnection)
    → m ≤ n
    → Keeps (http_policy m) r
    → Keeps (http_policy n) r
Keeps-le m n (fault why) le k = k
Keeps-le m n (ok c) le w = (w.0, w.1, (w.2.0, Costs-le m n c.context c.in_buffer le w.2.1))

pub next-Keeps :
    (H K : Option HttpContext → Buffer → Type 0) (f : HttpConnection → Result HttpConnection)
    (r : Result HttpConnection)
    → Keeps (policy_of H) r
    → ((c : HttpConnection) → WellFormed (policy_of H) c → Keeps (policy_of K) (f c))
    → Keeps (policy_of K) (r >>= f)
next-Keeps H K f (fault why) k h = k
next-Keeps H K f (ok c) k h = h c k

pub make_response_on-Keeps :
    (H : Option HttpContext → Buffer → Type 0) (c : HttpConnection) (req : HttpRequest)
    (resp : HttpResponse)
    → WellFormed (policy_of H) c
    → Keeps (policy_of H) (make_response_on c req resp)
unfolding make_response_on
make_response_on-Keeps H c req resp w =
    if-Keeps (policy_of H) (leb (2 ^ 63) (length (response_text req resp))) (fault uncaught)
      (send_data c (response_text req resp)) tt
      (send_data-Keeps (policy_of H) c (response_text req resp) w)
