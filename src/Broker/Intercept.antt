-- ===== src/Broker/Intercept.antt =====
-- `handle` of glidepath/broker/cmd/token-review-interceptor/main.go: which events the broker's
-- EventListener lets through, and for which namespace.
pub mod Identity
use glidepath.Prelude.{ℕ, String, List, [], ◌∷◌, Option, some, none, ◌==◌, if◌then◌else◌}
use glidepath.Broker.Names.{equal_fold}
use glidepath.Broker.Tokens.{Cluster, caller_namespace}

-- `interceptorRequest`: the headers in the order in which the map is ranged over, and the audience
-- parameter, "" where it is no text.
pub record InterceptorRequest : Type 0 where
  pub headers : List (String × List String)
  pub audience : String

-- The gRPC code of a refusal, or the namespace that goes on with the event.
pub data InterceptorReply : Type 0 where
  stops : ℕ → InterceptorReply
  continues : String → InterceptorReply

-- `firstHeader`.
unfoldable pub first_header : List (String × List String) → String → String
first_header [] key = ""
first_header ((k, []) ∷ hs) key = first_header hs key
first_header ((k, v ∷ vs) ∷ hs) key =
    let rest = first_header hs key in if equal_fold k key then v else rest

abbrev pub audience_of : InterceptorRequest → String
audience_of r = if r.audience == "" then "cdevents-broker" else r.audience

abbrev pub intercepted : Option String → InterceptorReply
intercepted none = stops 16
intercepted (some ns) = continues ns

unfoldable pub handle : Cluster → Option InterceptorRequest → InterceptorReply
handle cl none = stops 3
handle cl (some r) =
    intercepted (caller_namespace cl (first_header r.headers "Authorization") (audience_of r))
