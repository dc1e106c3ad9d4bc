-- ===== src/Http/Router.antt =====
-- src/http/Router.cpp: rules by method, the first that matches. The regular expressions of the
-- standard library are parameters: `compiles` says whether a pattern is one, `regex_match` matches.
-- A handler makes a reply of the type `R`; `reply` is the one that carries a response and the context.
use linux_cpp_web_server.Common.{
  ℕ, Bool, true, false, ◌&&◌, Option, none, some, List, [], ◌∷◌, ◌++◌, if◌then◌else◌, ◌≡◌, refl,
  Bool-cases, Option-cases, inl, inr,
}
use linux_cpp_web_server.Common.Bytes.{Bytes, codes, bytes_eq, find_if, find_char}
use linux_cpp_web_server.Common.Maps
use linux_cpp_web_server.Common.Maps.{Eq, get-put}
use linux_cpp_web_server.Http.Request.{HttpRequest, HttpMethod, get, post, head, unknown}
use linux_cpp_web_server.Http.Response.{HttpResponse, make_error}

unfoldable pub method_beq : HttpMethod → HttpMethod → Bool
method_beq get get = true
method_beq post post = true
method_beq head head = true
method_beq unknown unknown = true
method_beq _ _ = false

pub method_beq_sound : (a b : HttpMethod) → method_beq a b ≡ true → a ≡ b
unfolding method_beq
method_beq_sound get get h = refl
method_beq_sound post post h = refl
method_beq_sound head head h = refl
method_beq_sound unknown unknown h = refl
method_beq_sound get post h = cc
method_beq_sound get head h = cc
method_beq_sound get unknown h = cc
method_beq_sound post get h = cc
method_beq_sound post head h = cc
method_beq_sound post unknown h = cc
method_beq_sound head get h = cc
method_beq_sound head post h = cc
method_beq_sound head unknown h = cc
method_beq_sound unknown get h = cc
method_beq_sound unknown post h = cc
method_beq_sound unknown head h = cc

pub method_beq_refl : (a : HttpMethod) → method_beq a a ≡ true
unfolding method_beq
method_beq_refl get = refl
method_beq_refl post = refl
method_beq_refl head = refl
method_beq_refl unknown = refl

instance abbrev pub method_key : Eq HttpMethod
method_key = record {
  beq = method_beq;
  beq_iff = λ a b. (method_beq_sound a b, λ e. rw e (method_beq_refl b));
}

-- The characters of `.*+?^${}()|[]\`.
abbrev specials : Bytes
specials = codes ".*+?^${}()|[]" ++ 92 ∷ []

unfoldable pub one_of : Bytes → ℕ → Bool
one_of cs c = elim (find_char c cs) [ none ↦ false | some i ↦ true ]

unfoldable pub is_regex_pattern : Bytes → Bool
unfolding one_of
is_regex_pattern path = elim (find_if (one_of specials) path) [ none ↦ false | some i ↦ true ]

pub record RouteRule (W R : Type 0) : Type 0 where
  pub pattern : Bytes
  pub handler : HttpRequest → W → R
  pub is_regex : Bool

module _ {W R : Type 0} (compiles : Bytes → Bool) (regex_match : Bytes → Bytes → Bool) where
  unfoldable pub make_rule : Bytes → (HttpRequest → W → R) → RouteRule W R
  make_rule path h = record {
    pattern = path;
    handler = h;
    is_regex = is_regex_pattern path && compiles path;
  }

  unfoldable pub rules_of :
      HttpMethod → List (HttpMethod × List (RouteRule W R)) → List (RouteRule W R)
  rules_of method routes = elim (Maps.get method routes) [ none ↦ [] | some rules ↦ rules ]

  unfoldable pub add_route :
      HttpMethod
      → Bytes
      → (HttpRequest → W → R)
      → List (HttpMethod × List (RouteRule W R))
      → List (HttpMethod × List (RouteRule W R))
  add_route method path h routes =
      Maps.put method (rules_of method routes ++ make_rule path h ∷ []) routes

  unfoldable pub rule_matches : RouteRule W R → Bytes → Bool
  rule_matches rule path =
      if rule.is_regex then regex_match path rule.pattern else bytes_eq path rule.pattern

  -- The loop over the rules of the method.
  unfoldable pub first_match : List (RouteRule W R) → Bytes → Option (RouteRule W R)
  first_match [] path = none
  first_match (rule ∷ rules) path =
      let later = first_match rules path in if rule_matches rule path then some rule else later

  unfoldable pub answer_of : (HttpResponse → W → R) → Option (RouteRule W R) → HttpRequest → W → R
  answer_of reply none req context = reply (make_error 404) context
  answer_of reply (some rule) req context = rule.handler req context

  unfoldable pub route_request :
      (HttpResponse → W → R) → List (HttpMethod × List (RouteRule W R)) → HttpRequest → W → R
  route_request reply routes req context = elim (Maps.get req.method routes) [
    | none ↦ reply (make_error 404) context
    | some rules ↦ answer_of reply (first_match rules req.path) req context
  ]

  pub answers :
      (reply : HttpResponse → W → R) (routes : List (HttpMethod × List (RouteRule W R)))
      (req : HttpRequest) (context : W)
      → route_request reply routes req context
        ≡ answer_of reply (first_match (rules_of req.method routes) req.path) req context
  unfolding route_request rules_of first_match answer_of
  answers reply routes req context = elim (Option-cases (Maps.get req.method routes)) [
    | inl e ↦ rw (route_request, rules_of, e) refl
    | inr (rules, e) ↦ rw (route_request, rules_of, e) refl
  ]

  pub rules_of-add_route :
      (method other : HttpMethod) (path : Bytes) (h : HttpRequest → W → R)
      (routes : List (HttpMethod × List (RouteRule W R)))
      → rules_of other (add_route method path h routes) ≡ (
          if method_beq method other
          then rules_of method routes ++ make_rule path h ∷ []
          else rules_of other routes)
  unfolding rules_of add_route
  rules_of-add_route method other path h routes = elim (Bool-cases (method_beq method other)) [
    | inl same ↦
        rw
          (
            add_route,
            rules_of,
            get-put method other (rules_of method routes ++ make_rule path h ∷ []) routes,
            same,
          )
          refl
    | inr ne ↦
        rw
          (
            add_route,
            rules_of,
            get-put method other (rules_of method routes ++ make_rule path h ∷ []) routes,
            ne,
          )
          refl
  ]
