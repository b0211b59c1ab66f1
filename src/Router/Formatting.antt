-- ===== src/Router/Formatting.antt =====
-- `Router`: the routes that are set, and why they cannot be formatted.
use cipher_trader.Prelude.{
  suc, ◌+◌, ◌<◌, ◌≡◌, refl, sym, Option, none, some, List, [], ◌∷◌, ◌++◌, length, Result, ok, err,
  bad_optional_access, arith, All, All-append, length-append, or_fail, and_then,
}
use cipher_trader.Timeframes.{Timeframe}
use cipher_trader.Router.{
  Router, Route, RouteConfig, construct_route, reset, format_route, format_routes, formatted_routes,
  add_routes, set_routes, init, set_data_candles, parse_timeframe, and_data,
}

-- A route that has no strategy
abbrev pub NoStrategy : Route → Type 0
NoStrategy r = r.strategy ≡ none

abbrev with_route : RouteConfig → Option Timeframe → Router → Router
with_route c t r = record r {
  routes = r.routes ++ (construct_route c.exchange_name c.symbol t c.strategy_name c.dna ∷ []);
}

-- The routes are old ones and one new one for each configuration, and all lack a strategy.
abbrev Grown : List RouteConfig → Router → Router → Type 0
Grown cs r t = All NoStrategy t.routes × (length t.routes ≡ length r.routes + length cs)

Grown-add_routes :
    (cs : List RouteConfig) (r t : Router)
    → All NoStrategy r.routes
    → add_routes cs r ≡ (ok tt, t)
    → Grown cs r t
unfolding add_routes construct_route
Grown-add_routes [] r t h e = let same : r ≡ t = ground (arith, e) in rw (sym same) (h, omega arith)
Grown-add_routes (c ∷ cs) r t h e =
    parsed (λ q n i. Grown-add_routes cs q t n i) (parse_timeframe c.timeframe) e
  where
    parsed :
        ((q : Router) → All NoStrategy q.routes → add_routes cs q ≡ (ok tt, t) → Grown cs q t)
        → (o : Result (Option Timeframe))
        → elim o [ err u ↦ (err u, r) | ok v ↦ add_routes cs (with_route c v r) ] ≡ (ok tt, t)
        → Grown (c ∷ cs) r t
    parsed rest (err u) e = ground (arith, e)
    parsed rest (ok v) e =
        let (n, l) =
          rest (with_route c v r)
            (All-append NoStrategy r.routes
              (construct_route c.exchange_name c.symbol v c.strategy_name c.dna ∷ []) h (refl, tt))
            e in
        (
          n,
          omega (
            arith,
            l,
            length-append r.routes
                (construct_route c.exchange_name c.symbol v c.strategy_name c.dna ∷ []),
          ),
        )

NoStrategy-format :
    (rs : List Route)
    → All NoStrategy rs
    → 0 < length rs
    → format_routes rs ≡ err bad_optional_access
unfolding format_routes format_route
NoStrategy-format [] h l = ground (arith, l)
NoStrategy-format (r ∷ rs) (h, hs) l = timed r.timeframe h
  where
    timed :
        (o : Option Timeframe)
        → r.strategy ≡ none
        → and_then
            (and_then (or_fail o bad_optional_access) λ t.
              and_then (or_fail r.strategy bad_optional_access) λ s. ok (record {
                exchange_name = r.exchange_name;
                symbol = r.symbol;
                timeframe = t;
                strategy = s;
              }))
            (λ f. and_then (format_routes rs) λ fs. ok (f ∷ fs))
          ≡ err bad_optional_access
    timed none h = refl
    timed (some t) h = rw h refl

-- A router that was set up without an exception has one route for each configuration, in place of all
-- that it had before, and the data routes that it was given. Its routes cannot be formatted: where
-- there is at least one, `formattedRoutes` throws, since no route has a strategy.
pub set_routes_lack_strategy :
    (c : RouteConfig) (cs data_routes : List RouteConfig) (r t : Router)
    → init (c ∷ cs) data_routes r ≡ (ok tt, t)
    → (length t.routes ≡ suc (length cs))
      × (t.data_candles ≡ data_routes)
      × (formatted_routes t ≡ err bad_optional_access)
unfolding init set_routes reset set_data_candles formatted_routes
set_routes_lack_strategy c cs data_routes r t e = added (add_routes (c ∷ cs) (reset r)) refl e
  where
    added :
        (o : Result (Unit {0}) × Router)
        → add_routes (c ∷ cs) (reset r) ≡ o
        → and_data data_routes o ≡ (ok tt, t)
        → (length t.routes ≡ suc (length cs))
          × (t.data_candles ≡ data_routes)
          × (formatted_routes t ≡ err bad_optional_access)
    added (err u, s) g e = ground (arith, e)
    added (ok u, s) g e =
        let (n, l) = Grown-add_routes (c ∷ cs) (reset r) s tt g in
        let same : record s { data_candles = data_routes } ≡ t = ground (arith, e) in
        rw (sym same) (omega (arith, l), refl, NoStrategy-format s.routes n (omega (arith, l)))
