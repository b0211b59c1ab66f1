-- ===== src/Router.antt =====
-- include/Route.hpp and src/Route.cpp: `Router`. A JSON object with the fields of a route is a record,
-- in which a field can be missing; fields of a wrong type are left out.
pub mod Formatting
use cipher_trader.Prelude.{
  ℕ, Option, none, some, List, [], ◌∷◌, ◌++◌, ltb, if◌then◌else◌, Text, String, Result, ok, err,
  bad_optional_access, invalid_argument, runtime_error, and_then, or_fail, get_elem?, M, ◌>>◌,
}
use cipher_trader.Enums.{ExchangeName}
use cipher_trader.Timeframes.{Timeframe, to_timeframe}

-- A route of the configuration, in JSON
pub record RouteConfig : Type 0 where
  pub exchange_name : ExchangeName
  pub symbol : Text
  pub timeframe : Option String
  pub strategy_name : Option Text
  pub dna : Option Text

pub record Route : Type 0 where
  pub exchange_name : ExchangeName
  pub symbol : Text
  pub timeframe : Option Timeframe
  pub strategy_name : Option Text
  pub strategy : Option Text
  pub dna : Option Text

-- A formatted route; a data route has the text of its timeframe.
pub record FormattedRoute : Type 0 where
  pub exchange_name : ExchangeName
  pub symbol : Text
  pub timeframe : Timeframe
  pub strategy : Text

pub record FormattedDataRoute : Type 0 where
  pub exchange_name : ExchangeName
  pub symbol : Text
  pub timeframe : Option String

pub record Router : Type 0 where
  pub routes : List Route
  pub data_candles : List RouteConfig
  pub market_data : List Route

-- The constructor leaves the strategy empty.
unfoldable pub construct_route :
    ExchangeName → Text → Option Timeframe → Option Text → Option Text → Route
construct_route exchange_name symbol timeframe strategy_name dna = record {
  exchange_name = exchange_name;
  symbol = symbol;
  timeframe = timeframe;
  strategy_name = strategy_name;
  strategy = none;
  dna = dna;
}

unfoldable pub reset : Router → Router
reset r = record { routes = []; data_candles = []; market_data = [] }

unfoldable pub format_route : Route → Result FormattedRoute
format_route r = and_then (or_fail r.timeframe bad_optional_access) λ t.
    and_then (or_fail r.strategy bad_optional_access) λ s.
      ok
        (record { exchange_name = r.exchange_name; symbol = r.symbol; timeframe = t; strategy = s })

pub format_routes : List Route → Result (List FormattedRoute)
format_routes [] = ok []
format_routes (r ∷ rs) =
    and_then (format_route r) λ f. and_then (format_routes rs) λ fs. ok (f ∷ fs)

unfoldable pub formatted_routes : Router → Result (List FormattedRoute)
unfolding format_routes
formatted_routes r = format_routes r.routes

pub formatted_data_routes : List RouteConfig → List FormattedDataRoute
formatted_data_routes [] = []
formatted_data_routes (r ∷ rs) =
    record { exchange_name = r.exchange_name; symbol = r.symbol; timeframe = r.timeframe }
    ∷ formatted_data_routes rs

-- The routes, then the data routes
unfoldable pub all_formatted_routes :
    Router → Result (List FormattedRoute × List FormattedDataRoute)
unfolding formatted_data_routes formatted_routes
all_formatted_routes r =
    and_then (formatted_routes r) λ fs. ok (fs, formatted_data_routes r.data_candles)

abbrev parse_timeframe : Option String → Result (Option Timeframe)
parse_timeframe none = ok none
parse_timeframe (some s) = and_then (to_timeframe s) λ t. ok (some t)

-- The loop of `setRoutes`: an unknown timeframe throws, with the routes before it kept.
unfoldable pub add_routes : List RouteConfig → M Router (Unit {0})
unfolding construct_route
add_routes [] r = (ok tt, r)
add_routes (c ∷ cs) r = elim (parse_timeframe c.timeframe) [
  | err e ↦ (err e, r)
  | ok t ↦ add_routes cs (record r {
    routes = r.routes ++ (construct_route c.exchange_name c.symbol t c.strategy_name c.dna ∷ []);
  })
]

unfoldable pub set_routes : List RouteConfig → M Router (Unit {0})
unfolding add_routes reset
set_routes cs r = add_routes cs (reset r)

unfoldable pub set_data_candles : List RouteConfig → Router → Router
set_data_candles cs r = record r { data_candles = cs }

abbrev and_data : List RouteConfig → Result (Unit {0}) × Router → Result (Unit {0}) × Router
and_data cs (ok tt, r) = (ok tt, set_data_candles cs r)
and_data cs (err e, r) = (err e, r)

unfoldable pub init : List RouteConfig → List RouteConfig → M Router (Unit {0})
unfolding set_routes
init cs data_routes r = and_data data_routes (set_routes cs r)

unfoldable pub get_route : ℕ → Router → Result Route
get_route index r = or_fail (get_elem? r.routes index) invalid_argument
