-- ===== src/Lib.antt =====
-- Cipher Trader: a trading framework in C++ for back tests and live trading. This library models
-- the part of it that decides what happens to orders and balances, and the containers and helpers
-- below.
--
-- The parts and how they interact. A strategy places orders through a broker (class Broker of
-- src/Broker.cpp), which hands them to the driver of an exchange (class Api of src/Api.cpp). The
-- drivers of a back test are sandboxes. The sandbox (class Sandbox of src/Exchange.cpp) makes them
-- and puts them into the order book of the program (class OrdersState of src/Order.cpp), which
-- keeps for each exchange and symbol the list of all orders and the list of the active ones, and a
-- queue of market orders that are executed at the end of a candle. An order (class Order of
-- include/DB.hpp and src/DB.cpp) moves between its statuses by queueIt, resubmit, cancel, execute
-- and executePartially. The spot exchange (class SpotExchange of src/Exchange.cpp) is told of each
-- submission, execution and cancellation, and keeps the balances of the assets and the sums of the
-- open sell orders; the futures exchange (class FuturesExchange) keeps its balance, its margin and
-- the arrays of its open orders. A position (class Position of src/Position.cpp) is told of each
-- executed order and reports its profits and fees to its exchange. What the orders of a position
-- amount to is recorded as a closed trade (class ClosedTrade of src/DB.cpp, ClosedTradesState of
-- src/Trade.cpp). The router (src/Route.cpp) says which symbols are traded. The rolling data of
-- candles, trades and tickers, and the open orders of the futures exchange, stand in
-- DynamicBlazeArray (src/DynamicArray.cpp), a matrix that grows by rows and can drop its oldest
-- ones.
--
-- Which file models what:
-- - Enums: include/Enum.hpp, src/Enum.cpp. Data types, printers and parsers; RoundTrip relates
--   them.
-- - Timeframes: include/Timeframe.hpp, src/Timeframe.cpp.
-- - DynamicArray: the array. The record has count for index_ + 1; append, deleteRow, operator[],
--   operator() and the rest are the functions of the same names in snake case. View, Append,
--   Multiple, Rolling, Delete and Read relate them to the list of rows.
-- - Helper: the functions of src/Helper.cpp that the core calls: Decimal
--   (addFloatsMaintainPrecesion, subtractFloatsMaintainPrecesion), Sides, Symbols (getBaseAsset,
--   getQuoteAsset, makeKey), Search (binarySearch), Insert (insertList), Qty (prepareQty,
--   isPriceNear), Levels (findOrderbookInsertionIndex, cleanOrderbookList), Fill (forwardFill),
--   Dashes (dashySymbol, dashlessSymbol; the configured symbols are a parameter).
-- - Order: the class Order. Machine has its life as a step relation, Remaining its remaining
--   quantity.
-- - Orders: the class OrdersState. The state has a heap of orders, since the lists share them; a
--   reference is an index of the heap. Steps has the calls as a step relation.
-- - Exchange: the base class, Exchange.Spot with its balances, Exchange.Sandbox, Exchange.Futures.
--   The mutex of the futures exchange is part of its state: a call that locks it twice has the
--   outcome relock, which stands for one
--   that does not return, and leaves it locked.
-- - Position: the class Position of src/Position.cpp, with updateQty and the tests of a position.
--   Position.Moves has close, reduce, increase, open and onExecutedOrder; Helper.Estimates has the
--   estimateAveragePrice and estimatePNL that they call. Position.Figures has getPnl, getRoi,
--   getLiquidationPrice and the other figures that reports show.
-- - Api, Broker: the classes of the same names. The calls of the broker change the order book.
-- - Router: src/Route.cpp, with a JSON object as a record of its fields.
-- - Cache: src/Cache.cpp, with its files as part of the state; what an attempt to write a file
--   leaves of them is an argument. Cache.Memo is the function cached.
-- - Tickers: src/Ticker.cpp. Trades: the class TradesState of src/Trade.cpp. Orderbooks:
--   src/Orderbook.cpp.
-- - Candles: src/Candle.cpp, with the generator of test candles in Candles.Fake and CandlesState
--   outside live mode in Candles.Store, its reads in Candles.Store.Reading.
-- - Indicators: src/Indicator.cpp. Averages has SMA (checked_sma), SMMA, ACOSC, AO and ALLIGATOR;
--   Extremes has AROON and AROONOSC; Volume has AD and ADOSC; Direction has ADX and ADXR; Weighted
--   has ALMA.
-- - ClosedTrades: the class ClosedTrade, with ClosedTradesState in ClosedTrades.Recording.
-- - Prelude: shared helpers. Tests: concrete instances and examples.
--
-- How code becomes definitions. A method that changes its object is a function from the state to
-- the state, with a result if it can throw; an exception keeps what was written before it, as in
-- the code. Each method of the spot exchange and of the order book runs under one lock or in one
-- thread, so that a history of the program is a sequence of calls: the step relations allow every
-- sequence.
--
-- Parameters. The arithmetic of double is the record Double, with the rules of IEEE 754 that the
-- proofs use in IsIeee; they hold for infinities and NaN too. The decimal numbers of Boost are
-- Decimals, and the matrices of Blaze are Blaze, with their documented behaviour in IsDecimal and
-- IsBlaze. Tests has an instance of each. The rules for NaN are PropagatesNan. The exchange of a
-- position is the record PositionExchange, and the conversions between double and float are Casts.
-- The clock, random identifiers, configuration flags (live trading, unit tests), the answers of
-- positions, the conversion of integers to double and the sum, maximum and minimum of a vector of
-- Blaze, and std::exp, are arguments; the functions of <cmath> that round prices are the record
-- Rounding. What IEEE 754 says of the order of numbers is IsOrder and IsStrict, what Blaze says of
-- maximum and minimum is IsExtreme.
--
-- Bounds and fuel. Sizes and indices are taken to fit the int and size_t of the code, except where
-- a function uses the wrap-around on purpose (insertList, find). The search of binarySearch runs
-- on the length of the vector as fuel and has no result when that runs out; binary_search_correct
-- shows that it always has one. find_between, the loop of findOrderbookInsertionIndex, runs on one
-- round more than there are levels; insertion_index-Fits shows that it always gives a result. The
-- loop of find makes the number of rounds that the code makes.
--
-- Not modelled: the live stream of a position, the live part of the store of candles and its
-- thread, setMarketData of the router, the configuration; in Order the attribute map, the free-
-- form variables and the statements of the data base; logs and notifications, which change no
-- modelled state; input and output (data base, Redis, files, network), and the arbitrage tool.
pub mod Prelude
pub mod Double
pub mod Blaze
pub mod Enums
pub mod Timeframes
pub mod DynamicArray
pub mod Helper
pub mod Order
pub mod Orders
pub mod Exchange
pub mod Position
pub mod Router
pub mod Tickers
pub mod ClosedTrades
pub mod Api
pub mod Broker
pub mod Candles
pub mod Trades
pub mod Orderbooks
pub mod Cache
pub mod Indicators
pub mod Tests
