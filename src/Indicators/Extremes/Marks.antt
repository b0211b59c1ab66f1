-- ===== src/Indicators/Extremes/Marks.antt =====
-- src/Indicator.cpp: the entries of `AROON` against the extremes of each window
use cipher_trader.Double.{Double}
