-- ===== src/Tests/Convert.antt =====
-- The conversions over a concrete model of Python objects.
pub mod Codec
pub mod Objects
pub mod RoundTrips
