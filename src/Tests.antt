-- ===== src/Tests.antt =====
-- A small library that behaves as OpenSSL is documented to, over a group of three elements, and the
-- theorems at inputs where their hypotheses hold.
mod Octets
mod Toy
mod Examples
mod Returning
mod Nonces
mod Texts
mod Protocols
mod Exchange
mod Checks
mod Encodings
mod Pointers
