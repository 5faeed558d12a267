-- ===== src/Organization/Authority.antt =====
-- Who may change what: the effects of the organization service's methods, from the tables they start at.
pub mod Effects
pub mod Members
pub mod Departures
