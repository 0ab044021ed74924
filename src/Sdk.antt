-- ===== src/Sdk.antt =====
-- The client library (pkg/sdk): its checks in front of a call, the intent that each call sends, and
-- the loop of ListHolds. The calls over the network are left out; a call that the checks refuse
-- sends nothing.
pub mod Client
pub mod Agreement
pub mod Listing
