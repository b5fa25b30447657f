-- ===== src/Rudp.antt =====
-- The reliable datagrams of src/rudp.c: a stop-and-wait protocol with an alternating bit, three
-- frames to a message (MESSAGE, ACK, ACK_ACK).
pub mod Tables
pub mod Net
pub mod Wait
pub mod Protocol
mod Examples
mod Exchanges
