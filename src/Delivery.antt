-- ===== src/Delivery.antt =====
-- app/http/delivery_status.go: the byte ranges that the HTTP server has delivered of one download
-- link. `Ranges` is the union of ranges, `Record` the update of a stored link.
pub mod Ranges
pub mod Record
pub mod Examples
