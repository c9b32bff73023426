-- ===== src/Ether/RoundTrip.antt =====
-- Reading back the text that `ether_format_addr` writes.
