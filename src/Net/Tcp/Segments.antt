-- ===== src/Net/Tcp/Segments.antt =====
-- The segments of net/tcp.c: their checksum verifies over the pseudo-header.
