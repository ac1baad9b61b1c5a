-- ===== src/Mqttpb/Server/Bounds.antt =====
-- mqttpb/server.go: error responses, whose status the wire carries in 32 bits.
