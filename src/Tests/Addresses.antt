-- ===== src/Tests/Addresses.antt =====
-- The allocation of an address at a concrete server, whose own address is the first of its subnet.
