-- ===== src/Guest/Responses.antt =====
-- The packed return value of the guest.

