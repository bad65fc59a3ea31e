-- ===== src/Health/Tests.antt =====
-- Error reports of one provider.
