-- ===== src/Agent/Handler/Exchange.antt =====
-- A request for a signature and its answer, between an agent that asks and one that is asked.
