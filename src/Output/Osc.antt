-- ===== src/Output/Osc.antt =====
-- src/output/osc_consumer.h and osc_consumer.cpp: the OSC sender, its messages and its worker.
pub mod Message
pub mod Worker
pub mod Tests
