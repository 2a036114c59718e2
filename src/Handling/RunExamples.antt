-- ===== src/Handling/RunExamples.antt =====
-- A run of one round: two bytes are programmed, and the pool has lost its two packets.
