-- ===== src/Nvme/InitTests.antt =====
-- The start of the NVMe controller at an input.
