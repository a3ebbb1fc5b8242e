-- ===== src/CpuTimes.antt =====
-- The kernel module that keeps the CPU times of registered processes,
-- Computer_Science-360/lab4/kmlab.c and kmlab_given.h.
pub mod Module
mod Registry
mod Tests
