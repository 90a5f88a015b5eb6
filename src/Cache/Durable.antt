-- ===== src/Cache/Durable.antt =====
-- kernel/blockio.c: what flushing the buffers leaves on the drives.
use burdah_dos_system.Cache.{Cache}
use burdah_dos_system.Cache.Coherent.{Coherent}
