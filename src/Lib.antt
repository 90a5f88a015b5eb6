-- ===== src/Lib.antt =====
-- Parts of the kernel and of SHARE of Burdah DOS, a DOS for 16-bit PCs.
--
-- Each part is a tree of modules. Its root holds the state and the operations, the modules below hold
-- the theorems; the modules called Tests hold runs and instances of the theorems.
--
-- - Base: what the parts share: Boolean tests on numbers, lists measured by native numbers.
-- - Mem, kernel/memmgr.c: the arena of control blocks (MCBs). `Memory` maps a segment to the header at
--   it; `Mem` has joinMCBs (`join_mcbs`), `Mem.Alloc` has DosMemAlloc (`dos_mem_alloc`) and
--   DosMemLargest (`dos_mem_largest`), `Mem.Blocks` has DosMemFree, DosMemChange, DosMemCheck,
--   DosUmbLink and FreeProcessMem. `Mem.Chain` says when the headers form a chain. A loop over headers
--   has as fuel the 0x10000 segments of an address space: each header of a chain takes at least one
--   segment. A search restarts at most once, since the restart clears the bit that asks for it.
-- - Share, share/src/share.c: the resident part behind the multiplex interrupt. `Share` has the tables
--   and open_check and close_file, `Share.Rules` the two tables of share rules, `Share.Locks` the locked
--   regions and inner_handler. The table of files and the table of locks are lists, as long as the
--   tables; a result is the pattern of AX, and a critical error is reported in the result.
-- - Cache, kernel/blockio.c: `Cache` has searchblock, getblk, flush1, flush_buffers, flush, setinvld,
--   DeleteBlockInBufferCache and dirty_buffers on the ring of buffers, a list with `firstbuf` as its
--   head, and on `Drives`, what the cache uses of dskxfer. `Cache.Transfer` has dskxfer itself between a
--   driver and the critical error handler; its fuel bounds how often the handler may ask for another
--   try. `Cache.Transfer.Filled` fills `Drives` with dskxfer for a driver that does what it reports and a
--   handler that never answers CONTINUE, which dskxfer takes for a success; the theorems on the cache
--   are on `Drives`.
-- - Handles, kernel/dosfns.c with parts of kernel/newstuff.c and kernel/task.c: `Handles` has the file
--   table of a process and the system file table (idx_to_sft, get_free_sft, get_sft, get_free_hndl, SetJFTSize), `Handles.Calls`
--   DosClose, DosDup, DosForceDup, CloneHandle and what child_psp does to handles, the loop of return_user
--   that closes them and its return to the parent,
--   `Handles.Open` DosOpen, `Handles.Seek` DosSeek. The file system, the redirector, SHARE and the
--   drivers are a parameter, `Services`, which keeps the counts of the table.
-- - Fcb, kernel/fcbfns.c: FcbParseFname with GetNameField and ParseSkipWh, and the record numbers
--   (FcbNextRecord, FcbSetRandom, FcbCalcRec). A text is the list of its bytes; upper casing and the
--   list of drives are parameters.
-- - Fat, kernel/fattab.c: `Fat.Entry` has the encodings of an entry in the bytes of a sector, `Fat.Link`
--   has getFATblock, read_fsinfo, write_fsinfo, link_fat, next_cluster and is_free_cluster on a
--   `Volume`, which holds the drive's parameters and the buffer that getblock finds for a sector.
-- - Files, kernel/fatfs.c: the clusters of files. `Files` has getdstart, setdstart, clus2phys,
--   wipe_out_clusters, wipe_out and find_fat_free, `Files.Map` has extend, map_cluster and shrink_file,
--   `Files.Space` dos_free, `Files.Geometry` bpb_to_dpb with dpb16to32. `Files.Chain` says when
--   clusters are a chain, `Files.Table` what the theorems rely on of link_fat; `Files.Table.Sixteen` shows it for FAT16 volumes whose sectors can be read, and
--   `Files.Table.ThirtyTwo` for FAT32 ones whose sector of the counts is apart from the table. The
--   loop of wipe_out_clusters has two rounds more than the highest number of a cluster, and each but
--   the last frees one; the one of find_fat_free has as many, and it goes once through the clusters; the one of
--   map_cluster takes a step for each cluster of the distance. flush_buffers is a parameter here, of which is used that one that succeeds changes no entry.
-- - Dir, kernel/syspack.c: `getdirent` and `putdirent` on the bytes of a directory entry, of a build with
--   NONNATIVE (MC68K); the I86 kernel copies the structure instead. The routines
--   for words and long words in bytes, in `Fat.Entry`, are those of the same file; a native build uses
--   the processor's own of the same layout.
-- - Time, kernel/systime.c, kernel/sysclk.c, kernel/initclk.c: `Time.Calendar` has the count of days and the way
--   back, `Time.Clock` the clock driver, `Time.Clock.Calls` DosGetTime, DosSetTime, DosGetDate and
--   DosSetDate, `Time.Clock.Init` the setting of the clock at start-up. The days
--   that a `UWORD` counts are less than 200 years, which is the bound of the loops.
--
-- `Files` calls `Fat`, and the other parts meet through parameters only: the kernel reaches SHARE
-- through an interrupt, `Fat` reads sectors through getblock, and the code that calls the other parts, kernel/inthndlr.c, is not modelled.
--
-- Not modelled: messages to the console, headers at offsets other than 0 of a segment, file names of
-- 128 bytes and more, the placing of the buffers in memory (AllocateHMASpace), the entries of
-- directories in kernel/fatfs.c and kernel/fatdir.c, the contents of files (dos_extend,
-- rwblock), REM_CLOSEALL and FcbCloseAll at the end of a process, the count of midnights
-- that ReadPCClock adds to the days, what a write past the end of the file table of SHARE leaves, reads and writes of files (DosRWSft) and of records of an FCB, and the pointers lpCurSft and current_sft_idx, which are kept for
-- the redirector. Sectors that cannot be read make read_fsinfo and write_fsinfo go on with a null
-- pointer; there the model leaves the volume as it is.
pub mod Base
pub mod Mem
pub mod Share
pub mod Cache
pub mod Handles
pub mod Fcb
pub mod Fat
pub mod Files
pub mod Dir
pub mod Time
