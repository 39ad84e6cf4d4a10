-- ===== src/Lib.antt =====
-- Transparent data encryption for PostgreSQL: pg_tde encrypts the data of heap tuples in their pages.
--
-- Each relation has a key of its own. It is kept in a file beside the relation, encrypted with a
-- master key that the keyring provides from a key file or a Vault server. A byte of tuple data is
-- XORed with a keystream byte that depends on the relation's key and on the byte's position in the
-- relation file alone, so a tuple can be read by itself and has to be re-encrypted when it moves.
-- Key files are created and dropped inside transactions, so their deletion waits for the end.
--
-- Base: shared names, Boolean tests, lists, bits and byte-addressed memory.
-- Aes: src/encryption/enc_aes.c. `aes_run2` is `AesRun2`, `aes128_encrypted_zero_blocks` is
--   `Aes128EncryptedZeroBlocks`. OpenSSL's ECB mode and what C leaves undefined are a `Platform`.
-- Crypt: src/encryption/enc_tuple.c, `pg_tde_crypt` and `pg_tde_move_encrypted_data`. The state is
--   memory and the key's cached context; a fault is none.
-- Tuple: the rest of enc_tuple.c and the macros of src/include/encryption/enc_tuple.h:
--   `PGTdePageAddItemExtended`, `pg_tde_crypt_tuple` and the two routines that fill slots.
-- Xact: src/transam/pg_tde_xact_handler.c. The state is the list of pending deletions and the paths
--   unlinked so far.
-- Keyring: src/keyring/keyring_api.c, keyring_file.c and keyring_vault.c. The state is the cache, the
--   key file and the configuration; an `elog(ERROR)` and a write past the cache are outcomes.
-- KeyFork: src/access/pg_tde_tdemap.c. The state is the backend's: keyring, files, cached keys, pending
--   deletions and WAL records. It uses Keyring and Xact as the code does.
-- VisibilityMap: src/access/pg_tde_visibilitymap.c, with `log_pg_tde_visible` of
--   src/access/pg_tdeam.c. The state is the map's fork and the log.
-- Visibility: src/access/pg_tdeam_visibility.c, `SetHintBits`, `HeapTupleSatisfiesToast` and
--   `HeapTupleSatisfiesMVCC`. Its children have the routine of their name: Self, Update, Dirty, Vacuum
--   (`HeapTupleSatisfiesVacuum`, `VacuumHorizon`, `NonVacuumable`, `HeapTupleIsSurelyDead`) and Historic. A
--   header is a record of what the server's macros read from it; the server's view of transactions is
--   `Transactions`. A routine returns its answer with the header after its hint bits.
-- Prune: the compaction of a page in src/access/pg_tde_prune.c. `compactify_tuples` is
--   `pgtde_compactify_tuples`, as a plan of steps that `run_plan` carries out on memory; Repair has
--   `TdePageRepairFragmentation`.
-- Hot: the pruning of HOT chains in src/access/pg_tde_prune.c. The root has the line pointers, what a prune records
--   (`PruneState`) and `heap_prune_satisfies_vacuum`; Chain has `heap_prune_chain`, a walk along the
--   chain and what is done with its root; Page has `pg_tde_page_prune`, `pg_tde_page_prune_execute` and the replay
--   `pg_tde_xlog_prune` of src/access/pg_tdeam.c; Roots has `pg_tde_get_root_tuples`. The page's
--   compaction is Prune's.
-- Freeze: the freezing of rows in src/access/pg_tdeam.c. Multi has `FreezeMultiXactId`; Prepare has
--   `pg_tde_prepare_freeze_tuple` with the execution and checks of a plan; Plans has the plans of the log record,
--   their grouping and their replay. The server's transactions and multixacts are a `FreezeServer`.
-- Vacuum: src/access/pg_tde_vacuumlazy.c. The root has `lazy_scan_skip` and the choice of pages in
--   `lazy_scan_heap`; Page has `pg_tde_page_is_all_visible`, `lazy_vacuum_pg_tde_page` and the replay
--   `pg_tde_xlog_vacuum` of src/access/pg_tdeam.c; SecondPass has `lazy_vacuum_pg_tde_rel`. The rules of
--   visibility are Visibility's, the need of freezing is Freeze's.
-- RowLock: the locking of rows in src/access/pg_tdeam.c. The root has the tables of lock strengths;
--   Members has `GetMultiXactIdHintBits`, `MultiXactIdGetUpdateXid`, `DoesMultiXactIdConflict`,
--   `Do_MultiXactIdWait` and `test_lockmode_for_conflict`; Xmax has `compute_new_xmax_infomask`;
--   Infobits has `compute_infobits`, `fix_infomask_from_infobits` and `xmax_infomask_changed`. The
--   server's transactions and multixacts are a `Server`.
-- HeapScan: sequential scans in src/access/pg_tdeam.c: `pg_tde_setscanlimits`,
--   `pg_tde_gettup_initial_block` and `pg_tde_gettup_advance_block`; Gettup has `pg_tde_gettup` and the two
--   routines that start and continue a page. The table does not change during a scan.
-- Tests: the theorems at concrete inputs.
--
-- Fuel: the counter loop has 101 rounds, one more than fit its buffer. The batch loops have the data
-- length divided by 1600, plus 3 and plus 2 rounds, for batches of 1600 bytes of which the first may
-- be short. The loops over key versions take any fuel above the number of cached keys; the key forks
-- use 1026, since the cache has 1024 places. A scan takes as many rounds as its limit or table has
-- blocks. The walk along a HOT chain has room for 291 tuples, as `chainitems` has, which is enough where a rank
-- below 291 falls along the chains of a page; the second pass of vacuum takes as many rounds as there are dead items.
--
-- Not modelled: OpenSSL, HTTP, JSON and base64 (parameters); allocation, locks and shared memory;
-- AES-CBC as code (a parameter of KeyFork); `pg_tde_visibilitymap_count`; TOAST; when to prune
-- (`pg_tde_page_prune_opt`); the first pass of vacuum within a page, its indexes, truncation and failsafe, and in its second
-- pass the asserts on dead items; calls of OpenSSL that fail while the keystream is made;
-- rewriting; the table access method; and of the heap operations insertion, update and deletion.
pub mod Base
pub mod Aes
pub mod Crypt
pub mod Tuple
pub mod Xact
pub mod Keyring
pub mod KeyFork
pub mod Vacuum
pub mod VisibilityMap
pub mod Visibility
mod Tests
pub mod Hot
pub mod Freeze
pub mod HeapScan
pub mod Prune
pub mod RowLock
