-- ===== src/Lib.antt =====
-- The verification library of the remote file cache: a FUSE file system over HTTP and a cache
-- manager that keeps 64 KiB blocks of them under a cache root.
--
-- The programs and the file system call the cache manager through its C functions; in
-- fuse/fuse.cc a read of a local directory is also stored in the cache, and a release evicts;
-- over HTTP it asks the server for attributes and names, and for the bytes themselves.
-- `CacheManager::read` goes through the blocks of the range: the block store is asked first, then
-- the backend, then a file of the same name under the root; what came from outside is stored. The
-- policy is told of each block, and two blocks in a row queue a prefetch. A write merges its
-- bytes into the blocks, marks them in the bitmaps and copies them to the file under the root.
-- `evict_until_gb` takes blocks from the policy and deletes their objects. In the list below each
-- file is followed by the source that it models.
--
-- Base (with Base/): numbers, lists, tables, texts as lists of character codes, buffers as
--   functions from the index, and `Outcome`, the ways an operation ends (a value, an exception,
--   undefined behaviour, no more fuel).
-- Files: POSIX calls and std::filesystem, as the sources use them: files under whole paths,
--   directories, and a function that says which call on which path the system refuses and which
--   write stops short. `mkdir` fails and `fs::create_directories` throws where a file has the
--   name; what an `open` of a directory does is not modelled, so no path that is opened is taken
--   to be that of a directory. It is a model of documented behaviour, not of code.
-- Layout: cache/fs_layout.h. A path is its text; `to_string` has fuel for more digits than a
--   number has.
-- BlockStore: cache/block_store.cc; `read`, `write` and `delete_object` take the disk and yield
--   the next. BlockStore/Contents says what an object is: its present bytes.
-- Double: the operations of `double` that the policy uses, a parameter.
-- Lru: cache/policy/lru_policy.h and .cc. List cells have addresses, and the map holds those in
--   place of iterators.
-- TimePolicy: cache/policy/time_policy.h and .cc. A table stands for one order of iteration;
--   `now` is the clock.
-- ThreadPool: cache/thread_pool.h, .inl and .cc. A run is a list of events: a job is queued,
--   the destructor begins, a worker takes the step that it is due.
-- Bitmap: the bitmaps of cache/policy/metadata/metadata_store.cc: `markDirtyBlock`,
--   `flushBitmaps`, `persistBitmap` and `loadBitmap`.
-- Manager: cache/cache_manager.cc. `Env` holds what the program does not decide. Reading,
--   Writing and Eviction have the loops; the number of bytes asked for bounds the rounds of a
--   read or a write, the number of tracked blocks those of an eviction. Api has the C functions
--   over `g_cache`. Written and Overlay say what the writes leave of the objects, EndOfFile what
--   a read across the end of a file does, InFlight and Sequential what reads in order and
--   prefetch jobs do of one file, as a relation of steps: a read is one step, and any number of
--   jobs go on block by block between the reads. The mutex is held through `read`, `write` and
--   `flush_all`, so each is one function on the state; `evict_until_gb` runs without it and is
--   modelled where nothing runs beside it, a prefetch job one block at a time.
-- Http: backend/http_backend.cc. libcurl is a function from the options of a request to its
--   answer and the chunks of the body.
-- Fuse: fuse/fuse.cc. `Mount` holds its global variables and the disk, `System` what it calls.
--   Paths has the handlers that change names, Attributes those that answer questions, Transfer
--   those that move bytes, Main the command line. Json has the parsers, with fuel for one more
--   round than there are characters; Json/Server is the text that backend/local_server.py
--   answers.
-- Sqlite: SQLite as an interface, a record of functions and a record of laws about them, with a
--   database in memory (Sqlite/Memory) that has the laws.
-- Metadata: the records of cache/policy/metadata/metadata_store.cc over that interface.
--   `all_entries` has fuel for the rows and one step more.
-- FuseOps: fuse/fuse_ops.cc. The handlers are optional functions on a world of their own, and
--   the context of libfuse is beside it.
-- Legacy: cache/legacy_shims.cc, which is not in the build.
-- Program: main.cc. What it calls and no file defines is a parameter.
-- Trials: test_cache.cc, test_eviction.cc and test_read.cc, with the lines that they print.
-- Tests: test data and the theorems at work on it.
--
-- Not modelled: the condition variable of the thread pool, so nothing is said of waiting for
-- ever; test_http.cc and test_fuse.sh, which start servers, and the C header, which only
-- declares; prefetch jobs that store a block in the middle of a read, and exceptions of
-- `std::make_unique` in `cache_init`; the headers of libfuse under fuse/ are another project's.
-- Libraries (libcurl, SQLite, libfuse, `std::hash`) are parameters. Sizes and offsets are natural
-- numbers, so a range ends below 2 ^ 63; wrap-around is written out where the code relies on it:
-- in the policy's keys, the range header, the results cut to `int` and the sizes in the database.
mod Base
pub mod Layout
pub mod Files
pub mod BlockStore
pub mod Double
pub mod Lru
pub mod TimePolicy
pub mod ThreadPool
pub mod Bitmap
pub mod Manager
pub mod Http
pub mod Fuse
pub mod Sqlite
pub mod Metadata
pub mod FuseOps
pub mod Program
pub mod Trials
pub mod Legacy
mod Tests
