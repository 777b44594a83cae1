-- ===== src/Lib.antt =====
-- neofs-mount mounts the containers of a NeoFS network as a directory. This library models the parts
-- of it that decide what a reader of the mount sees, from the sources of the repository.
--
-- The parts, and the files that model them:
--  * Prelude and its children: tests on numbers, lists measured by native numbers, texts as lists of
--    bytes, association lists, stretches of a text.
--  * Cache: internal/cache/cache.go, the cache of whole objects. Cache/State has the records `entry` and
--    `Cache` and the LRU list, Cache/Evict the loop of `evictIfNeeded`, Cache/Sections each stretch of
--    `GetOrFetch`, `finishFetch` and `StoreFromPath` under the mutex, and Cache/Program the goroutines as
--    programs whose steps are those stretches, so that an interleaving is a sequence of steps. The files,
--    the clock and the callback answer as arguments. The other children prove.
--  * Neofs/Range: `splitObjectRange` and the assembling half of `readObjectRangeMultipart` of
--    internal/neofs/client.go. The parts arrive as a list of results, in any order.
--  * Neofs/Ranged: `readObjectRange`, one call or the race of two.
--  * Neofs/Listing: `SearchEntry`, `entryPathKey`, and the trie that answers listings, of
--    internal/neofs/client.go.
--  * Neofs/Linear: `ListEntriesByPrefix` and the listing without the trie.
--  * Neofs/Scan: the stretches of `ListEntriesByHeadScan` under the mutex and `InvalidateContainerScan`,
--    Neofs/Search: `searchAllObjectIDs` with its strategies, and Neofs/Session:
--    `getOrCreateObjectSession`, all of internal/neofs/client.go, for one container or one key at a time.
--  * Neofs/Objects: the attributes that `ObjectPutContentType` writes and `searchEntryFromHead` reads.
--  * Uploads/History: internal/uploads/history.go, the history of uploads and its file; Uploads/Tracker:
--    internal/uploads/tracker.go, the uploads that run.
--  * Fs/DirCache: internal/fs/dircache.go, the cache of directory listings.
--  * Fs/Directory: `Lookup` and `listChildren` of `containerNode` of internal/fs/tree.go, and
--    internal/fs/ephemeral_names.go.
--  * Fs/Removal: `Unlink`, `Rmdir` and `findObjectsByExactPath` of `containerNode`, over a record of the
--    calls of the client; Fs/Removal/Cached is that record over the cache of scans of Neofs/Scan.
--  * Fs/Deletion: `deleteNeoFSObjectsUnderPrefix` of internal/fs/delete_neofs.go, over the same record.
--  * Fs/Changes: `Rename`, `Mkdir` and `Create` of `containerNode`, over the same record and the calls that
--    read and store. Fs/Upload: `uploadFileHandle`, with the goroutine that its `Release` starts.
--  * Fs/Root: `rootNode` of internal/fs/tree.go, the directory of the containers, and Fs/Containers:
--    internal/fs/container_list.go, the same list for other front ends.
--  * Fs/Attributes: the extended attributes of `fileNode`.
--  * Fs/Retry: the errors of a stream and the loops of `fetchWindow` and of `Open` that try again.
--  * Fs/Reader: `rangeFileHandle` of internal/fs/tree.go, the reader of large objects, with its chunks,
--    its plan of fetches, its eviction and the loop of `Read`. The prefetches that a read starts are queued
--    in the handle, and run when it has returned. The loop is in Fs/Reader/Loop, `runPrefetch` in
--    Fs/Reader/Ahead.
--
-- How they interact: a file of the mount is read through the object cache or, if it is large, through a
-- range handle, whose chunks come from ranged reads of the client; a directory is listed, and a name in
-- it looked up, renamed or removed, from the entries of the client's scan of the container. A file that
-- is written goes to a temporary file first; the upload at its release stores a new object and deletes
-- those that had the path, tells the tracker and adds to the history. The scan that removals, renames and
-- uploads look at comes from the client's cache and may be out of date: what a theorem needs of it is
-- among its hypotheses, for the states in which the call scans.
--
-- Bounds and fuel: `evictIfNeeded` loops once for each key at most, so the length of the LRU list is
-- enough rounds; `evictChunksLocked` likewise with the chunks. A search of the network ends with the
-- sequence of answers that it is given, and a read that is tried again after three attempts. The loop
-- of `Read` runs on `len + 1` turns: they suffice, since every turn without an error copies a byte.
-- Offsets are natural numbers, and the one sum that may pass 2 ^ 63 is tested as the source tests it.
--
-- Not modelled: the remote calls themselves, audit and trace output, statistics, the Windows and macOS
-- front ends, the tray and the configuration. Several uploads of one path at once are not interleaved,
-- and an upload has a tracker and a history.
pub mod Prelude
pub mod Cache
pub mod Fs
pub mod Neofs
pub mod Uploads
