-- ===== src/Lib.antt =====
-- bucketvcs keeps Git repositories in an object store. This library models its core and proves what
-- makes it correct.
--
-- The parts, and the code that each is about:
-- - Prelude: byte strings (lists of byte values), association lists for Go's maps, sorting, tests;
--   Prelude/Utf8 is what Go's strings and encoding/json make of bytes that are not UTF-8.
-- - Pktline (internal/pktline): `Reader.Read` is `read`, which gives a token and the rest of the
--   input; `WritePacket` and its kin are `write_packet` and so on, which give the bytes sent.
--   Pktline/Sideband is the sideband writer.
-- - Storage (internal/storage): `ObjectStore` is a record of operations over a state of the bucket,
--   with the laws of the contract that clients rely on. Storage/Localfs (internal/storage/localfs)
--   is the store on a directory; Storage/Localfs/Contract fills the record with it,
--   Storage/Localfs/Faults and Storage/Localfs/Progress are about its writes and deletions with and
--   without errors.
-- - Repo (internal/repo): Repo/Keys (keys/keys.go), Repo/Manifest (manifest/header.go, schema.go,
--   cas.go), Repo/Tx (tx/), Repo/Commit (repo.go), Repo/RefStore (refstore/, and the validation of
--   manifest/unmarshal.go in Repo/RefStore/Shape). The engine takes the store as a parameter, so its
--   theorems hold over any store that keeps the contract. Repo/Memory is a bucket for the runs.
-- - Importer (internal/importer/buildcommit.go): the guard on the default branch, over RefStore.
-- - Pack (internal/pack): Pack/Delta is `applyDelta`, Pack/Resolve is `resolveObject`.
-- - Policy (internal/policy): Policy/Match (match.go) is the path matcher, Policy/Paths (paths.go)
--   and Policy/Refs (policy.go) the checks of a push against the rules; the rows are what the query
--   of the database gave, and the answer of `git merge-base` is a parameter.
-- - Gc (internal/gc): Gc/LiveSet, Gc/Discover, Gc/Marks, Gc/Mark (`RunMark`) and Gc/Sweep
--   (`RunSweep`) over the store; Gc/Sweep/Safety and Gc/Grace are what a sweep may delete,
--   Gc/TxRecords which transaction records are orphans.
-- - Objindex (internal/objindex): `build`, `openFromBytes` and `Lookup`; Objindex/Layout and
--   Objindex/Table are where the parts of a file stand, Objindex/Search the binary search against
--   the scan of Objindex/Scan, Objindex/Lookup and Objindex/Opened what a lookup finds.
-- - Reachability (internal/reachability): `Load` from its decoded parts on, `WalkBackOID`,
--   `IsAncestor` and `LoadGenLookup`; Reachability/Walk is the distance that is found,
--   Reachability/Frontier one pass of the loop, Reachability/Generations the two lookups of
--   generations.
-- - Maintenance (internal/maintenance/casmerge.go): the bodies that a run commits over the manifest
--   it finds; Maintenance/Named and Maintenance/Live are what they leave to Gc, Maintenance/Refs
--   what they say of the refs.
-- - Receivepack (internal/gitproto/receivepack/parse.go): `parseReceivePackRequest` over Pktline;
--   Receivepack/Commands is one line of it, Receivepack/Accepted what it accepts, Receivepack/Line
--   and Receivepack/RoundTrip that it reads what a client writes.
-- - Auth (internal/auth): Auth/Permissions is `Decide`, Auth/Scopes the scopes of tokens.
--
-- State is passed on explicitly. A listing is the sequence of the pages that the store gives. An
-- operation returns its result with the state it leaves. What other processes do to a bucket between
-- two calls, the clock, the ids and cancellation are the arguments `Turn` and `CreateTurn` of an
-- attempt. A JSON document is the map of raw values that its text encodes, a time is its text.
-- SHA-256, the semantic versions of golang.org/x/mod, the table of `unicode.IsPrint` beyond U+FFFF and
-- `path.Match` on one segment are parameters, and so is `git check-ref-format`; hypotheses on them are
-- named where they are used. Of the texts that JSON carries, the names and the ids of a shard and the
-- branch of `Create` go through the treatment of bytes that are not UTF-8; in the other documents a text
-- is taken to be valid UTF-8.
--
-- Fuel: `Pack.Delta.run` has the length of its input, since an instruction takes a byte at least;
-- `Policy.Match.walk` has the segments of pattern and path, since each step uses one;
-- `Repo.Commit.commit_loop` runs on the attempts left and `Pack.Resolve.resolve_rec` on the depth
-- left, as the code does; `Objindex.search_loop` has the number of records, since each step leaves
-- fewer to look at; `Reachability.walk_levels` runs on the depth left, and a bound below 0 acts as
-- 0; `Receivepack.parse_lines` has one more than the length of the body, since a token takes four
-- bytes. A uint64 wraps around (`% 2 ^ 64`), and the words of Prelude/Words have 64 bits.
--
-- Not modelled: the layout of JSON texts, the length of a backoff, the lock file, listings and
-- multipart uploads of localfs, a key of localfs that is a directory because other keys stand or stood
-- below it (`PutIfAbsent` answers ErrAlreadyExists there), errors of the file system while localfs
-- reads a file or writes the sidecar that it repairs, the cloud adapters, the rest of the Git protocols above pkt-line,
-- the JSON of the records of garbage collection and the pruning of marks, the rest of maintenance,
-- the stores of users and tokens, LFS, webhooks, the web interface and the command line.
pub mod Prelude
pub mod Pktline
pub mod Storage
pub mod Repo
pub mod Importer
pub mod Pack
pub mod Policy
pub mod Auth
pub mod Gc
pub mod Maintenance
pub mod Objindex
pub mod Reachability
pub mod Receivepack
