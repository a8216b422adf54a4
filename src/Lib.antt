-- ===== src/Lib.antt =====
-- weightkeep keeps copies of model repositories: it pulls the files of a revision from the Hub into
-- a content-addressed store, says what their licences allow, and seeds what may be shared. This
-- library models the parts of it that decide and that keep state, in the paths below.
--
-- - internal/ids/ids.go, names, hashes and paths: Ids, with `validate_path` and `validate_repo_id`
--   for ValidatePath and ValidateRepoID. Ids.Paths shows where an accepted path can lead, Ids.Names
--   relates the three kinds of names.
-- - internal/hub: Hub.Repo is repo.go (`parse_repo`, `repo_string`), Hub.Escape the escaping of ids
--   and paths in URLs and Hub.Segments what a server reads of them, Hub.Errors is errors.go
--   (`classify`, `retryable`), Hub.Retry the loop of getAPI in client.go, over a sequence of attempts
--   whose outcomes are given, Hub.Download the reading of a partial answer by Download.
-- - internal/store: Store has the state, `Disk`: the directories blobs/, tmp/ and quarantine/, the
--   locks that processes hold, and the table of blobs. Store.Partials and Store.Commits are
--   partial.go; each operation takes as an argument which call of the operating system fails, so
--   every error path is a value. Store.Blobs is store.go, verify.go and the listing and removal of
--   gc.go, Store.Cleanup is CleanTmp. Store.Sound states the invariant, that a file under blobs/ has
--   the hash that it is named by; Store.Progress, Guarantee, Commitment, Putting, Upkeep and Tmp
--   prove it of the operations.
-- - internal/policy: Policy is policy.go (`evaluate`, `lookup`, `tier_of`), Policy.Table the rows of
--   licences.go, Policy.Texts the matching of licence texts. Policy.Tiers compares the decision with
--   the evidence as a list, Policy.Verdict shows what a decision says.
-- - internal/keep: Keep.Upstream is the choice of a server in pull.go, Keep.Collect is gc.go over the
--   operations of the store, with Keep.Spared, Sweeping and Swept for what it leaves and takes;
--   Keep.Licence is licence.go and the decision of seed.go, Keep.Seed, over it, Keep.Forbidden what is
--   never seeded. Keep.Verify is Verify of verify.go;
--   Keep.Growth, Reported and Complete follow what it tells its caller.
-- - internal/fetch/fetch.go: Fetch.Transfer is transfer and the retry loop of fetch over the
--   operations of the store, Fetch.Fetching the rest of fetch, openPartial and File; Fetch.Outcome,
--   Success and Returned are on what a download ends with, Fetch.Overlong on a body that is too long.
-- - internal/manifest: Manifest.Record is Validate of manifest.go, Manifest.Validity what it accepts;
--   Manifest.Counts has the counts of List in index.go, Manifest.Index and Manifest.Refs most of
--   the rest: the files under manifests/ and the tables that index them, with JSON as a parameter
--   (`Codec`), of which nothing is assumed for texts that are no valid UTF-8.
--   Manifest.Kept relates saving and loading, Keep.Retention both to the collection of blobs.
-- - internal/proxy/route.go: Proxy.Route is parseRoute, Proxy.Safety what a route is known to be.
--
-- - internal/torrent: Torrent.Length, Torrent.Pieces and Torrent.Build are build.go up to the
--   dictionary that Build encodes, with SHA-1, SHA-256 and the Merkle trees of the torrent library as
--   parameters; Torrent.Storage is blobstorage.go over the files on disk. Torrent.Feeding, Blocks,
--   Hashing and Adding follow the bytes through the piece hasher, Serving, Offsets, Placing and Served through
--   the storage; Agreement, Acceptance and Writing have the results.
-- - internal/registry: Registry is registry.go (`validate_record`, `match`), Registry.Check and
--   Registry.Submission are check.go, with the answers of the Hub as a parameter. Registry.Denied
--   shows what a match is, Comparison, Accepted and Vetting what is known of a record that passes.
-- - internal/oms/oms.go: Oms has `from_manifest` and `compare_signed`, for FromManifest and Compare;
--   Oms.Mismatches shows what no mismatch means, Oms.Signed and Oms.Roundtrip that a statement matches
--   the manifest that it was made from. Oms.Verify is Verify, Oms.Verified what it has checked.
--
-- Texts are lists of bytes. Times are seconds. Sizes and counts are natural numbers: they are sizes
-- of files and lengths of lists, far below 2^63, and are only added and compared; an age is compared
-- by addition, so a file from the future is young, as in the source. SHA-256 and SHA-1 are functions
-- of which only the form of the result is assumed (`Hashes`); a hash object in the middle of its work
-- is the bytes that it was fed. The messages of reasons and errors are constructors with their
-- arguments. Every loop is structural; the retry loop of the Hub's client has the four rounds of the
-- source, that of a download takes the number of retries left. The loop of openPartial takes
-- its rounds as a list, and at the end of it waits. The loops of build.go have as many rounds as there
-- are bytes; reading a file without rounds left is an error of its own, and the piece hasher would lose
-- the bytes that are left.
--
-- Not modelled: HTTP, SQLite and the file system beyond what the operations see of them, being
-- input and output; the client of torrent, the client and the builder of registry, the keys of oms and
-- what signs with them; the packages hfcache, config and version; Files of fetch, the rest of proxy, and the
-- selection and transfer of files by Pull; the command line. Of the dictionary that a torrent encodes
-- only what the files decide, and the check of the keys of InfoExtra, is here: not the tree of version
-- 2, the web seeds and the comments, nor the encoding and its errors. A
-- directory is listed in the order of its association list. Operations run one after another: of a
-- race between processes only the locks and the rename that finds the blob in place are modelled.
pub mod Prelude
pub mod Ids
pub mod Hub
pub mod Keep
pub mod Policy
pub mod Store
pub mod Manifest
pub mod Fetch
pub mod Proxy
pub mod Torrent
pub mod Registry
pub mod Oms
mod Tests
