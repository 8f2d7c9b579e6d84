-- ===== src/Lib.antt =====
-- Verification of Pixur, a picture management server (Go): its back end keeps pictures, tags, votes,
-- comments and users in a database and serves them to the front end over gRPC.
--
-- Base: the shared names: tests on numbers, lists, signed integers, the bits of machine words,
--   results with errors.
-- Varint (be/schema/varint.go): the text form of 64-bit ids. `append`, `encode`, `decode_bytes` and
--   `decode_all` are `Varint.Append`, `EncodeBytes`, `DecodeBytes` and `DecodeAll`; the tables are
--   written out as in the source. An int64 is kept as its uint64 bit pattern, bytes are numbers.
--   `bytes.ToLower` is a parameter, with its documented behaviour on ASCII text as a hypothesis. The
--   search for the prefix has the 16 rounds that the array leaves.
-- CapSet (be/schema/user.go): the set of a user's capabilities, a 64-bit word for the capabilities 0
--   to 63 and a sorted slice for all others, negative ones too. `verify_cap_subset` is the permission
--   check of every task. `slice_word` has 64 rounds of fuel, one for each bit that it clears.
-- IdAlloc (be/schema/db/idalloc.go): ids for new rows. `World` is the allocator with the rows of the
--   sequence table; `reserve_ids`, `preallocate_ids` and `alloc_id_job` are `reserveIds`,
--   `preallocateIds` and `allocIdJob`. What the database answers to each call is the record `Answers`;
--   a locked section is one step, and `Step` has what can happen to the allocator and its table.
--   `AllocId`, which chains the two operations in a transaction of its own, and tracing are left out.
-- Text (be/text/text.go): the rules for text that users send. Text has the tables of `buildCc` and
--   `init` and the chains `validate`, `normalize` and `validate_and_normalize`; Text/Rules has the
--   validators, the normalizers and the default rules. UTF-8 decoding, the Unicode tables and the
--   normal forms are the record `Library`, with `Is` and `Merge` as hypotheses as they are
--   documented, on well formed tables; a rune is a number. An error keeps the field's name and what is wrong, not its message.
-- Scan (be/schema/db/db.go): `build_range` is `buildRange`, the condition by which a scan of an index
--   starts or stops, kept as groups of comparisons with the arguments of their placeholders, without
--   the text that joins them. How a database compares values is a parameter.
-- Schema (be/schema/pixur.pb.go): the rows of the tables as records, with the fields that the modelled
--   tasks use. A time is a number of nanoseconds from 1970 on.
-- Job (be/schema/tables/tables.tab.go, be/status/errors.go, be/tasks/task.go): a transaction as a state,
--   the tables and the answers that the database still gives, one for each call; `Action` chains the calls
--   and stops at the first error, `revert` is the deferred rollback. A commit or a rollback that fails
--   leaves the tables as they were. A status keeps its code; messages and suppressed errors are left out.
--   No other transaction runs between the first call of a task and its last one.
-- Tables (be/schema/tables/tables.tab.go over be/schema/db/db.go): nine tables, each a list of rows with a
--   primary key. `find` is a scan with a prefix and a limit, `insert`, `update` and `delete` are the
--   statements. Users are also found by ident and tags by name. The order of a scan, its lock, the refusal of a
--   row whose other unique columns are taken, the order columns of pictures and the encoding of a row as bytes
--   are left out.
-- Auth (be/tasks/auth.go): the start of a task. `authed_job` is `authedJobInternal`, whose loop has two
--   rounds of fuel: a user that the first round has refreshed needs no refresh in the second.
-- Votes (be/tasks/add_pic_vote.go): a vote on a picture, with its row, the counters of the picture and the
--   events of the users; the filter of the vote that is returned stands in Reads.
-- Comments (be/tasks/add_pic_comment_task.go, be/tasks/add_pic_comment_vote_task.go): comments, the rules on who
--   may answer whom, and votes on comments. `told_of_comment` has the users whom a comment concerns.
-- Reads (be/tasks/add_pic_vote.go, be/tasks/add_pic_comment_task.go, be/tasks/lookup_user_task.go,
--   be/tasks/find_pic_comment_votes_task.go): what a user may read. `UserCred` is `userCred`; the switch that
--   the filters share is `shows_user`. The public part of a user has no time of change, which is written 0.
-- Users (be/tasks/create_user_task.go, be/tasks/auth_user_task.go, be/tasks/update_user_task.go,
--   be/tasks/unauth_user_task.go): new users, logins, logouts, changes of capabilities. The hash of secrets and
--   its comparison, the sort of tokens and the source of ids are parameters; the sets of capabilities that the
--   code makes as maps are sorted lists. The bounds of an ident come from the configuration.
-- Tags (be/tasks/add_pic_tags_task.go, be/tasks/update_pic_tag_task.go, be/schema/tag.go): tags on pictures.
--   `upsert_tags` is `upsertTags` with its steps; the maps of `buildTagIdList` are lists with the newest entry
--   first. `change_pic_tag` is `UpdatePicTagTask.Run`.
-- Views (be/tasks/increment_view_count_task.go): the counter of the views of a picture.
-- Deletion (be/tasks/soft_delete_pic_task.go, be/tasks/hard_delete_pic_task.go,
--   be/tasks/purge_pic_task.go, be/schema/picfile.go): the deletions of a picture. `filepath.Join` and the
--   removal of a file are parameters.
-- Runner (be/tasks/task_runner.go): a task is run up to five times. The task, its context, the clock and the
--   growth of the backoff are the record `Env` over a world of its own; `run_tasks` is `TaskRunner.Run`, with
--   fuel for the five tries and the round that finds none left.
--
-- The id codec, the capability sets, the text rules and the range conditions are functions without
-- state. The allocator keeps state of its own. The tasks share the tables: each starts with the session of
-- its user (Auth), which may commit a refresh of the user, and then runs one transaction that checks the
-- capabilities (CapSet), changes rows (Tables) and commits. Not modelled: the upload of a picture, which is
-- mostly files and images; the pages of the index; the gRPC handlers of the back end and
-- the front end; the messages of the API, which are generated; image processing and the drivers of databases,
-- which are calls of libraries.
pub mod Base
pub mod Auth
pub mod CapSet
pub mod Comments
pub mod Deletion
pub mod IdAlloc
pub mod Job
pub mod Reads
pub mod Runner
pub mod Scan
pub mod Schema
pub mod Tables
pub mod Tags
pub mod Text
pub mod Users
pub mod Varint
pub mod Views
pub mod Votes
