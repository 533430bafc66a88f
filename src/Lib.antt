-- ===== src/Lib.antt =====
-- detc generates the configuration of a running host: it merges documents and the reports of probes
-- into a namespace of variables, instantiates templates and resources with it, and applies what
-- differs, in the order and under the requirements that the objects declare.
--
-- Base: texts as UTF-8 bytes, lists, results, signed integers. A fallible function returns a
--   `Result` whose error is a constructor for each message of the source.
-- Value: serde_json's `Value`. An object is a list of members in the order of the keys, which is what
--   a `BTreeMap` holds; IsSorted says so at every depth. A number is the text it is written with,
--   since the program never computes with one.
-- Var (src/var.rs): Strategy has the merge strategies and the errors; Merging has `replace_value`,
--   `full_merge_value`, `take_merge` and `merge_value`; Subtree has `subtree`, `merge_document`,
--   `merge_documents`, `merge_probes` and `from_system_with`; Access has `get_value`, `set_value` and
--   `nest`. `&mut self` is the value that goes in and the value that comes out beside the result, so
--   what was written before an error stays written. The partial strategy is the crate json-patch: the
--   record JsonPatch holds its `merge` with what RFC 7396 says of it, and Rfc7396 is a function of
--   that record. What parsing a file or running a probe answers is an argument.
--   Dropins has `Store` and the names of the drop-ins that `detc var` writes.
-- Apply (src/apply.rs, and `apply_system` of src/detc.rs): Requirement has `unmet`; Change has the
--   objects of a plan, `difference`, `apply_target` and `apply`; Run has the order of a plan and the
--   loop over it. What the file system and a provider answer while an object is applied is the record
--   Answers, one for each position of the plan.
-- Archive (src/tar.rs): Name has `check`; Format has `write`, `read` and what they refuse. The blocks are
--   those of the crate tar: the record Tar holds how long an archive is after each call and the
--   members it yields, raw. `mode` and the sizes are natural numbers; the sums that `write` compares
--   are far below 2 ^ 64 since every content is in memory.
-- Provider (src/provider.rs): Number has the trimming and the reading of an i64; Kind has `Type` and
--   `coerce`; Schema has `Property`, `Schema`, `from_value`, `validate` and `read`. The numbers of
--   serde_json are the record Numbers: a number is the text it is written as.
-- Ladder (src/cfs.rs): `resolve`, `collect` and `rung`. A path is its components. What `metadata` and
--   `WalkDir` answer is the record Files.
-- Hosts (src/hosts.rs): Range has the ranges of a term; Inventory has `hosts`, `resolve` and `expand`.
--   The crate glob is an argument: which hosts a pattern matches, none where it is no pattern.
-- Written (src/written.rs): the record of what detc did, `record`, `orphans`, `wrote` and `forget`, on
--   what the file system and the providers answer, the record System. A `BTreeMap` is the list of its
--   keys in their order.
-- Resource (src/resource.rs): `declaration` behind the rendering, which is an argument; Listing has
--   `from_system`, `get` and `find`, on what the configuration file system lists.
-- Apply.Plan (src/apply.rs): `template_change` and `resource_change`; Build has `published`, `publish`
--   and `Plan::build`. What rendering a template or a declaration answers is a function of the
--   namespace, the digest of the crate sha2 a function on texts, and a path is the text of it.
-- Journal (src/journal.rs): Message has `message_of`, `tally`, `trailer` and `parse`; History has `runs`,
--   `run_of` and `cause`; Entries has `paths`, `Record::of`, what `record` hands to a commit and
--   `signature`. What the crate gix answers is an argument, and its ids are texts.
-- Lock (src/lock.rs): `acquire` and `drop` as the steps of any number of processes. Each process is
--   one thread, and the lock of the file is taken only where nobody has it, which is `flock(2)`.
-- Last (src/last.rs): the document of the last run, on Apply.Snapshot, which is `snapshot` of
--   src/apply.rs.
-- Report (src/record.rs): the records of a verb, `line` and `TextSink::emit`.
-- Bundle (src/bundle.rs): Place has `place`, `refused`, `reachable`, `named_well` and `ours`; Disk has
--   `names`, `recorded`, `listing`, `unlink` and `discard`; Open has `open`, `authenticate`,
--   `signed_by`, `allowed_signers`, `sign`, `parse` and `read_state`; Install has `install`, `verify`,
--   `restore`, `remove`, `claim`, `owner` and what lists the bundles; Create has `create` and `collect`.
--   A disk is the files by their paths below the root, and a path is the text of its components, so
--   that a link is not followed. A directory is there where a file is under it. Only the paths that
--   `unlink` is handed, which a list on the disk names, can have a component `..`, and Led follows
--   it as the file system does, up from a directory that is there and no further than the root. What
--   the file system refuses, for whatever reason, is the record Host; a change that fails part way
--   gives the disk as it was left. The crates ssh_key and serde_yaml_ng, and which files of allowed
--   signers the ladder holds, are the record Crates. A bundle uses Archive, whose crate tar is Tar.
-- Manager (src/manager.rs): Commands has the subcommands of src/detc.rs, with `Source` and `VarArgs`;
--   Params has the methods and their parameters; Call has `call`, Answer has `command`. Carried says,
--   without the calls, what crosses of a subcommand; Whole has the subcommands that cross as they
--   are; ReadOnly has which subcommands change the system. What serde_json makes of
--   the parameters, and base64, are the record Wire, with their round trips in IsFaithful. A path of
--   a subcommand is its text, so that one that is not valid UTF-8 is left out.
--
-- Recursion is structural except in `resolve` of Hosts, where a group or a range is resolved in turn:
-- it has as many rounds as `rounds_for` gives, one for each group that can be followed times the
-- brackets of the widest member, and the brackets of the term, since following a group shortens the
-- groups that are left and counting a range out takes its brackets away. The digits of a number have
-- as many rounds as the number. `usize` and `u64` are 64 bits wide where a number is read.
--
-- Not modelled: what the file system does below the reading and writing of whole files, running
-- programs (src/exec.rs), git, the network, the varlink service, the parsing of the command line, and
-- of src/detc.rs what dispatch does for a subcommand besides applying the system.
pub mod Base
pub mod Value
pub mod Var
pub mod Apply
pub mod Archive
pub mod Provider
pub mod Ladder
pub mod Hosts
pub mod Written
pub mod Resource
pub mod Journal
pub mod Lock
pub mod Last
pub mod Report
pub mod Bundle
pub mod Manager
