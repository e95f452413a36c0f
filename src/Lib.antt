-- ===== src/Lib.antt =====
-- A model of cargo-mutants, which makes small changes to the source of a Rust crate, one at a time,
-- and reports those that the tests of the crate do not catch, with theorems about the model.
--
-- The program makes a list of mutants from the source files of a workspace, narrows it to a shard or
-- to what a diff changes, and then, for each mutant, writes the changed file into a build directory,
-- runs the cargo phases under time limits, puts the file back, and records an outcome. The outcomes
-- are counted, and decide the exit code.
--
-- Files, and the code that each is about:
--   Shard      src/shard.rs: reading k/n, and the two ways to take a shard of the mutants
--   Span       src/span.rs: positions, the index of line starts, cutting and replacing text
--   Paths      src/path.rs, and what is used of Utf8Path, on Unix
--   Source     src/source.rs and the data of src/package.rs: loading a file
--   Mutant     src/mutant.rs: the mutated code, names and descriptions
--   Mutant/Diff    the diff of a mutant, over a window of the file, with its hunks renumbered
--   Process    src/process.rs and src/process/unix.rs: waiting for a child, and quoting
--   Outcome    src/outcome.rs, src/scenario.rs, src/exit_code.rs: phases, summaries, exit codes
--   Outcome/Totals     LabOutcome: the counters of a run, and its exit code
--   InDiff     src/in_diff.rs: the lines that a diff affects, and the check against the source
--   InDiff/Filter      diff_filter and diff_filter_file
--   Lab        src/lab.rs, overwrite_file of src/build_dir.rs: the world that a worker acts on
--   Lab/Worker         run_one_scenario and what it calls, and the queue of a worker
--   FnValue    src/fnvalue.rs: the values to replace the body of a function with, by its type
--   FnValue/Paths, Chain, Replacements     the tests on paths, the if-chain over them, the walk over
--       a type; Quote has the token streams that quote! builds
--   FnValue/Values     what a value of a type is, stated without that code
--   Pretty     src/pretty.rs: the printed form of token streams
--   Options    src/options.rs, src/annotation.rs: small types, and what command line and
--       configuration share
--   Options/Input, Merge, Globs, Filter    Args of src/main.rs and Config of src/config.rs;
--       Options::new; src/glob.rs; which files and mutants the options allow
--   Cargo      src/cargo.rs, instrumented_env of src/coverage.rs: arguments and environment of cargo
--   Coverage   src/coverage.rs: covered lines, from the exported data on
--   Main       src/main.rs: the dispatch, over the parts of the program that it calls
--   Manifest   src/manifest.rs: relative paths in the manifest of a copied tree
--   Visit      src/visit.rs, without the walk over items: Operators, Attrs, Mods (the file of a mod, with the
--       rules for it in Mods/Places),
--       Statements (deleted statements, conditions), Collect (mutants of a function body)
--   Visit/Memo     ControlFlowMemo: whether a subtree has control flow, remembered by address
--   Timeouts   src/timeouts.rs: time limits from the options and the baseline
--   Output     src/output.rs: the names of the files of a scenario
--   Prelude    names of the libraries, and the parts of the standard library of Rust in use
-- The other files of a folder are theorems about the file that has the folder's name; each Examples
-- file has tests and applies the theorems to concrete data. Functions have the names of the code.
--
-- A text is a list of character codes, with the UTF-8 width of each; a path is the list of its
-- components. A usize is a native number below 2^64 where the code parses or multiplies one. An
-- Option stands for code that may panic, a Result for code that returns an error. The HashMaps are
-- association lists. What is not in the repository is a parameter: the text of files, the library
-- that makes a unified diff, the parsers of diffs, JSON and TOML, what a poll of a child process shows,
-- f64, sets of globs and of regular expressions, Path::is_ident of syn, and the methods of itertools.
-- In Lab the world is a record of answers that may depend on all earlier events: whether each output
-- fails, what a failed write leaves, what a cargo phase returns and makes of the files of the build
-- directory, and the fingerprint of a build. After SIGTERM, whether the child is ever gone is a
-- parameter, as the program waits for it without a limit.
--
-- Loops are structural recursion. The loop over polls of a child runs over the list of polls, and
-- answers out_of_polls where the list ends first. The binary search has the length of the list as
-- fuel, which is enough as its range gets smaller in each round.
--
-- The walk over a type in FnValue pairs each type argument with the replacements for it, so that it is
-- structural.
--
-- Not modelled: the walk over the items of a file and its scopes (src/visit.rs), the
-- fingerprint of a build (src/artifacts.rs), discovery of packages, the contents of the output
-- directory, the console, copying of trees, the baseline run and threads of the lab, and Windows.
-- They are I/O, or need data of libraries that are not in the repository.
pub mod Prelude
pub mod Process
pub mod Paths
pub mod Shard
pub mod Source
pub mod Mutant
pub mod Options
pub mod Outcome
pub mod InDiff
pub mod Coverage
pub mod Lab
pub mod Cargo
pub mod Timeouts
pub mod Output
pub mod Span
pub mod Manifest
pub mod Visit
pub mod Main
pub mod Pretty
pub mod FnValue
