-- ===== src/Lib.antt =====
-- Vynil: an installer of packages for Kubernetes.
--
-- The operator watches two sorts of objects. A jukebox is a source of packages: the operator keeps
-- a scan job for it, the scan writes the packages that it finds into the status of the jukebox, and
-- the operator keeps them in a cache. An instance (of a tenant, of a service, or of the system)
-- asks for a package of a jukebox: the operator chooses the package from the cache, checks its
-- requirements, renders a job with it and writes the job; an agent that runs in the job installs
-- the package and reports to the status of the instance. When an instance is deleted, the operator
-- runs a delete job before it lets the object go. A diagnostic server answers, to callers whom the
-- cluster allows to read an instance, its state, its children and its logs, without the secrets that
-- it can find. Packages are checked by a linter and tested against a store that stands for the cluster.
--
-- How the model reads the code. What the code asks of the outside (the Kubernetes API, the OCI
-- registry, the script and template engines, the clock) is a `Call`, and an action is a function
-- from the calls made so far to a result and the calls made then (Kube). The answers are the
-- parameter `Cluster`, a function of that history for each sort of call, so the theorems hold
-- whatever is answered. A result is a value, an error, or a panic. Shared helpers stand in Prelude
-- (lists, dictionaries, decimal numbers, texts) and Result. Numbers are natural numbers; the version
-- counters wrap around at 2 ^ 32 and 2 ^ 64, as they do in a release build. Every loop of the code
-- is a recursion on a list or on a text, so no fuel is needed. The diagnostic server has calls, answers
-- and errors of its own (Server/World), in the same style, and never panics.
--
-- The files, and what they model:
--   Semver            core/src/semver.rs: parse, Display, the order and the increments; the crate
--                     `semver` is a parameter. Semver/Bump and Semver/Order prove.
--   Package           common/src/vynilpackage.rs: the types, is_min_version_ok and
--                     is_vynil_version_ok. Package/Versions proves.
--   Requirements      common/src/vynilpackage.rs: check_system, check_tenant, check_service.
--                     Requirements/Outcome and Requirements/Agree prove.
--   Instance          common/src/instancetenant.rs, instanceservice.rs, instancesystem.rs: one record
--                     for the three kinds. Instance/Conditions are the constructors of conditions
--                     in common/src/instance_macros.rs, Instance/Conditions/Lists the tests on them.
--   Status            common/src/instance_macros.rs: the setters of the status; Status/Updates has
--                     those of the agent, Status/Methods all of them as data. Status/Counts,
--                     Status/Unique, Status/Tidy, Status/Repeats and Status/Notes prove.
--   JukeBox           common/src/jukebox.rs; JukeBox/Status has the setters. JukeBox/Merge and
--                     JukeBox/Failure prove.
--   Operator/Reconcile, Operator/Cleanup, Operator/Jobs, Operator/Recommend, Operator/Select
--                     operator/src/instance_common.rs and instancetenant.rs, instanceservice.rs,
--                     instancesystem.rs: do_reconcile, do_cleanup, resolve_init_version, the job
--                     helpers, the recommendations and the choice of a package. Operator/Choice,
--                     Operator/Quiet, Operator/Safety, Operator/InitVersion, Operator/Contexts,
--                     Operator/Renders, Operator/Tag, Operator/Removal and Operator/Release prove.
--   TtlCache          common/src/ttl_cache.rs: the two parts of get_or_refresh, and the steps of many
--                     tasks. TtlCache/Single proves.
--   Server            server/src: the errors, the configuration and the constants of the diagnostic
--                     server. Server/World are its calls and their answers; Server/Access is auth.rs
--                     and authz.rs, Server/Anonymize is anonymize.rs, Server/Records, Server/Instances,
--                     Server/Children, Server/LogText, Server/Logs and Server/ClusterInfo are collect,
--                     and Server/Handler is the handler of server.rs. Server/Guards, Server/Clean,
--                     Server/Scrubbed, Server/Answers, Server/Private and Server/Cap prove, with the
--                     rules on actions of Server/World/Keeps and Server/World/Yields.
--   Mock              core/src/k8s_mock.rs: the store of the package tests; Mock/Instances are the
--                     handles on instances and jukeboxes of common/src/k8smock.rs, Mock/Workloads
--                     the other handles and the lists. Mock/Merge, Mock/Named, Mock/RoundTrip,
--                     Mock/Apply and Mock/Persist prove.
--   Lint              agent/src/linting/mod.rs and config.rs: levels, overrides and the collector;
--                     Lint/Directives are the comments that turn rules off, Lint/Keys the line
--                     numbers of keys; Lint/Manifest and Lint/Lines are the checks of package.yaml
--                     in agent/src/package/lint.rs, Lint/Report the reports. Lint/Levels,
--                     Lint/Blocks, Lint/Rules, Lint/Verdict, Lint/KeyLines and Lint/KeysFound
--                     prove.
--   Testing           agent/src/testing/vyniltest.rs: the comparison of values, the selectors and the
--                     verdicts of assertions. Testing/Subset proves.
--   Operator/Caching  operator/src/manager.rs: the package cache.
--   Operator/Scan     operator/src/jukebox.rs: reconcile and cleanup. Operator/Coherence and
--                     Operator/ForceScan prove.
--   Examples, Tests, Operator/Tests, Server/Tests, Mock/Tests, Lint/Tests, Testing/Tests
--                     concrete inputs and runs.
--
-- Not modelled: the checkers of scripts and templates (agent/src/linting), what the test runner of the
-- agent (agent/src/testing) does besides its assertions, with the messages of these, the kubectl
-- plugin, the bindings for scripts, the start of the processes and listeners with their TLS, metrics
-- and telemetry. The renderer, the reader of YAML, the crate of regular expressions but for the
-- pattern of names, the globs, and the creation of a typed object from JSON are answers of the cluster
-- or parameters.
pub mod Prelude
pub mod Result
pub mod Semver
pub mod Package
pub mod Instance
pub mod JukeBox
pub mod Kube
pub mod Server
pub mod Mock
pub mod Lint
pub mod Status
pub mod Testing
pub mod Requirements
pub mod Operator
pub mod TtlCache
pub mod Examples
pub mod Tests
