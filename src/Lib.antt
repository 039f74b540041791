-- ===== src/Lib.antt =====
-- coherence_operator: verification of two programs of the repository. The first is the GitHub action
-- .github/actions/setup-oras-2.0.1, in JavaScript, as the runner executes it: the bundle
-- dist/index.js there, which holds src/setup.ts and src/lib of the action and the parts of the
-- GitHub actions toolkit (core, io, exec, tool-cache, http-client) that these call. Paths below are
-- from the repository's root, "the bundle" is dist/index.js. Beside it stand the action's own
-- scripts, which keep its table of releases and collect the licences of the bundle, and the
-- JavaScript demo examples/910_polyglot_demo. The second is the core of the operator itself, in Go:
-- the conditions and the status of a Coherence resource, the scaling of its StatefulSet, and the
-- rolling upgrade by node.
--
-- The action reads its inputs, chooses a release of the ORAS CLI, downloads its archive, compares
-- the SHA256 sum, extracts the archive with tar or unzip, and puts the folder on the search path.
-- Every error becomes an annotation and the exit code 1. The table comes from releases.json, to
-- which the script .github/scripts/update-releases.mjs adds the releases that are missing: it
-- lists the releases on GitHub, fetches the checksums file of each missing one, and writes the
-- table in the order of the versions. The script scripts/generate-licenses.js reads which packages
-- the bundle holds and writes their licences to dist/licenses.txt. The demo serves people from a
-- cache over HTTP, and shares no code with the action.
--
-- The operator keeps in the status of a resource a phase and a list of conditions. Its controllers
-- update the status from the StatefulSet or the Job of the resource and write it if the update says
-- that it changed. Under a safe policy the StatefulSet controller scales by one member at a time
-- and asks a probe whether the cluster is StatusHA before it does; with a scaling policy and its
-- guards met it sets the partition of the rolling update. For a strategy by node the controller
-- does the upgrade itself, by deleting pods.
--
-- How the code is modelled. `Runtime` has the state of the process (environment variables,
-- contents of files, exit code, and the trace of what the process did), thrown errors as values,
-- and the effects as functions from a state to a result and a state; an `await` is a bind, `try`
-- is `catch`. An object whose keys are data is the list of its properties, in the order of their
-- creation. What Node.js and the machine do (HTTP requests, child processes, the file system's
-- answers, SHA256, paths, random numbers) is the record `Host`, a parameter of every definition
-- (`Upstream` for the updater and `Sources` for the licence collector, with the JSON parser;
-- `Cache` for the demo). Each call of it that may answer differently from time to time takes the
-- whole state, whose trace grows. A text is the list of its character codes. For the operator, the
-- status is a record that steps change, each with the flag `updated` and a count of the readings of
-- the clock (`Progress`); a controller is a function from the state of the cluster to an outcome and
-- such a state; the Kubernetes API and the probes are the records `Kube` and `NodeApi`.
--
-- Files and code:
--   Prelude, Prelude/*    shared names: Boolean tests, lists, and the string functions of JavaScript
--   Runtime               the process, the host and errors; Runtime/Laws: runs of a chain of effects;
--                         Runtime/Obey: laws of computations that go through await and catch;
--                         Runtime/Quiet: effects that start no process and keep the environment,
--                         and those of them that come to an end (IsTame);
--                         Runtime/Frame: effects that keep a part of the state;
--                         Runtime/Settle: effects that come to an end;
--                         Runtime/Sample: a concrete host for runs
--   Command               core: getInput, addPath, setFailed, debug and info, and the classes and
--                         functions below them (Command, escapeData, escapeProperty, issueFileCommand)
--   Io                    io: which, findInPath, tryGetExecutablePath, mkdirP, rmRF
--   Exec/ArgString        exec: argStringToArray
--   Exec/Quote            exec: _windowsQuoteCmdArg and _uvQuoteCmdArg
--   Exec/LineBuffer       exec: _processLineBuffer
--   Exec/State            exec: ExecState and the handlers of a child process's events
--   Exec/Runner           exec: the class ToolRunner and the function exec
--   ToolCache/Retry       tool-cache: RetryHelper
--   ToolCache/Download    tool-cache: downloadTool and downloadToolAttempt
--   ToolCache/Extract     tool-cache: extractTar, extractZip and their helpers
--   Proxy                 http-client: getProxyUrl and checkBypass (lib/proxy.js)
--   Release               src/lib/release.ts: getReleaseInfo, mapPlatform, mapArch,
--                         getBinaryExtension; Release/Table: src/lib/data/releases.json, as the bundle has it
--   Setup                 src/setup.ts and src/lib/checksum.ts: setup and hash
--   Updater               .github/scripts/update-releases.mjs of the action: main and its functions;
--                         Updater/Versions: compareSemver; Updater/Sort: Array.prototype.sort;
--                         Updater/Checksums: parseChecksums
--   Licenses              scripts/generate-licenses.js of the action; Licenses/Paths: its regular
--                         expression for the packages
--   Operator/Conditions   api/v1/conditions.go
--   Operator/Status       CoherenceResourceStatus of api/v1/coherenceresource_types.go, with the getters
--                         that it calls; Operator/Status/Update: ensureInitialized, SetCondition, Update
--                         and UpdateFromJob; Operator/Status/Follow: the laws of their steps
--   Operator/Scaling      controllers/statefulset/statefulset_controller.go: scale, safeScale,
--                         parallelScale
--   Operator/Upgrade      controllers/statefulset/upgrade_strategy.go: GetUpgradeStrategy, groupPods,
--                         rollingUpgrade, deletePods
--   PolyglotDemo          examples/910_polyglot_demo/js/main.js: the handlers of its REST API
-- The other modules below one of these hold its theorems (those named Settle or Tame, that its effects
-- come to an end); those named Tests hold runs at concrete inputs.
--
-- Bounds and fuel. Numbers are natural numbers: the code counts attempts, seconds, characters and
-- backslashes, and never comes near a machine bound. `lines_from` has one more round than there
-- are characters, and each round removes one; `decimal_from` has one more round than the number.
-- The retry loop is recursion on the attempts that are left. All else is structural. The numbers
-- of a version are taken as they stand; JavaScript rounds those above 2 ^ 53, which no version
-- has. An int32 of the operator is its pattern of 32 bits; sums wrap around, and `less` compares
-- with the sign. `rounds` is recursion on the number of rounds, and enough of them are given by the
-- distance of the counts. No version is a bare integer, which as a key of an object would stand before all others.
--
-- Not modelled: the HTTP stack (undici, tunnel and the rest of the http-client package), which the
-- host's `http_get` stands for; semver, the job summary and what else the bundle carries and the
-- action never calls; debug and line events, for which the action sets no listeners; the headers of
-- the updater's requests; the web server of the demo. Files are read as whole texts. A write of the
-- updater may fail; one of the action, of a download or of the licence collector does not. Of the
-- operator: MarshalJSON of the conditions, which calls encoding/json; how a StatefulSet is created,
-- patched and deleted; the jobs, secrets, finalizers and web hooks; its runner, its Java part, its
-- Helm chart and its dashboards. The labels of nodes are taken not to change during one upgrade.
pub mod Prelude
pub mod Runtime
pub mod Command
pub mod Io
pub mod Exec
pub mod ToolCache
pub mod Setup
pub mod Release
pub mod Proxy
pub mod Updater
pub mod Licenses
pub mod PolyglotDemo
pub mod Operator
