-- ===== src/Lib.antt =====
-- A model of the core of the AxonOps Schema Registry, a server that stores schemas under subjects
-- and versions and checks that a new schema is compatible with the old ones. This library models
-- the contract of its storage, as the in-memory backend implements it, the registry service over
-- that contract, the compatibility check with its checker for Avro, the names of contexts, the
-- rules of data contracts, the authorization of requests by role, the permissions of MCP tools, and
-- the edit distance of names.
--
-- A registration goes through the HTTP API to the registry service, which asks the compatibility
-- checker about the versions of the subject and then calls the storage backend. The storage backend
-- gives each content one ID in its context and each subject its own version numbers. The HTTP API,
-- the database backends, authentication and its rate limits, the export itself, the clients of key
-- management services, the tools of the MCP server, the naming variants, fields and quality scores
-- of the analysis, the parsers and the checkers for JSON Schema and Protobuf are not modelled. Of
-- the service, the methods that only pass a call on to the storage are left out.
--
--   - Common: the names shared by all files; maps as association lists (Common/Maps), 64-bit
--     integers with the increment's wrap-around (Common/Int), equality (Common/Equality), sorting
--     (Common/Sort), and Go's functions on texts (Common/Text, with the reading of a written number
--     in Common/TextRead).
--   - Storage: the records and errors of internal/storage/storage.go; Storage/DeepEqual is
--     `reflect.DeepEqual` on metadata and rule sets, as internal/storage/memory/store.go calls it.
--   - Memory: internal/storage/memory/store.go. Memory/State has `contextStore` and `Store` as
--     records with the source's fields. Each method is a function of the same name in snake case
--     that returns its answer and the new state: Memory/Create (CreateSchema), Memory/Lookup (the
--     reads), Memory/Delete (DeleteSchema, DeleteSubject), Memory/Import (ImportSchema, SetNextID,
--     NextID, GetMaxSchemaID), Memory/Listing (ListSchemas, ListContexts), Memory/Config,
--     Memory/Users, Memory/ApiKeys, Memory/Exporters, Memory/Keks and Memory/Deks. A name that ends
--     in `_in` or takes a `ContextStore` is the part of a method that works on one context.
--   - Memory/Invariant: what a well-formed context is. Memory/Register, CreateValid, DeleteValid,
--     DeleteSubjectValid and ImportValid show what each method does to it; Memory/Reach has the
--     methods as steps.
--   - Memory/Behaviour, Duplicates, Latest, DekSecrecy, DekVersions, UserIndex, ReadBack, Reread
--     and Subjects: properties of single methods. Memory/Tests: concrete stores.
--   - Compatibility: internal/compatibility. Compatibility/Mode is modes.go, Compatibility/Result
--     is result.go, Compatibility/Checker is checker.go, Compatibility/CheckerSpec compares it with
--     a Boolean specification.
--   - Compatibility/Avro: internal/compatibility/avro/checker.go. Schema has the parsed schemas,
--     Check the methods, Fuel, Reasons and SelfRead the theorems. Compatibility/Tests: concrete
--     schemas.
--   - Context: internal/context/context.go, how a subject carries the name of its context; a text
--     is the list of its bytes. Context/RoundTrip has the theorems and Context/Tests concrete
--     names.
--   - Rules: internal/rules/validator.go; Rules/Spec compares it with a Boolean specification,
--     Rules/Tests has concrete rule sets.
--   - Registry: internal/registry. Registry/Backend has the storage operations that the service
--     calls, as a record over a type of states, and `Registry` with the backend, the parsers, the
--     compatibility checkers and the digest. Registry/InMemory is the in-memory store as such a
--     backend. Registry/Levels (configurations, aliases, version numbers), Modes, Metadata
--     (metadata, rule sets), Reserved (reserved fields, compatibility groups), References
--     (resolveReferences, computeGlobalFingerprint), Register (RegisterSchema), Checking
--     (CheckCompatibility, LookupSchema, NormalizeSchema), Imports (RegisterSchemaWithID,
--     ImportSchemas), Removal (DeleteSubject, DeleteVersion) and Reads (the reads that do more than
--     pass a call on) are registry.go and registry_helpers.go; Exporting is registry_exporter.go
--     and Keys is registry_dek.go. Each has its theorems in files below it; Registry/Tests has a
--     concrete service.
--   - Auth/Rbac: internal/auth/rbac.go; Auth/Rbac/Roles has the theorems and Auth/Rbac/Tests
--     concrete requests.
--   - Mcp/Permissions: internal/mcp/permissions.go and isToolAllowed of internal/mcp/tools.go;
--     Presets below it has the theorems.
--   - Analysis/Fuzzy: LevenshteinDistance of internal/analysis/fuzzy.go; Least below it says what
--     an edit is.
--
-- Conventions. The mutex of the store makes each method one atomic step. A Go map is an association
-- list that is read by its first entry for a key; a method that loops over a map goes through it in
-- the order of the list, where the source's order is not fixed. Time is a parameter: each reading
-- of the clock is an argument. The records are values; a pointer that a caller keeps and writes
-- through later is not modelled. A nil map, slice or pointer is `none` where the source tells nil
-- from empty. Numbers of type `int` and `int64` are integers with the increment's wrap-around at 64
-- bits.
--
-- The parsed Avro schemas belong to a library that is not part of the repository. The type `Schema`
-- has one constructor for each schema that the checker tells apart by its type, with what the
-- checker reads from it. A named type inside itself is a reference, as the library returns it, so a
-- schema is a finite tree. The recursion of the checker runs on fuel, the sum of the weights of the
-- two schemas; Compatibility/Avro/Fuel shows that this is enough for every pair.
--
-- The checkers of the schema types are a parameter of the compatibility check. The hypothesis
-- `HasReasons` says that a failed check has a message; Compatibility/Tests shows it for the Avro
-- checker.
--
-- The parsers of the schema types, SHA-256, base64 and the providers of key management are
-- parameters of the service. A parser gives a parsed schema or fails; the digest is any function on
-- texts. `KmsLaws` says that base64 and the providers undo what they did; Registry/Keys/Tests shows
-- a provider that does. The recursion of resolveReferences, which the source bounds by the set of
-- references that it has seen, runs on fuel; Registry/References/Depth shows that one more than the
-- number of stored versions is enough, and the outcome `too_deep`, which the source has not, then
-- never occurs. A write of a backend answers its error and the state that it leaves, so an
-- operation that fails half way keeps what was written before. An error keeps its cause and not its
-- text. An error of the service is told apart where the source tells it apart with `errors.Is`.
pub mod Common
pub mod Storage
pub mod Memory
pub mod Compatibility
pub mod Context
pub mod Auth
pub mod Rules
pub mod Registry
pub mod Analysis
pub mod Mcp
