-- ===== src/Lib.antt =====
-- A verification library of topdesk-mcp, a server that offers a REST API to language models as
-- three tools over the Model Context Protocol: `search`, `get` and `call`.
--
-- The program's parts and how they interact. A call arrives at the server (src/core/mcp_server.rs),
-- over stdio or over HTTP behind a gate (src/http). The server takes a connection to the store of its
-- API version (src/data/store.rs, extracted once from the binary and copied into memory), looks the
-- operation up, and hands it to the call tool (src/tools/call_tool.rs). That validates the arguments
-- (src/validation/validator.rs), makes an API client (src/services/api_client.rs) with a rate limiter
-- and a circuit breaker (src/core), asks the authentication manager (src/auth) for the headers, sends
-- the request with retries, and checks the response. Configuration, credential storage, health,
-- metrics, prompts and the command line stand around this path. src/main.rs starts it: the flags of the
-- command line become variables of the environment, the configuration is read, and logging, health
-- checks and the callbacks of shutdown are set up before a transport serves. The setup wizard
-- (src/cli/setup_wizard.rs) writes what the configuration and the authentication read later, and a
-- program of its own (src/bin/populate_embeddings.rs) fills the tables that a search reads.
--
-- Which file models which part (paths from the root of the repository):
--   Json                   serde_json values
--   Core/Errors            src/core/errors.rs, src/auth/errors.rs; AnyError is anyhow's error
--   Core/RateLimiter       src/core/rate_limiter.rs: RateLimiter::new, acquire
--   Core/CircuitBreaker    src/core/circuit_breaker.rs: CircuitBreaker::new, execute, on_success,
--                          on_failure; a locked block is one function
--   Core/ComponentRegistry src/core/component_registry.rs; Core/HealthCheckManager
--                          src/core/health_check_manager.rs: register, run_once, run_ticks
--   Core/QueryCache        src/core/cache_manager.rs; Core/Sanitizer src/core/sanitizer.rs
--   Core/ConfigSchema      src/core/config_schema.rs; Core/ConfigManager src/core/config_manager.rs:
--                          load_config and its layers; serde's decoding is a parameter
--   Core/CredentialStorage src/core/credential_storage.rs: save, load and delete, keychain or file
--                          under the key of encryption_key
--   Core/Logger            src/core/logger.rs, src/core/log_transport.rs: level, format and layers
--   Core/Otel              src/core/otel.rs; Core/CorrelationContext src/core/correlation_context.rs
--   Core/ShutdownHandler   src/core/shutdown_handler.rs: on_shutdown, shutdown, and a signal
--   Core/McpServer         src/core/mcp_server.rs: the three tools over the state of the process,
--                          and get_info; Sessions serves requests one after another
--   Auth                   src/auth: AuthManager::credentials, login, apply_auth_headers, and the
--                          strategies
--   Services/UrlBuilder    src/core/api_url_builder.rs; Services/ApiClient src/services/api_client.rs:
--                          Params, Dispatch and Execute; Services/EmbeddingService
--                          src/services/embedding_service.rs: embed
--   Data                   src/data/store.rs: Versions (the tables, also those of src/cli and of
--                          src/validation), Store (files and connections), Open (a store on
--                          disk), Endpoints (rows); Store/Sharing: threads in
--                          cached_in_memory_connection; Store/Races: processes in
--                          resolve_store_path
--   Validation             src/validation/validator.rs
--   Tools                  src/tools: call_operation, get_operation, search_operations
--   Http                   src/http: AuthExtractor, Metrics, Server; Server/App is the router of
--                          build_app with its layers
--   Prompts                src/prompts
--   Cli/Versions           src/cli/versions.rs; Cli/Commands the other commands of src/cli
--   Cli/SetupWizard        src/cli/setup_wizard.rs: Prompts (the questions), Persistence (the settings
--                          made of the answers, where they are saved, and run)
--   Bin/PopulateEmbeddings src/bin/populate_embeddings.rs; Bin/Healthcheck src/bin/healthcheck.rs
--   Startup                src/main.rs: the commands, set_up, and the exit code
--   Shared                 helpers on tests, lists, results and dictionaries; Actions is the monad
--                          of code that threads a world and can fail
--   Tests                  concrete libraries, and the theorems at concrete inputs
--
-- How state and operations correspond. A struct is a record, an enum a data type, a `HashMap` or a
-- JSON map an association list (Shared/Dict). A method that changes its object returns the new one.
-- A mutex makes a block one step, so it has no counterpart but where the blocks of several calls
-- interleave: in Core/CircuitBreaker/Interleavings, in Data/Store/Sharing, where a lock is dropped and
-- taken again, and in Data/Store/Races, where processes share files and no lock. The calls of a server
-- run one after another, since each holds the lock of the authentication manager to its end. What a
-- third-party crate or the system does is a parameter: a record of functions on a world W,
-- which a call threads (HttpCrate, UrlCrate, SchemaCrate, StoreCrate,
-- SearchCrate, Surroundings, Vault, Machine, WizardCrate, CommandCrate, HarnessCrate, PopulateCrate,
-- AppCrate, SocketCrate, ModelCrate, SqliteCrate, OtelCrate). Instants and
-- durations are natural numbers of one unit.
-- `anyhow` errors are a sum; of the contexts that are added to an error of another kind, that of the
-- last rename of a store is modelled.
--
-- Bounds and fuel. Counters keep their width: the failure count and the retry count are taken modulo
-- 2^32, a metric modulo 2^64. Two loops run on fuel: the retries of a request, on the retry count plus
-- one, and the rename of a store, on six rounds. Each stands beside a function without fuel that
-- recurs on the tries left. The error `stalled` marks lack of fuel, and `panicked` a
-- panic; they are no errors of the program.
--
-- Not modelled: the texts of progress and of log lines, axum's and rmcp's serving loops, the contents
-- of databases and prompt files, the embedding model, the cipher, the parsing of arguments, and what
-- the operating system does with a file; these are calls of libraries or data, and parameters where
-- a definition uses them. The repository's tests are not part of the program.
pub mod Auth
pub mod Bin
pub mod Cli
pub mod Core
pub mod Data
pub mod Http
pub mod Json
pub mod Prompts
pub mod Services
pub mod Shared
pub mod Startup
pub mod Tests
pub mod Tools
pub mod Validation
