-- ===== src/Lib.antt =====
-- A system against counterfeit products: a producer registers a project and the SHA-256 hashes of
-- the secrets of its products on a chain; a consumer's scan of a secret redeems the product once.
--
-- The program's parts. The contract (contracts/src/ProductRegistry.sol) is the root of trust. The
-- coordination hub (apps/coordination-hub/src) is a NestJS service in TypeScript: it keeps projects,
-- producers and scan logs in MongoDB, producers' private keys encrypted, and calls the contract
-- through ethers. The portals are user interfaces of the hub.
--
-- The files, and what each models:
--   Prelude        shared names, strings as lists of UTF-16 code units, list helpers
--   Registry       the contract: storage, mutators with their reverts, views, and the transactions
--                  of any accounts; its laws are in Batch, Redeem, Monotone and Invariant, and
--                  Status is the abstract view of it, a status for each product
--   Errors, Documents   the exceptions of the hub and the documents of its database
--   World          the configuration, the outside, the hub's state, and the monad of its methods;
--                  rules for what a method leaves in the registry are in Laws and Reaching, and for
--                  methods that return in Runs
--   Hex, Dates     hexadecimal text and the calendar, as the hub uses them
--   Wallet         blockchain/wallet.service.ts
--   Contract       blockchain/ethers-contract.service.ts and exceptions.ts; Chain is what ethers and
--                  the node do with a call, Reverts the mapping of errors; Mapping, Cache, Growth,
--                  Redemption, Registration and Registered have its laws, and Runs and Redeeming
--                  say what its calls do on a calm network; Service is the rest of the folder
--                  blockchain
--   Logs           scan/verification-log.service.ts; Entries has the laws of recording, Stats is
--                  getProjectStats, with its laws in Buckets, Days, Recent and
--                  Counting
--   Audit          observability/audit-log.service.ts, the listing, and scan/verifications.controller.ts
--   Producers, Auth     producers/producers.service.ts, auth/auth.service.ts; Lockout and Registration
--                  have the laws of a login
--   Projects       projects/projects.service.ts with its schema and the public metadata; Ownership
--                  is about all calls that are for the owner of a project, and Deletion about its end
--   Subdocs, Activities, Certifications   activities/activities.service.ts and
--                  certifications/certifications.service.ts
--   Hashing        packages/shared/src/hashing.ts
--   Batches        projects/batches/batches.service.ts
--   ErrorFilter    common/filters/http-exception.filter.ts
--   Scan           scan/scan.service.ts; Soundness and Authentic have its laws, and Answers and
--                  Refinement compare it with the abstract view
--   Uploads        the folder uploads: the checks, the three adapters and the controllers; Gate and
--                  RoundTrip have its laws
--   Requests       the schemas of requests (dto) and the validation pipe; Tiers compares them with the
--                  validators of the database
--   Handlers       the controllers of the hub, each handler with its validation
--   Config         config/env.schema.ts: Loading is the schema and loadEnv, Reading and Bounds its laws
--   Portal         the libraries of apps/management-portal/src/lib and apps/dapp-portal/src/lib: Client is
--                  the client of the hub, Session NextAuth's callbacks, Form the form of a project,
--                  Transfer batches and uploads, Scanner the hook of the private scan as a step relation
--   Experiments    experiments/lib: the trial runner, with its laws in Trials, the CSV writer and the flags
--   Fixtures, Tests     a concrete outside and runs on it
--
-- How the code is read. An asynchronous method is a function from the hub's state to a result or an
-- error, and a state: what was written before an error stays written. The registry is part of that
-- state, since the scan's guarantee is about the chain. Before each call of the node the transactions
-- of others are mined, whatever they are (`others`); each call reaches the endpoint and is answered,
-- fails, or is carried out while its answer is lost (`net`), and each operation of the database may
-- fail (`db`). These, the clock, random bytes, hashes, ciphers, and the coder of ethers are fields of
-- the record Outside, so a theorem holds for every choice of them. What a theorem relies on of a
-- library is a hypothesis of it. The hub's own methods run one at a time here; concurrent scans appear
-- as the transactions of others.
--
-- Numbers. JavaScript's numbers that the hub only compares are whole here: a coordinate in millionths of
-- a degree, a date in milliseconds. `Number` of a text is a parameter.
--
-- Bounds. The contract's counter is 256 bits wide and wraps, as its unchecked increment does; a batch
-- has at most 500 hashes. `generate_unique_phi` counts down the three rounds of the source's loop.
-- `digits_of` has the number itself plus one as its fuel, which is more than its digits.
--
-- Not modelled: routing, guards, throttling, dependency injection, logging and metrics, the texts of error messages, the
-- zeroing of key buffers, the ABI encoding itself, gas and signatures; the pages and components of the portals, which are user interface; the
-- benchmarks, which run against live services and compute with floating-point numbers, and the
-- deployment and seed scripts.
pub mod Prelude
pub mod Registry
pub mod Errors
pub mod Documents
pub mod World
pub mod Hex
pub mod Wallet
pub mod Contract
pub mod Dates
pub mod Config
pub mod Logs
pub mod Producers
pub mod Projects
pub mod Scan
pub mod Auth
pub mod Subdocs
pub mod ErrorFilter
pub mod Hashing
pub mod Batches
pub mod Activities
pub mod Certifications
pub mod Uploads
pub mod Requests
pub mod Audit
pub mod Handlers
pub mod Portal
pub mod Experiments
pub mod Fixtures
pub mod Tests
