-- ===== src/Lib.antt =====
-- Breeze ORM: from an immutable query to SQL text and its arguments.
--
--   Query          pkg/query/expr.go and join.go: the predicate AST, joins, order terms. `Expr` is the
--                  interface (`nil` its nil value); a Go slice of children is `Exprs`.
--   Query/Builder  pkg/query/builder.go: `Builder[T]` as a record, one function per method, the
--                  receiver first. A Go method `Where` is `filter`.
--   Query/Eval     the meaning of a predicate in SQL's three-valued logic: the optimizer's reference.
--   Dialect        pkg/dialect/dialect.go, with a child per dialect (postgres.go, mysql.go, sqlite.go,
--                  sqlserver.go); Identifier has the loops that they share.
--   Planner        pkg/planner/logical.go (`Build` is `build`); Physical is physical.go; Flatten is
--                  `flatten` of pkg/sqlgen/sqlgen.go, which takes the plan apart again.
--   Sqlgen         pkg/sqlgen/sqlgen.go: the generator's state (buffer, arguments, error) is passed on
--                  explicitly. Expression and Statement write SQL, Bulk the multi-row INSERT, Args
--                  collects the arguments alone. Template and its child say what the text is without a
--                  counter or a state; Runs, Renders and Matches have the proofs.
--   Optimizer      pkg/optimizer/optimizer.go: the passes. Keys has the two byte keys of a predicate;
--                  Order, Meaning, Plan, Binds, Swapped and Refines are about what they do to a query.
--   Plugins        pkg/plugins/plugin.go: the chain; Builtin has SoftDelete and MultiTenancy,
--                  Observers the other plugins.
--   Compiler       pkg/compiler/compiler.go: `Compile`; Keys has the bytes that the two cache keys hash
--                  (prehash.go and compiler.go), Shape what they leave out.
--   Cache          pkg/cache: Lru is lru.go (list, map, counters), Calls its `GetOrCompute` and
--                  `GetOrComputeNoTouch` as interleaved critical sections, Sharded is sharded.go,
--                  CopyOnWrite is cache.go.
--   Orm            pkg/orm/query.go and db.go: `compileCached`, and `prepare_query`, which is
--                  `queryAndPlanBuilder` up to the plugins; Stale and Sends are about both. Writes has
--                  `Create`, `UpdateAll` and `Delete`, Values what of a model they write, Batch an
--                  attempt of `CreateBatch` and Chunks the statements that it sends. Opening is all of
--                  `queryAndPlanBuilder`, Reads what reads the rows that it opens; Held and Closing
--                  are about which rows stay open.
--   Hooks          pkg/hooks/hooks.go: the functions of a model around a write.
--   Retry          the delays and the test of an error's text that both retry loops have.
--   Execution      pkg/execution/executor.go: `withRetryGeneric`; Statements has `prepare` over the
--                  statement cache, `Query`, `Exec` and `QueryCursor`; Paths and Rounds are about them.
--                  Batch is batch.go, and Cursors is about the rows that a query opens.
--   Transaction    pkg/transaction/transaction.go: `Run`, nested by savepoints, retried at the outside.
--   Metadata       pkg/metadata: Tags is tag.go, Walk `walkFields`, Compiled `compileStruct`; Offsets and
--                  PrimaryKeys are about the table that they make, and Registry is `Compile`.
--   Scanner        pkg/scanner/scanner.go: the pointers of a plan; Rows reads rows through them. Targets
--                  and Plans say what the pointers point to, Closing and Cursor what reading promises.
--   Validation     pkg/validation/validation.go: the rules of a tag; Rules says what
--                  it is to break one, and Verdict when a struct passes.
--   Migrations     pkg/migrations/migration.go: `Up` and `Down` over a version table; Diff is diff.go.
--   Text           the parts of Go's strings and strconv that the source uses, on lists of bytes.
--   Prelude        shared names, tests, lists and `int64`.
--   Tests          runs on concrete inputs, and the theorems at inputs where their hypotheses hold.
--
-- The parts meet as in `Compile`: a `Builder` is lowered by `build`, passed through the plugins,
-- rewritten by `optimize`, wrapped by `plan_physical` and written by `generate_sql`. `compile_cached`
-- keeps the outcome in a shard of the LRU under `pre_hash`; on every call `extract_args_from_builder`
-- gives the arguments. Every dialect is a value of the record `Dialect`, which the generator's
-- definitions take as a parameter. Functions are structurally recursive, but for these: `next_pow2` and
-- `prev_pow2` double for 64 rounds, which is more than an int has bits; `decimal` has a unit of fuel for
-- each digit and one more than the number; the eviction loop has as many rounds as there are entries,
-- each of which takes one away; a batch has a unit for each model and one more, of which each chunk takes
-- one; reading rows has a unit for each call of `Next`, given that the rows come to an end.
--
-- Strings are lists of bytes and a literal is read as its code points, which are its bytes since all
-- of them are ASCII. A bound value (`any`) is nil, an int64, a string, a bool, a `[]any` or a `[2]any`
-- of those. Pointers to plan nodes are values: no pass shares a node. `int64` arithmetic wraps, and the
-- caches' counters are `int64` bit patterns. A list element and a call under way are pointers, which
-- are modelled as numbers. `maphash` under the process's seed is a parameter; so are the database, the
-- driver and its errors, the cursor over rows, the caller's functions and the plugins' own code. What
-- reflection reports of a struct is a list of its fields with their offsets.
--
-- Not modelled: the transaction that is begun around a batch, relations and the pools; reflection,
-- the registry of generated scanners, the deadlines that the executor gives a context; pkg/driver but
-- for its interfaces, pkg/xtypes, the benchmarks and the examples, which are adapters and fixtures.
-- The builders' slices are lists, so that two queries derived from one builder share no spare
-- capacity; a computation that fails gives its caller no value beside the error; generated scanners
-- and drivers do not panic; and `TrimSpace` and `ToLower` are those of ASCII text.
pub mod Prelude
pub mod Text
pub mod Query
pub mod Dialect
pub mod Planner
pub mod Sqlgen
pub mod Optimizer
pub mod Cache
pub mod Plugins
pub mod Compiler
pub mod Hooks
pub mod Execution
pub mod Orm
pub mod Retry
pub mod Transaction
pub mod Metadata
pub mod Scanner
pub mod Validation
pub mod Migrations
mod Tests
