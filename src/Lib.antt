-- ===== src/Lib.antt =====
-- internal/: a Go service with accounts (registration, login, refresh tokens, administration of
-- users) and with the upload, query and report of SQL logs, over PostgreSQL.
--
-- Exec is the monad of the methods: a world that is read and written, an error that stops the
-- method, and what was written before the error stays written. Db has the rows of
-- internal/db/db.go with their hooks. The database is an interface: a table (Db.Table) is a record
-- of the calls of gorm that the code makes, and Db.Laws says what they promise: an answer speaks
-- of the rows at the time of the call, a write does what its statement says or fails and changes
-- nothing. Db.Memory is a table in a list that meets these laws.
--
-- Auth is internal/auth/service.go. Auth.Backend gathers what the service calls: the three tables,
-- the clock, uuid, crypto/rand, bcrypt, sha256 and jwt, all of them parameters. Auth.Tokens,
-- Auth.Accounts and Auth.Admin have the methods, one definition each; Auth.Laws says which call
-- leaves which table alone. Auth.Registration, Auth.Sessions and Auth.Rotation follow a
-- registration, a login and a refresh through the tables.
--
-- Handlers is internal/http/handlers: Handlers.Accounts and Handlers.Admin have the handlers of
-- auth.go from the decoded body to the reply, Handlers.Guards has the guards of middleware.go with
-- the context of internal/authctx. Router is internal/http/router.go: which guard stands in front
-- of which handler, for the accounts (Router) and for the SQL logs (Router.Logs), and sequences of
-- calls of both (Router.Server). Handlers.Roles is RequireRoles.
--
-- Middleware is internal/http/middleware.go: the capture of the bodies for the log (a sequence of
-- calls of the writer, a sequence of reads), the masking of headers, and CORS. Middleware.Stack is
-- the chain of the middlewares around a handler, which is described by its calls of the writer,
-- its reads of the body and whether it panics; it has the probes of health.go too.
--
-- Sqllog is internal/sqllog: Sqllog.Parser has parser.go, with the regular expression as the
-- search that it stands for, Sqllog.Repo the queries of repo.go over a table of records,
-- Sqllog.Report the limits, reasons and texts of report.go, with its filter
-- (Sqllog.Report.Filter), Analyze (Sqllog.Report.Analyze) the rows of the CSV export
-- (Sqllog.Report.Csv) and ExportPDF (Sqllog.Report.Pdf) as calls of a document of gofpdf, which is
-- an interface: its lengths are nanometres, and its laws say which texts and boxes a call leaves
-- on the document and where the cursor is. Sqllog.Stats is stats.go: the texts and arguments of
-- the raw queries and the arrays that they answer with; what PostgreSQL answers is part of an
-- interface (Sqllog.Stats.Compute.ReportStore). A fraction is a number of hundredths there, and
-- the floats of the percentiles are an interface.
--
-- Handlers.Scan, Handlers.Upload, Handlers.Query, Handlers.Report and Handlers.Ai are the handlers
-- of sqllog_scan.go, sqllog_upload.go, sqllog_query.go, sqllog_report.go and ai_analysis.go: each
-- reads its parameters, calls the repository, and makes the reply. Sqllog.Parser.Sound says what
-- every parsed record has, so the upload and the start know that the repository takes it.
--
-- Db.Seed is internal/db/seed.go. Startup is the way of cmd/api/main.go and cmd/seed/main.go from
-- the configuration to the exit, with db.New, the load of the log file and the select of
-- internal/http/server.go.
--
-- Config is internal/config/config.go. Strings and Strconv are the functions of Go's strings and
-- strconv that the code calls, on bytes: to_lower changes the letters whose lower case is in
-- ASCII, which is all that the tests of the code against texts in ASCII can tell, and equal_fold
-- is for texts one of which is in ASCII without k and s. The origins of CORS are compared by
-- strings.EqualFold as a parameter.
--
-- Loops are structural recursion on lists and texts. Only the digits of a number (Strconv.emit)
-- are printed on fuel: the number itself, which is enough because each round divides by ten
-- (Strconv.Laws reads every printed number back). Times are nanoseconds since the zero time of Go,
-- as natural numbers. The integers of a page are int64 with their wrap-around.
--
-- The times of a record and of a window are natural numbers too; the counts and limits of the SQL
-- logs are int64 values.
--
-- Not modelled: the test of a handler for a missing repository, the JSON decoder and encoder, the
-- writer of encoding/csv, the parsing of multipart forms, the pattern matching of ServeMux, the
-- logger, the SQL that gorm generates, the inside of gofpdf, the OpenAI client, a router without a
-- service or a repository, the generated documentation (docs/), observability and the test
-- helpers. The tests (Tests) hold a server in memory and the theorems at concrete inputs.
pub mod Prelude
pub mod Strings
pub mod Strconv
pub mod Exec
pub mod Config
pub mod Db
pub mod Auth
pub mod Handlers
pub mod Router
pub mod Middleware
pub mod Sqllog
pub mod Startup
pub mod Tests
