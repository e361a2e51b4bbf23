-- ===== src/Lib.antt =====
-- The Pipedrive MCP server: tools for a language model on Pipedrive's HTTP API, in Go.
--
-- A tool call is a handler of tools/. The handler asks the guards whether the configuration lets
-- it run, checks its parameters, builds a query, and sends a request through the client of
-- pipedrive/client.go. A read goes through the response cache of pipedrive/cache.go; a write drops
-- from the cache what it may have made out of date. The answer, JSON of one of two API versions, is
-- normalized, secrets in the raw payload are masked, and both are wrapped into the tool's result.
--
-- The modules, and the files that they are about:
--   Value, Value.Convert: JSON values and the type switches of pipedrive/normalize.go
--   Float64: float64 as a sign, a mantissa and a power of two, with the conversions to int64
--   Result: (value, error) returns, and pipedrive/errors.go
--   Mask: internal/mask.go
--   Query: url.Values, its order and its encoding
--   Pagination: internal/pagination.go, and effectiveLimit of tools/deals.go
--   Validate: internal/validate.go and internal/response.go
--   Normalize: pipedrive/normalize.go and pipedrive/normalize_mail.go
--   Config: pipedrive/config.go, and the readers of the environment and of the headers in
--     pipedrive/context.go
--   Guard: pipedrive/guardrails.go and ensureToolAllowed of tools/common.go
--   Registry: tools/registry.go
--   Cache: pipedrive/cache.go; Cache.Bucket is what it relies on in bbolt, Cache.Memory a bucket
--     that has it
--   Client: pipedrive/client.go; Client.Key is Key and identityHash of pipedrive/cache.go,
--     Client.Limiter is internal/ratelimit.go
--   Shared: the cache of a process, in pipedrive/context.go; Shared.Context: the values of a Go
--     context, and the functions there that fill it for a request
--   Tools: tools/common.go; Tools.Resource: what the handlers of tools/persons.go and of the files
--     like it share; Tools.Deals: tools/deals.go; Tools.Persons, Tools.Organizations,
--     Tools.Products, Tools.Leads, Tools.Activities, Tools.Notes, Tools.Filters, Tools.Webhooks,
--     Tools.Followers: the files of tools/ with these names; Tools.DealProducts:
--     tools/deal_products.go; Tools.Writes: the handlers of these files that write, as one
--   Tools.Mail: tools/mailbox.go; Tools.Mail.Paging is the loop over pages that its listings share,
--     Tools.Mail.Bodies the goroutines of dealsMailList
--   Tools.Metadata: tools/context.go; Tools.Fields: tools/deal_fields.go; Tools.Batch:
--     tools/activities_batch.go; Tools.Admin: tools/cache.go; Tools.Calls: the handler that
--     tools.go puts around a tool's function
-- Function and type names are the source's, in the spelling of this library: CachedGet is
-- cached_get, NormalizeDeal is normalize_deal, APIVersion is ApiVersion.
--
-- State is passed explicitly. World (Client.Exchange) is the clock in nanoseconds, the cache, the
-- requests sent and the calls of Wait on the client's limiters, the last one first. A handler is a
-- function from a world to a world and a result. Errors are values of Result.
--
-- What is outside of the repository is a parameter: the HTTP upstream with the time it takes, the
-- limiters of golang.org/x/time/rate, bbolt, SHA-256, the printing and reading of JSON,
-- time.ParseDuration, the HTML converter, and the clock, which moves while a request waits and is
-- sent and stands still otherwise. The order in which goroutines run is a parameter too; a goroutine
-- asks in one step. A law of the cache that needs its writes to succeed says so.
--
-- Bounds: the digits of a number are printed with a fuel of 20, and an int64 has at most 19. A
-- loop over the pages of a mailbox takes a fuel, one unit for a page, and is `none` where it wants
-- more; Tools.Mail.Paging.Terminates and Refines say how much is enough. All other recursion is
-- structural. int64 values are integers, with the wrap-around written out where
-- the source multiplies (the timeout). Texts are sequences of code points;
-- Prelude.Bytes counts and slices their bytes where the source does.
--
-- Not modelled: reflection, JSON schemas and tracing in tools.go, the command (cmd/mcp-pipedrive),
-- OpenCache and Close, HTMLToText of pipedrive/mail.go, and the memory that a slice needs:
-- dealMailFetch makes one of the limit's capacity.
pub mod Prelude
pub mod Float64
pub mod Value
pub mod Result
pub mod Mask
pub mod Query
pub mod Pagination
pub mod Validate
pub mod Normalize
pub mod Config
pub mod Guard
pub mod Registry
pub mod Cache
pub mod Client
pub mod Tools
pub mod Shared
