-- ===== src/Lib.antt =====
-- Glidepath: the release relay, the token endpoints, the API's state and its writes, the DORA exporter.
--
-- Glidepath follows a release from its pull request to its rollout. Rollouts and Argo CD post facts
-- to the relay (glidepath/broker/cmd/glidepath-relay). The relay authenticates the cluster, finds
-- the release's record (a ConfigMap), runs a state machine over the record's state, sends the
-- CDEvents that the machine decides on to the broker, and writes the state back. Beside the broker
-- an interceptor mints GitHub tokens for the callers that own what they ask for. The API
-- (glidepath/api) keeps the recent CDEvents in a buffer with live streams, serves lists, pushes
-- an application's runs to its viewers, and says what an environment can be rolled back to. The DORA
-- exporter counts the releases and keeps its totals over restarts.
--
-- Relay/Reducer.antt: reducer.go. `reduce` and `reduce_sync_failed` take the state and return the
--   new one with the decision; `run` folds them over inputs in the order of their arrival.
-- Relay/Record.antt: facts.go, `parseReleaseID`, `loadRecord`, `stateFromRecord`, `persistState`.
-- Relay/Apply.antt: facts.go, `apply`. What the API server and the broker answer in a round is an
--   input, and the calls that change something are listed in their order.
-- Relay/Siblings.antt: facts.go, `supersedeOlder` and `markRolledBack`.
-- Relay/Handler.antt: main.go `authenticate`, facts.go `handleFacts` and its loader. A generation is
--   an integer.
-- Relay/Argo.antt: argocd_facts.go.
-- Events/Store.antt: glidepath/api/internal/events/store.go. Each method holds the lock throughout,
--   so that a history of the store is a list of calls, whatever threads made them.
-- Server/Paging.antt: glidepath/api/internal/server/paging.go, `paginate`.
-- Broker/Names.antt, Broker/Tokens.antt: glidepath/broker/cmd/token-review-interceptor, the endpoints
--   that mint GitHub tokens for callers that a TokenReview authenticates.
-- Broker/Intercept.antt: main.go there, `handle`, the interceptor of the broker's EventListener.
-- Broker/Pin.antt: agentpin.go there, `handleAgentPin` up to its call of `openPinPR`.
-- Environments/Rollback.antt: glidepath/api/internal/environments/rollback.go, `PlanRollback`. A time in
--   milliseconds counts from the year 0, with which RFC 3339 starts.
-- Environments/Yaml.antt, Environments/Plan.antt: plan.go there, on the nodes that the YAML library parses.
-- Environments/Runs.antt: environments.go there, `startRun` on the PipelineRuns of a namespace.
-- Environments/Promote.antt, Environments/StartRollback.antt: `Promote` of promote.go and `Rollback` of
--   rollback.go; both end in `startRun`.
-- Environments/Source.antt: promote.go there, `resolveSource`.
-- Results/Cache.antt: glidepath/api/internal/results/cache.go, its clock an argument of each call.
-- Live/Stream.antt: glidepath/api/internal/live/stream.go, a namespace's watch. Each critical section
--   of its lock is a step, and so is a viewer's read of its channel; `run` folds them. A viewer keeps
--   what it has made of its snapshot and of the changes that it read.
-- Dora/Exporter.antt, Dora/Paths.antt: glidepath/dora-exporter/cmd/dora-exporter/main.go. `recordOutcome`
--   and `persistMetricsState` act on the collectors and on a ConfigMap, and `prime` is the start of a
--   process; `handleArgoCDOutcome` and `reconcile` use them, and `run` folds those over events.
-- Prelude and its children hold what they share: lists measured by native numbers, texts,
-- association lists for Go's maps, total orders, the stable sorts and the binary search.
--
-- Bounds and fuel: `apply` makes at most the four rounds of the source. `search` runs on as much
-- fuel as the range is wide, which each round at least halves. `decimal` of n has n + 1 digits to
-- write at most. A `walk` over pages takes its fuel as an argument, and the number of items is
-- enough. Times are nanoseconds since Go's zero time, so that 0 is the zero time. An RFC 3339 text can
-- also give an earlier one, in the year 0000 or by an offset at the start of the year 1; records and
-- events with such a text are outside the model. The numbers of the source stay far below its word
-- size here, and are unbounded in the model.
--
-- Parameters: RFC 3339 formatting and parsing (`TimeText`, `Formats`, `parse`), the seconds between
-- two times and the JSON text of a persisted record, which reads back (`Formats`), JSON decoding of
-- facts, of requests and of event headers, the hash of an event's key, the registry's ConfigMaps and
-- Secrets, TokenReview, the Repository objects of a namespace, GitHub's answers, the parser of YAML
-- and what it makes of scalars, case folding and trimming of any text, what a TriggerTemplate makes of
-- its parameters, the reads and lists of the API server, and which of its writes it refuses.
--
-- Not modelled: the requests to GitHub behind a pin, the texts of errors, the replacement of parameters
-- in a TriggerTemplate, the count of viewers by which a namespace's watch starts and stops, the reads of
-- Tekton Results behind the cache, the assembly of an event's JSON, logging, HTTP and process set-up;
-- the policy bundle, the evidence and the other readers of the API; charts, catalogs and tools.
pub mod Broker
pub mod Dora
pub mod Environments
pub mod Events
pub mod Live
pub mod Prelude
pub mod Relay
pub mod Results
pub mod Server
