-- ===== src/Lib.antt =====
-- controller-runtime: the library for building Kubernetes controllers, modelled from its Go code.
--
-- How the program runs. An informer calls back for each change of an object
-- (pkg/source/internal/eventsource.go); the callback asks the predicates of its watch
-- (pkg/predicate) and hands the event to an event handler (pkg/handler), which adds requests to
-- the work queue. The workers of a controller (pkg/internal/controller) take the requests from the
-- queue, call the user's reconciler, and put a request back according to what it returned.
-- Reconcilers use the helpers for owner references and finalizers (pkg/controller/controllerutil,
-- pkg/finalizer). Beside that stand the webhooks for admission and conversion
-- (pkg/webhook/admission, pkg/webhook/conversion) and the tool that picks the binaries of a test
-- environment (tools/setup-envtest/versions).
--
-- The files and what they model:
-- - Prelude and its children: the shared library: Boolean tests, equality as an instance,
--   integers, lists over the native numbers, searches of lists, results that may fail.
-- - Object, Event: what is read of a client.Object, `reconcile.Request`, the events of pkg/event.
-- - Schema: names of kinds, and `GVKForObject` of pkg/client/apiutil/apimachinery.go.
-- - Predicate: `Funcs`, the four Changed predicates, `And`, `Or`, `NewPredicateFuncs` and
--   `LabelSelectorPredicate`; Predicate.Maps: reflect.DeepEqual on string maps.
-- - Queue: the items of the queue and the calls that are made on it.
-- - Handler: `Funcs`, `EnqueueRequestForObject` and `EnqueueRequestsFromMapFunc`; Handler.Owner:
--   `EnqueueRequestForOwner`. A handler's method gives the calls that it makes, in order.
-- - Source: `OnAdd`, `OnUpdate` and `OnDelete`.
-- - Controller: `reconcileHandler`, `processNextWorkItem`, the loop of a worker and the metrics;
--   Controller.Setup: `Watch` and `Start` with their mutex; Controller.Workers: the workers side
--   by side, as steps over a queue.
-- - OwnerRefs: `SetControllerReference`, `SetOwnerReference` and what they call.
-- - CreateOrUpdate: `CreateOrUpdate` and `mutate` of the same file, over a client;
--   CreateOrUpdate.Patching: `CreateOrPatch`.
-- - Finalizer: `AddFinalizer`, `RemoveFinalizer`, `ContainsFinalizer`, `Register` and `Finalize`.
-- - Conversion: `ServeHTTP`, `handleConvertRequest`, `convertObject`, `convertViaHub`, `getHub`,
--   `allocateDstObject`, `IsConvertible` and `objectGVKs`.
-- - Admission: the responses, `Complete`, `Webhook.Handle` and the multi handlers of
--   pkg/webhook/admission; Admission.Objects: its decoder and the handlers that validate and
--   default objects.
-- - Versions: the selectors of versions, and platforms; Versions.Parse: `FromExpr`,
--   `PatchSelectorFromMatch`, `PointVersionFromValidString` and `ExtractWithPlatform`.
-- - Arguments: the structured arguments of pkg/internal/testing/process/arguments.go;
--   Arguments.Slicing: `SliceToArguments`; Arguments.Flags and Arguments.Sorting: what it does.
-- - Manager: `Add`, the checks and handlers, and what the goroutines of `Start` do with the mutex of
--   pkg/manager/internal.go, with a trace of what is started; Manager.Steps: these in any order;
--   Manager.Shutdown: `Start`, `engageStopProcedure`, `waitForRunnableToEnd`; Manager.Options:
--   `setOptionsDefaults`, `AndFrom` and `setLeaderElectionConfig` of pkg/manager/manager.go.
-- - FakeClient: the versioned tracker of pkg/client/fake/client.go, `Create`, `Update`, `Delete` and
--   `DeleteAllOf`; FakeClient.Numerals: `ParseUint` and `FormatUint` of Go's strconv in base 10.
-- - ClientOptions: the options of pkg/client/options.go; ClientCalls: the request that
--   pkg/client/typed_client.go makes of a call; ClientCalls.Wrappers: `namespacedClient` and
--   `dryRunClient` of pkg/client/namespaced_client.go and pkg/client/dryrun.go.
-- - Health: the handler of pkg/healthz/healthz.go, over the checks in the order of the range;
--   Health.Ranging: that order; Health.Reports: the text of an answer.
-- - Cache: `CacheReader` of pkg/cache/internal/cache_reader.go; Cache.Namespaces: the cache of several
--   namespaces in pkg/cache/multi_namespace_cache.go.
-- - The files named Examples hold tests and concrete cases, over the objects of Samples.
--
-- State and failure. Code that changes an object or a controller is a function that gives it as it
-- is afterwards, with the error, if any. A mutex is a Boolean; to lock it twice is the outcome
-- `deadlock`. A panic is an outcome of its own; the predicate of a label selector alone, which
-- dereferences the object of an event, is given what a nil object yields as an argument. The
-- object that a method may be handed as nil is
-- an Option.
--
-- Parameters. The reconciler, the client, a map function, finalizers, the conversions of a type,
-- the REST mapper, the scheme, the decoder, ParseGroupVersion and GetControllerOf of apimachinery,
-- regular expressions, the sorting of texts, and the order in which Go ranges over a map are
-- arguments. The work queue is a record of operations with what client-go documents: an item that
-- is being processed is not given again. The ObjectTracker of client-go is a record of calls, which
-- read and write one object for a resource, a namespace and a name.
--
-- Bounds. The loop of `RemoveFinalizer` runs on fuel, one round for each finalizer: each round
-- shortens the list or raises the index, so that the fuel is enough. All other loops are
-- structural. Go's ints of versions are integers, which are compared only; `strconv.Atoi` keeps
-- its bounds of 64 bits, and the versions of the fake client wrap around at 2 ^ 64. A uint64 has at
-- most twenty digits, which is the fuel of `format_digits`. Counters of metrics are natural numbers.
--
-- Not modelled: the informers and how caches start, the other clients, the reading half of the fake client, the HTTP
-- side of the admission webhooks, the builder, sources, leader election, logging,
-- the rest of the test environment and of setup-envtest. Contexts, log lines, times and the text
-- of errors are left out everywhere.
pub mod Prelude
pub mod Object
pub mod Event
pub mod Predicate
pub mod Queue
pub mod Handler
pub mod Source
pub mod Controller
pub mod Schema
pub mod Samples
pub mod OwnerRefs
pub mod Finalizer
pub mod Versions
pub mod Conversion
pub mod Admission
pub mod CreateOrUpdate
pub mod Arguments
pub mod Manager
pub mod FakeClient
pub mod ClientOptions
pub mod ClientCalls
pub mod Health
pub mod Cache
