-- ===== src/Lib.antt =====
-- The undermoon operator (pkg/controller/undermoon): a Kubernetes operator that keeps a cluster of
-- Redis proxies and servers, its brokers and its coordinators as an `Undermoon` resource asks for.
--
-- Reconcile of undermoon_controller.go is one pass: it creates the services and StatefulSets of the
-- three components, waits for brokers and coordinators, finds the master broker and tells the
-- coordinators about it, repairs the broker's epoch, registers the server proxies that it finds,
-- creates and scales the cluster in the broker, and scales the StatefulSet of the storage down last.
--
-- Each file models a part of pkg/controller/undermoon unless it says otherwise:
--   Common                 the libraries' names, tests on numbers and texts, lists and integers
--   Kube                   the objects of the Kubernetes API that the code writes and reads, and the
--                          resource (pkg/apis/undermoon/v1alpha1/undermoon_types.go)
--   Go                     errors and results; Int32, Format and ParseInt are int32, %d and
--                          strconv.ParseInt
--   World, Api             the API server, HTTP and Redis: a call, the history of calls and an
--                          environment that answers each call as a function of the calls before it
--   Exec                   stateful code with errors: a function of the state, which holds the
--                          history and the two pools of Redis clients
--   RedisPool              redisClientPool of utils.go
--   Names                  names and addresses of broker.go, coordinator.go and storage.go
--   Resources              the manifests of the same three files
--   Utils                  the guards and getEndpoints of utils.go, and the shape that the six
--                          getOrCreate functions share
--   BrokerClient           broker_client.go
--   Clients                coordinator_client.go and proxy_client.go
--   BrokerController       broker_controller.go
--   CoordinatorController  coordinator_controller.go
--   StorageController      storage_controller.go
--   MetaController         meta_controller.go
--   Reconciler             undermoon_controller.go
--   Trace                  the history of calls: what justifies a call that changes the cluster, and
--                          the states that runs of Reconcile reach
--   Effort                 the number of calls of each function, by the length of the lists it loops over
--   Progress               a world in which everything is up: Reconcile ends there, and from run to run
--                          the master broker stays
--   Controllers            how the four controllers are made, with their clients and pools
--   Startup                the process: cmd/manager/main.go, pkg/controller/controller.go and
--                          add_undermoon.go, and Add, newReconciler and add of undermoon_controller.go
--   Errors                 the errors of each function, with the sentinels told from the others
--   Tests                  a sample environment, runs in it, and the theorems at concrete data
--
-- A Go function with an error is a function into `Exec GoError`; its name is the Go name in snake
-- case. The environment is a parameter of all of them. It may answer in any way, and differently each
-- time, as it does where other clients of the API server and the brokers are at work. What a call
-- does to the world is not modelled; that it was made is. Library functions that call nothing
-- (SetControllerReference and resty's accessors of a response) are fields of the environment too.
--
-- Loops are recursions on the list or the number of rounds that they run through, so that no fuel is
-- needed; the guards of utils.go run three rounds at most, as in the code. A `uint32` is a natural
-- number and where it is multiplied as `int` nothing can wrap; where the code converts to `int32` the
-- wrap-around is written out. Labels, which the code keeps in maps, are lists of pairs.
--
-- BrokerClient/Effects reads off the history what the calls ask the brokers to hold: the
-- configuration, and the registry of proxies as a set of addresses (BrokerClient/AddressSet), which
-- forgets order and repetition. That the brokers answer accordingly is a hypothesis where it is used.
--
-- The start-up is modelled as the calls that it makes of operator-sdk and controller-runtime, whose
-- answers depend on the calls before; objects of these libraries are values of an unknown type. An
-- error of main is the status that the process exits with.
--
-- Not modelled: logging and the flags of the process, how the manager serves its watches, the
-- registration of the API types and their generated copies, owner references beyond their success,
-- JSON, and what newer versions of an object the API server may hold.
pub mod Common
pub mod Go
pub mod Kube
pub mod World
pub mod RedisPool
pub mod Exec
pub mod Api
pub mod Names
pub mod BrokerClient
pub mod Utils
pub mod Resources
pub mod Clients
pub mod BrokerController
pub mod CoordinatorController
pub mod StorageController
pub mod MetaController
pub mod Reconciler
pub mod Controllers
pub mod Tests
pub mod Trace
pub mod Errors
pub mod Startup
pub mod Effort
pub mod Progress
