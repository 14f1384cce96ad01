-- ===== src/Lib.antt =====
-- keptn-gitops-operator: a model of its Kubernetes controllers and of the promotion service.
--
-- The program has three parts that are used here. keptn-operator watches custom resources (projects,
-- services, stages, sequences, shipyards, service deployments, sequence executions, scheduled
-- executions, instances) and brings the Keptn control plane to the state that they describe, by
-- requests to its API and by pushes to the project's git repository. promotion-service handles an
-- event of Keptn: it updates the stage's git repository and reports the end of the task.
-- gitops-operator creates and updates the custom resources that a git repository describes.
--
-- Base        Go's errors, (value, error) pairs, panics and string maps.
-- Base.Paths, Base.Replace    Go's path/filepath, strings.Index and bytes.Replace.
-- Api         the custom resources of keptn-operator/api/v1 and gitops-operator/api/v1.
-- Cluster     the world of a controller. Cluster.Calls lists the calls on code that is not the
--             repository's (the Kubernetes client, net/http, go-git, the clock), Cluster.Monad has the
--             environment that answers them and the functions of libraries (hashstructure, base64,
--             RSA, time.Parse) as parameters, Cluster.Trace what the statements count and the law of an
--             API server that stores objects, Cluster.Within, Written, Pushing and Fails which calls code
--             makes, and what it writes, pushes and returns, Cluster.Sample a small environment for the tests.
-- Operator.Utils, Secrets, Compose    keptn-operator/pkg/utils: helpers.go, keptn.go and git.go;
--             decrypt.go (also promotion-service/pkg/utils/decrypt.go); shipyard.go.
-- Operator.Project, Service, Stage, Shipyard, Instance, ServiceDeployment, SequenceExecution,
-- ScheduledExec    keptn-operator/controllers/keptn<name>controller. `reconcile` is Reconcile, from a
--             request to an outcome and the world that the run leaves; the functions before it are
--             its helpers and its parts, named `with_...` for what the part is given. The modules
--             below each component have its theorems, and `Tests` runs them on the small cluster;
--             ServiceDeployment.Event and Checks and Project.Requests hold helpers of theirs.
--             Operator.Instance has EncryptPublicPEM of pkg/utils/encrypt.go, Operator.Shipyard
--             CheckOutGitRepo of git.go, and Operator.Stage the sequence controller, which does
--             nothing.
-- Gitops.Parts, Apply, Kinds    gitops-operator/controllers/utils_keptn*.go: checkCreate and reconcile,
--             which are the same for each kind of resource but for the types and messages of Parts;
--             Kinds has the function of each kind.
-- Gitops.Repository, Manifests, Delivery, Files, Git, Credentials    the rest of
--             gitops-operator/controllers: keptngitrepository_controller.go, utils_manifest.go,
--             utils_artifactdelivery.go, fileutils.go, common/git.go, and common/decrypt.go with
--             common/utils_git.go. Gitops.Quiet shows what of them writes no object of the cluster, and
--             Gitops.Repository.Missing counts the manifests without an object.
-- Promotion.Handler, Update, Values    promotion-service/eventhandler/eventhandlers.go, with
--             EnvBasedStringSupplier of common/utils.go; UpdateGitRepo and its helpers, and MergeValues,
--             Manipulate and merge, of pkg/utils/githandler.go. The handler calls the git handler
--             through the interface GitHandlerInterface; Promotion.Service puts the two together.
-- Promotion.Events    promotion-service/main.go: which events are handled, under the mutex.
-- SecretsCommand    keptn-gitops-secrets/cmd: encryption, decryption and the making of keys.
--
-- A Go function that calls out is a function from a world to an outcome (returned, or ended by a
-- panic or an exit of the process) and the world that it leaves. A world is the environment's
-- state and the trace of the calls with their answers, latest first. The environment is any: what
-- it answers, errors included, is not fixed. A statement that needs objects to be stored assumes
-- a `Stores`: reads give the stored object, a successful status update stores what it is given,
-- and no other call changes it, so that no other client writes these objects in the meantime;
-- `KeepsAnnotations` assumes the same of creations and updates, but of the annotations only;
-- `KeepsObjects` assumes which names have an object, and that no client deletes one;
-- `KeepsStatus` assumes that an update of a git repository's status stores that status; `IsRsa`
-- what Go's rsa and base64 promise. Loops are structural recursions on lists; the retries of the
-- promotion handler are a recursion on the six rounds that are left, the loop's own bound. Times
-- are numbers of seconds.
--
-- What Walk visits is listed when the walk starts, and the order in which `range` visits a map is an
-- answer of the environment. A mutex that nothing will release is waited for for ever.
--
-- Not modelled: log lines; the set-up of managers, watches, event receivers and command line flags;
-- generated deep copies and mocks; CopyFile and CopyDir of fileutils.go, which are copied from another
-- project and are a call.
pub mod Base
pub mod Api
pub mod Cluster
pub mod Operator
pub mod Gitops
pub mod Promotion
pub mod SecretsCommand
