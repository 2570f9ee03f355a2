-- ===== src/Lib.antt =====
-- A model of the KubeSlice worker operator: the controllers of a worker cluster that joins slices
-- with other clusters through pairs of slice gateways, each a deployment of pods on a server
-- cluster and on a client cluster.
--
-- Parts. The hub holds objects that the clusters of a project share; each cluster's operator reads
-- them and its own API server, and writes its part of them. A gateway pair is replaced by the
-- gateway recycler: the hub client creates a recycler object, the server's operator drives a state
-- machine that it stores in the object's spec, and posts requests there; the client's operator
-- answers in the object's status. The VPN keys of the gateways are rotated by another controller,
-- which copies the new certificates from the hub, waits for both sides, and then starts a recycler
-- for each pair of pods. A node controller keeps the addresses of the gateway nodes.
--
-- State and calls. A controller's run is an action of Base.Effects: it takes the calls made before
-- it, newest first, and returns its result, or that it panicked, with the calls it has added. What
-- the outside answers to a call is a function of all calls before it, so nothing is assumed of it.
-- The objects are records of Objects with the fields that the controllers read or write. Logging,
-- metrics and the passing of contexts are left out. The retry helpers (retry.Do,
-- retry.RetryOnConflict) and the state machine library are parameters: a retry helper runs its
-- body a bounded number of times and nothing else, the machine reports the state it was put in. A
-- retried body that assigns variables of the function around it takes and returns them
-- (Base.Retries). No definition runs on fuel; every recursion is on a list, or on the number of
-- retries that are left.
--
-- Files and sources.
--
--   Base and its children: lists, maps as association lists, results, text, counting, the action
--     monad and its proof rules.
--   Objects: api/v1beta1/slicegateway_types.go and the fields used of other kinds.
--   Recycler (Names, Calls, Helpers, Machine, Server, Client, Reconcile):
--     pkg/hub/controllers/workerslicegwrecycler/. getNewDeploymentName and the request and
--     response names are in Names, helpers.go in Helpers, Reconcile is split into server and
--     client, one function per state and per request.
--   Recycler.Permitted, Footprint, Safety: what one run may write. Recycler.Handshake: the
--     versions of a recycler that the two clusters write, where a run may have seen any older
--     version; SeesOwnWrites is the hypothesis that its copy is current in the field that its
--     own side writes, which the manager's cache does not guarantee.
--   Nodes (Lists, Info): pkg/cluster/node.go, pkg/cluster/node_reconciler.go, and the list
--     comparisons of pkg/hub/utils.go.
--   Gateways: the names and look-ups of controllers/slicegateway/utils.go that the other parts
--     use; Gateways.Names has the properties of the names, Gateways.Ports the allocation of node
--     ports to client deployments, Gateways.Rebalance the choice of the pods to rebalance.
--   Rotation (Calls, Status, Secrets, Reconcile):
--     pkg/hub/controllers/vpnkeyrotation/reconciler.go, and TriggerFSM of pkg/slicegwrecycler.
--     Status has the updates of the rotation object and syncCurrentRotationState, Secrets the
--     certificates and the start of the recycling, Reconcile the steps, one function for each
--     part of a step. Rotation.Writes (Sync, Runs, Secrets, Steps, Loop, History): what one run
--     may write.
--   Webhook (Mutate, Aliases, Handle): pkg/webhook/pod/. Mutate has the mutations and
--     MutationRequired, Aliases ValidateServiceExport and aliasExist with strings.EqualFold by a
--     table of simple case folding, Handle the answers. A Go panic is a result of its own.
--   Cluster (Calls, Location, Health, Status, Dashboard, Deregister, Reconcile):
--     pkg/hub/controllers/cluster/ and pkg/cluster/cluster.go. Each step of Reconcile is a
--     function; a step that retries is a body on the cluster that it holds. Deregister has
--     createDeregisterJob and handleClusterDeletion with the global count of failures as an
--     argument and a result. Cluster.Warrant, Deregister.Stale, Deregister.Attempts,
--     Deregister.Polls, Health.Normal, Health.Statuses, Health.Assessed and Status.Settled: its
--     properties.
--   Namespaces (Calls, Offboard, Onboard, Allowed, Policies, Reconcile):
--     controllers/slice/namespaces.go. Offboard has unbindAppNamespace and
--     deleteAnnotationsAndLabels, one function for the three kinds of workloads, Onboard
--     reconcileAppNamespaces and its loop, Allowed the allowed namespaces and their annotation.
--     Onboard.Bound, Loop, Reported, Offboard.Restored and Allowed.Annotation: the properties;
--     Restored composes the offboarding with the webhook.
--   Export (Calls, Compare, Steps, Reconcile, Hub): controllers/serviceexport/ without the Istio
--     files, and in Hub the three calls for service exports of pkg/hub/hubclient/hubclient.go.
--     Steps has the steps of Reconcile, each of which ends the reconciliation or lets it go on,
--     Compare the comparisons of utils.go and isAliasStatusInSync; finding the ingress gateway
--     is GetSliceIngressGwPod of controllers/controller.go. Export.Deletion: what a deletion has
--     done. Export.Aliases and Changes: what isAliasStatusInSync and isServiceAppPodChanged
--     decide. Export.Published: what the hub holds.
--   Tests: the theorems at concrete inputs, and runs.
--
-- Not modelled are the rest of the slice controller, the slice gateway and service import
-- controllers, the Istio resources of service exports and the manifests of pods and services; the
-- sidecar, router and network service mesh clients only pass calls on.
pub mod Base
pub mod Objects
pub mod Recycler
pub mod Rotation
pub mod Gateways
pub mod Nodes
pub mod Webhook
pub mod Cluster
pub mod Namespaces
pub mod Export
mod Tests
