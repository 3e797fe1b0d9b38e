-- ===== src/Lib.antt =====
-- huma, a RabbitMQ SDK for Go (package huma): a model of its publisher pool, its consumers, its
-- publishing API, its topology, its connection, its reconnection, its shutdown, its configuration
-- and its metrics.
--
-- An SDK holds one connection, one channel on which it declares queues and consumes, and a pool of
-- channels on which it publishes. The application declares queues and starts consumers; a consumer
-- hands each delivery to the application's handler and settles it, and publishes the copy of a
-- failed one for a retry. Publishers and consumers take channels from the pool.
--
-- Base     numbers, lists and tests that the other modules share. ℤ stands for Go's integers and
--          durations, which are exact; the conversions to int32 and the doubling of the pool size
--          wrap as they do in Go.
-- Go       error values, results, calls that may fail on a state, tables, durations, decimals.
-- Config   types.go and the checks and defaults of NewSDK in rabbitmqsdk.go: Config/Queue is
--          QueueConfig and its validate, Config/Sdk is SDKConfig and the first part of NewSDK.
-- Opening  the second part of NewSDK: what it opens, and what it closes when a part fails.
-- Connection  connectionState and the Dial function of NewSDK: a dial and a shutdown as two
--          goroutines that share a socket, and a schedule of their steps. Connection/Raw is the
--          interrupt of publisher_pool.go, with the sockets that pools are given.
-- Amqp     the values exchanged with github.com/rabbitmq/amqp091-go, and the log of calls.
-- Message  message.go: the builder, validate and formatDurationToExpiration.
-- Pool     publisher_pool.go: the pool and its constructor with the close that it calls.
-- Publisher  get, put and close of publisher_pool.go and publishAMQP of rabbitmqsdk.go, as
--          goroutines that share one pool. A program counter stands wherever another goroutine may
--          act in between, and a schedule is a list of steps, each with what the step reads of its
--          environment: the contexts, the broker and the choice of a select. Publisher/Solo is one
--          such call from begin to end.
-- Publish  Publish, BatchPublish and PublishWithDelayDLXTTL of rabbitmqsdk.go. Publish/Reuse is what a
--          call leaves of the message of its caller.
-- Topology declareQueuesLocked of rabbitmqsdk.go; Topology/Plan has the plan that it is held to,
--          Topology/Replayed what the broker is asked for, as a set.
-- Start    Start: the checks, the queues kept and the consumers started.
-- Session  SetQos, DeclareQueues and Start as calls of an application, with what the SDK keeps of
--          them for a reconnect. Session/Starting is Start as steps of goroutines, since it gives
--          up the SDK's mutex in between, beside the runs of reconnect;
--          Session/Slices is the arrays behind what is kept, which cloneQueueConfigs keeps apart from
--          those of the application.
-- Reconnect  the loop of reconnect.go, with its replay of the topology and the consumers; a list of
--          rounds, each with what the environment answers, stands for as many turns of the loop.
--          Reconnect/Monitor is monitorConnection and handleCloseError, with the flag that admits
--          one reconnect; a monitor is one move, since it acts on the flag once at most.
-- Shutdown  Shutdown, called by any number of goroutines, beside the goroutines of the SDK and the
--          publishers. A body of a sync.Once is one step, since other callers wait for it. A Start of
--          the application may start a worker at any time; that it does so only while a goroutine of
--          the SDK runs is a hypothesis where it is needed.
-- Lifecycle  the parts composed: what NewSDK opened, the application's calls, runs of reconnect and
--          calls of Shutdown, in any order.
-- Delivery consume, processDelivery, handleDeliveryFailure and deliveryRetryCount. Delivery/Workers is
--          the goroutines of one queue, which share a channel of deliveries, in steps that others
--          may come between; Delivery/Spans is the tracing.
-- Metrics  metrics.go: registration and labels, over an interface to Prometheus's registry.
--          Metrics/Calls has the options of the collectors and the methods of Metrics, as the calls
--          on collectors that the events of a log make.
-- Trace    trace.go: AMQPHeaderCarrier.
-- Kit      rabbitmqkit.go: the interface RabbitMQKit, and the SDK as a value of it, with SetLogger.
-- Examples the programs examples/basic, examples/dlq-and-delay, examples/metrics and
--          examples/tracing (main.go of each) over that interface.
--
-- What the environment does is an argument: every answer of the broker, the contexts, the clock,
-- the handlers and the hooks is a function of the calls made so far, or stands in the schedule, and
-- no theorem assumes more of it than its hypotheses say. Publish and Delivery take publishAMQP
-- through an interface whose laws are that it settles no delivery, calls no handler and counts no
-- publish; Publisher/Solo fills it with the call that Publisher models, for which Publish/Confirmed
-- and Delivery/Confirmed say what the broker has confirmed.
--
-- Bounds. Nothing runs on fuel but `life` of Delivery/Retries, which follows one message through
-- its redeliveries, and the printing of decimals, where the number itself is enough. A call in
-- Publisher/Solo ends with nine answers of contexts that are done, since no place in publishAMQP is
-- further than nine steps from its end. The counter of
-- the pool is an exact integer: it counts AMQP channels, of which a connection has less than 2^16.
--
-- Not modelled: logging, the values that Prometheus keeps, the text of the connection's URL,
-- the generated mock.go, and what the handlers of the examples print. The servers and providers of net/http and OpenTelemetry are records of their
-- operations, and OpenTelemetry's propagator is one with its laws.
mod Base
pub mod Go
pub mod Config
pub mod Amqp
pub mod Message
pub mod Pool
pub mod Publisher
pub mod Publish
pub mod Topology
pub mod Start
pub mod Reconnect
pub mod Delivery
pub mod Metrics
pub mod Trace
pub mod Connection
pub mod Shutdown
pub mod Opening
pub mod Session
pub mod Lifecycle
pub mod Kit
pub mod Examples
