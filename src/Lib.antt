-- ===== src/Lib.antt =====
-- The parts of the gateway and of the agent team that keep state of their own, as functions on that
-- state, with the theorems that make them correct.
--
-- A message reaches the gateway through the webhook server, which limits the rate of its clients,
-- or through a channel, where a stranger first needs a pairing code. It waits in the queue of a
-- worker, beside the queue of the worker's events, and in the queue of all threads, until the
-- worker hands it to the agent of its thread, which comes from a pool. The agent starts tasks,
-- which a registry keeps; a goal of the thread sends it on until a judge calls the goal done. A
-- call of Telegram that fails is retried a few times; what could not be delivered waits in the
-- retry queue, messages that nobody asked for wait while the user is not to be disturbed, and a
-- monitor reconnects channels that are down. A routing key names a conversation everywhere: the
-- message router finds or makes the worker of a key, for a channel's message as for the webhook of
-- an outside service. Hooks are told of what the agent does and may block it, and an interceptor
-- stops an agent that makes one call over and over. A poller waits for the user to authorize a
-- service. The secrets of all services lie in a vault, whose proxy puts them into the requests of
-- agents that carry a token.
--
--   Task           src/team/src/state/task-state.ts (toRunning, toIdle, toTerminal, the factories)
--   Registry       src/team/src/state/task-registry.ts (TaskRegistry)
--   MessageQueue   src/gateway/src/core/message-queue.ts (MessageQueue, coalesce)
--   EventQueue     src/gateway/src/core/event-queue.ts (EventQueue)
--   GlobalQueue    src/gateway/src/core/global-message-queue.ts (GlobalMessageQueue)
--   RateLimiter    src/gateway/src/core/security.ts (RateLimiter)
--   ThreadPool     src/team/src/handler/thread-pool.ts (ThreadPool)
--   Goal           src/team/src/harness/goals/goal-manager.ts (GoalManager), with the queries on goals
--                  of src/team/src/harness/storage/learning-store.ts
--   RetryQueue     src/gateway/src/proactive/state/retry-queue.ts (RetryQueue)
--   Pairing        src/team/src/harness/storage/pairing-store.ts (PairingStore)
--   HealthMonitor  src/gateway/src/proactive/health/monitor.ts (ChannelHealthMonitor)
--   Presence       src/gateway/src/proactive/state/presence.ts (PresenceManager)
--   RoutingKey     src/gateway/src/core/routing-key.ts (buildRoutingKey, peerFromKey)
--   DevicePoller   src/team/src/auth/device-poller.ts (startDevicePolling)
--   MessageRouter  src/gateway/src/core/message-router.ts (MessageRouter)
--   WebhookRouter  src/gateway/src/core/webhook-router.ts (WebhookRouter), with the routes of
--                  src/gateway/src/core/base-webhook.ts
--   Security       src/gateway/src/core/security.ts (the checks beside RateLimiter)
--   HookRegistry   src/gateway/src/hooks/registry.ts (HookRegistry)
--   MessageSplitter
--                  src/gateway/src/channels/telegram/message-splitter.ts (splitMessage)
--   TelegramRetry  src/gateway/src/channels/telegram/retry.ts (retryTelegram)
--   ToolLoopDedup  src/team/src/harness/hooks/tool-loop-dedup.ts (toolLoopDedup)
--   Vault          src/vault/src: crypto/cipher.ts and store/meta.ts (Cipher), store/ (Store, Tokens,
--                  Rules, Listing), seal.ts and crypto/kdf.ts (Seal), broker.ts (Broker),
--                  server/proxy.ts (Request, Inject, Proxy)
--   Prelude        what these share: numbers and tests, lists, texts, maps and errors
--
-- A module of the table holds the state as a record and one function per method, under the method's
-- name in snake case; its child modules hold the proofs, named for what they prove, and runs on
-- concrete values. A method that changes its object returns the new state beside its result. A text
-- is the list of its UTF-16 code units, a Map is the list of its entries in order of insertion, a Set
-- a list without repetition, and a number that counts or tells a time is a natural number. A
-- difference of times that may be negative is written as a sum on the other side. `Date.now()` and
-- random bytes are arguments. Where objects are shared, as in the retry queue and the monitor, an
-- object has a reference and the state holds a heap. What other code does during an `await` is an
-- argument, or an event in a history. Every loop is a structural recursion but three on fuel: the
-- numeral of a number has the number itself with one more, which is enough as each step divides by
-- ten; the batches of hooks have the number of hooks, as a batch takes one at least; and the last
-- slices of a message have its length. The loop of the splitter has the source's own bound.
-- Cryptography, JSON, URL parameters and base64 are arguments, with what the code relies on as named
-- laws where a theorem needs them. `toLowerCase` is that of ASCII text.
--
-- Not modelled: logs, files, the network, SQL beyond the queries named, and the texts of prompts and
-- notifications, which are constructors. Of the proxy, sockets, certificates, the limits of time
-- and size, and the streaming of bodies; of a hook's script, its process; of a worker, all but what the router asks of
-- it.
pub mod Prelude
pub mod Task
pub mod Registry
pub mod MessageQueue
pub mod GlobalQueue
pub mod RateLimiter
pub mod ThreadPool
pub mod Goal
pub mod RetryQueue
pub mod Pairing
pub mod HealthMonitor
pub mod DevicePoller
pub mod RoutingKey
pub mod ToolLoopDedup
pub mod Vault
pub mod Security
pub mod MessageRouter
pub mod WebhookRouter
pub mod HookRegistry
pub mod EventQueue
pub mod Presence
pub mod TelegramRetry
pub mod MessageSplitter
