-- ===== src/Tests.antt =====
-- Witnesses of the theorems at concrete inputs, and runs of the definitions.
mod Rapid
mod World
mod Conns
mod Talks
mod Agent
mod Biz
mod Redis
mod Conf
mod Facade
mod Coroutine
mod Thrift
mod Notifier
mod Lifecycle
mod Scheduler
mod Agents
mod Loop
