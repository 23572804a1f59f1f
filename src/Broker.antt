-- ===== src/Broker.antt =====
-- packages/core/src/broker: how each broker hands jobs to the deliveries of the engine.
pub mod Memory
pub mod Redis
pub mod RabbitMq
