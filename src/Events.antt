-- ===== src/Events.antt =====
-- component/stream/StreamsActivator.tsx and streams: from the platform's events to the streams of the
-- panel, and to its notifications.
pub mod Activator
pub mod Order
pub mod Notifications
